-- ===== src/Lib.antt =====
-- TermCall: a verification library of its core.
--
-- TermCall is a video call in the terminal: clients meet in rooms of a signaling server, connect to
-- each other over WebRTC, and send their video as grids of coloured characters over data channels.
--
-- The parts and their files:
--   Ascii       internal/ascii/delta.go: `DeltaEncoder` and `DeltaDecoder`. `encode` answers none
--               where the source would panic on an index; `decode_cells` is `DecodeCells`.
--               internal/ascii/stabiliser.go (Stabiliser) and renderer.go with `StatusFrame` (Renderer);
--               the terminal text of ascii.go, color256.go and halfblock.go (Serialise),
--               with a terminal that reads it.
--   Protocol    internal/protocol/messages.go: limits, messages, validators, user names.
--   Signaling   internal/signaling/room.go (Rooms), the limits of connections (Connections) and the
--               handler of a connection (Server), both of internal/signaling/handler.go;
--               internal/signaling/client.go (Client).
--   Turn        internal/turn/server.go: `quotaTracker`, with its reservations (Quota), the check of
--               the configuration and the credentials (Server).
--   Net         addresses, and which of them the servers and the clients connect to: `peerAllowed` of
--               internal/turn/server.go, `remoteCandidateAllowedWithPrivate` of internal/rtc/mesh.go,
--               `isPublicIPv4` of internal/config/server.go.
--   Config      internal/config/server.go: values (Values), the file (EnvFile), the checks (Server) and
--               `LoadServer` (Load); what cmd/termcall-server/main.go makes of it (Server/Start).
--   Tui         internal/tui/grid.go (Grid) and the state of internal/tui/call.go (Model,
--               with its updates in Call), and the screens of internal/tui/app.go with the form of
--               internal/tui/home.go (App).
--   Rtc         internal/rtc/mesh.go (Frame: tagged frames; Mesh: the peers and the handlers of
--               signaling messages) and internal/rtc/peer.go (Peer).
--   Text        what these use of Go's `strings` and `strconv`, over bytes.
--   Prelude     lists, results, signed integers, Go maps as association lists, counters.
--
-- How they interact: the server's handler checks each message with the validators of Protocol, calls
-- the room manager of Rooms with a callback that queues the answer to a join, and relays signals with
-- the sender's ID; the receiving client checks them with the validator for server messages. A frame
-- goes from the encoder of Ascii through the tags of Rtc/Frame to the peer of Rtc/Peer. A join's answer
-- goes from the handler, with the credentials of Turn/Server, to the client of Signaling/Client. The
-- configuration of Config is what Turn/Server and Signaling/Connections check when they start.
--
-- The model: a method under a lock is one step on the state that the lock guards; a pointer is compared
-- by a number that is given once. Go's `int` is an integer over the native numbers; the source bounds
-- its values before it multiplies them (100 by 30 cells), so no product wraps; the differences of colours
-- in the stabiliser and the 64-bit sequence counter wrap at 2^64. Loops are structural recursion on the
-- list that they run over; the digits of a number n are produced on fuel n, which is enough: each round
-- divides by 10. The command that an update of the call returns is in flight until its message arrives.
-- `Stop` may run between the two looks that the arrival of a peer takes at the mesh.
--
-- Not modelled: encoding/json, the flag package, the tables of package unicode, the WebSocket, WebRTC and
-- TURN libraries, the rate limiter and clocks, which are parameters or inputs; the sampling of images in
-- floating point, which is a parameter; the form library, which is one too; the views; the
-- start of a call without the form; native capture and playback; process set-up.
pub mod Prelude
pub mod Text
pub mod Net
pub mod Ascii
pub mod Protocol
pub mod Signaling
pub mod Turn
pub mod Rtc
pub mod Config
pub mod Tui
