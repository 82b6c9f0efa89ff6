-- ===== src/Signaling/Server.antt =====
-- internal/signaling/handler.go: the loop of `HandleWebSocket`, `leaveRoom` and the error messages;
-- internal/signaling/room.go: `enqueue`, `Broadcast` and `Route`.
--
-- A `Session` is a `*Peer` with its handler's `currentRoom`. One received message is handled in one
-- step; its calls of the manager are made one after the other, as the source makes them. A `select`
-- that finds room in the queue takes it. What the server is given is a parameter: the credential
-- issuer, the JSON library, and the rate limiter's answer, which comes with the message.
pub mod Seats
pub mod Membership
pub mod Reachable
pub mod Served
pub mod Run
mod Tests
use termcall.Prelude.{
  ℕ, ◌+◌, ◌≡◌, Bool, true, false, not, ◌&&◌, List, [], ◌∷◌, ◌++◌, Option, none, some, ltb, leb,
  ◌==◌, if◌then◌else◌, Result, ok, err, length, Text, text_eq, lookup, insert, delete,
}
use termcall.Text.{Bytes, codes}
use termcall.Protocol.Message.{
  SignalingMessage, PeerInfo, new_message, msg_join_room, msg_join_accepted, msg_leave_room,
  msg_peer_joined, msg_peer_left, msg_error,
}
use termcall.Protocol.Validate.{
  Runes, Json, ProtocolError, protocol_version, ErrorPayload, normalize_username,
  validate_client_message, is_signal,
}
use termcall.Protocol.Validate.Messages.{relay}
use termcall.Protocol.Envelope.{IceServer, JoinAcceptedPayload, decode_message, marshal_payload}
use termcall.Signaling.Rooms.{
  RoomError, room_full, room_limit, room_not_found, peer_not_found, signaling_slow, payload_failed,
  RoomRef, RoomManager, Admission, admit, leave, room_peers, route_target,
}

abbrev pub peer_queue_size : ℕ
peer_queue_size = 256

-- `send` is the channel's queue, oldest first; `cancelled` tells that `Cancel` was called.
pub record Session : Type 0 where
  pub peer : PeerInfo
  pub room : Option RoomRef
  pub send : List SignalingMessage
  pub cancelled : Bool

abbrev pub Sessions : Type 0
Sessions = List (Text × Session)

pub record State : Type 0 where
  pub manager : RoomManager
  pub sessions : Sessions

pub record Services : Type 0 where
  pub issue : Text → Option IceServer
  pub read_message : Bytes → Option SignalingMessage
  pub write_accepted : JoinAcceptedPayload → Option Bytes
  pub write_error : ErrorPayload → Option Bytes
  -- The text of the error that the validator gives on a message.
  pub complaint : SignalingMessage → Text

pub data Received : Type 0 where
  closed binary : Received
  text : Bytes → Bool → Received

unfoldable pub enqueue_session : SignalingMessage → Session → Option RoomError × Session
enqueue_session message p =
    if ltb (length p.send) peer_queue_size
    then (none, record p { send = p.send ++ message ∷ [] })
    else (some signaling_slow, record p { cancelled = true })

-- The queue of a handler that has returned is read by nobody.
unfoldable pub enqueue : SignalingMessage → Text → Sessions → Option RoomError × Sessions
enqueue message id sessions = elim (lookup id sessions) [
  | none ↦ (none, sessions)
  | some p ↦ let (e, q) = enqueue_session message p in (e, insert id q sessions)
]

unfoldable pub update : Text → (Session → Session) → Sessions → Sessions
update id f sessions = elim (lookup id sessions) [
  | none ↦ sessions
  | some p ↦ insert id (f p) sessions
]

abbrev pub cancel : Session → Session
cancel p = record p { cancelled = true }

-- `writePump`: the oldest message is written, or a write or a ping fails.
pub data Pumped : Type 0 where
  written write_failed ping_failed : Pumped

after_head : List SignalingMessage → List SignalingMessage
after_head [] = []
after_head (m ∷ ms) = ms

unfoldable pub pump : Pumped → Session → Session
unfolding after_head
pump written p = record p { send = after_head p.send }
pump write_failed p = record p { send = after_head p.send; cancelled = true }
pump ping_failed p = record p { cancelled = true }

unfoldable pub enqueue_all : SignalingMessage → List Text → Sessions → Sessions
enqueue_all message [] sessions = sessions
enqueue_all message (id ∷ ids) sessions = enqueue_all message ids (enqueue message id sessions).1

-- `Broadcast`, without its count of the peers that were too slow.
unfoldable pub broadcast : RoomRef → SignalingMessage → Text → State → State
broadcast room message exclude s = record s {
  sessions = enqueue_all message (room_peers s.manager room exclude) s.sessions;
}

unfoldable pub route : RoomRef → Text → SignalingMessage → State → Option RoomError × State
route room target message s = elim (route_target s.manager room target) [
  | none ↦ (some peer_not_found, s)
  | some p ↦
      let (e, sessions) = enqueue message p.peer_id s.sessions in
      (e, record s { sessions = sessions })
]

unfoldable pub leave_room : RoomRef → Text → State → State
leave_room room id s =
    let (remaining, manager) = leave s.manager (some room) id in
    record {
      manager = manager;
      sessions =
          enqueue_all (record (new_message msg_peer_left) { peer_id = id }) remaining s.sessions;
    }

room_of : Option Session → Option RoomRef
room_of none = none
room_of (some p) = p.room

-- The variable `currentRoom` of a handler.
unfoldable pub current_room : Text → State → Option RoomRef
unfolding room_of
current_room id s = room_of (lookup id s.sessions)

module _ (u : Runes) (json : Json) (services : Services) (max_room_size : ℕ) where
  unfoldable pub error_message : Text → Text → Option SignalingMessage
  error_message code message =
      elim (marshal_payload services.write_error (record { code = code; message = message })) [
        | none ↦ none
        | some payload ↦ some (record (new_message msg_error) { payload = payload })
      ]

  -- `sendError`, and what `sendFatalError` queues before its handler returns.
  unfoldable pub send_error : Text → Text → Text → State → State
  send_error id code message s = elim (error_message code message) [
    | none ↦ record s { sessions = update id cancel s.sessions }
    | some response ↦ record s { sessions = (enqueue response id s.sessions).1 }
  ]

  unfoldable pub accept_message : Text → IceServer → Text → List PeerInfo → Option SignalingMessage
  accept_message id server room_id existing =
      elim (marshal_payload services.write_accepted
        (record { room_id = room_id; peer_id = id; peers = existing; ice_servers = server ∷ [] })) [
          | none ↦ none
          | some payload ↦ some (record (new_message msg_join_accepted) {
            room_id = room_id;
            peer_id = id;
            payload = payload;
          })
        ]

  -- The callback of the admission.
  unfoldable pub accept :
      Text → IceServer → Text → List PeerInfo → Sessions → Option RoomError × Sessions
  accept id server room_id existing sessions = elim (accept_message id server room_id existing) [
    | none ↦ (some payload_failed, sessions)
    | some accepted ↦ enqueue accepted id sessions
  ]

  unfoldable pub refuse : Text → RoomError → State → State
  refuse id room_full s = send_error id (codes "room_full") (codes "room is full") s
  refuse id room_limit s =
      send_error id (codes "server_busy") (codes "the server has reached its room limit") s
  refuse id room_not_found s =
      send_error id (codes "room_not_found") (codes "room does not exist") s
  refuse id peer_not_found s = send_error id (codes "join_failed") (codes "could not join room") s
  refuse id signaling_slow s = send_error id (codes "join_failed") (codes "could not join room") s
  refuse id payload_failed s = send_error id (codes "join_failed") (codes "could not join room") s

  -- What follows `Admit`.
  unfoldable pub admitted : Text → Text → Admission Sessions → State
  admitted id name (err e, manager, sessions) =
      refuse id e (record { manager = manager; sessions = sessions })
  admitted id name (ok room, manager, sessions) =
      broadcast room (record (new_message msg_peer_joined) { peer_id = id; username = name }) id
        (record {
          manager = manager;
          sessions = update id (λ p. record p { room = some room }) sessions;
        })

  -- A join with its normalised name; `room_id` and `now` are the ID and the time of a new room.
  unfoldable pub join_room : Text → Text → Text → Text → ℕ → State → State
  join_room id requested name room_id now s = elim (services.issue id) [
    | none ↦ send_error id (codes "turn_unavailable") (codes "relay credentials are unavailable") s
    | some server ↦ admitted id name (
        admit (accept id server) (record { peer_id = id; username = name }) requested room_id now
          max_room_size s.manager s.sessions)
  ]

  abbrev pub rename : Text → Session → Session
  rename name p = record p { peer = record p.peer { username = name } }

  unfoldable pub handle_join : Text → SignalingMessage → Option RoomRef → Text → ℕ → State → State
  handle_join id m (some room) room_id now s =
      send_error id (codes "already_joined") (codes "leave the current room before joining another")
        s
  handle_join id m none room_id now s = elim (normalize_username u m.username) [
    | err e ↦
        send_error id (codes "invalid_username")
          (codes "username must contain printable characters") s
    | ok name ↦
        join_room id m.room_id name room_id now
          (record s { sessions = update id (rename name) s.sessions })
  ]

  routed : Text → Option RoomError × State → State
  routed id (none, s) = s
  routed id (some e, s) =
      send_error id (codes "peer_unavailable") (codes "target peer is unavailable") s

  unfoldable pub handle_signal : Text → SignalingMessage → Option RoomRef → State → State
  unfolding routed
  handle_signal id m none s =
      send_error id (codes "not_joined") (codes "join a room before signaling a peer") s
  handle_signal id m (some room) s = routed id (route room m.peer_id (relay id m) s)

  abbrev pub outside : Session → Session
  outside p = record p { room = none }

  unfoldable pub handle_leave : Text → Option RoomRef → State → State
  handle_leave id none s = s
  handle_leave id (some room) s =
      let left = leave_room room id s in record left { sessions = update id outside left.sessions }

  -- The `switch` on the type of a valid message.
  unfoldable pub dispatch : Text → SignalingMessage → Text → ℕ → State → State
  dispatch id m room_id now s =
      if text_eq m.kind msg_join_room
      then handle_join id m (current_room id s) room_id now s
      else if is_signal u json m.kind
      then handle_signal id m (current_room id s) s
      else if text_eq m.kind msg_leave_room
      then handle_leave id (current_room id s) s
      else s

  unfoldable pub error_code : ProtocolError → Text
  error_code protocol_version = codes "unsupported_version"
  error_code _ = codes "invalid_message"

  checked :
      Text → SignalingMessage → Text → ℕ → State → Result ProtocolError (Unit {0}) → Bool × State
  checked id m room_id now s (ok _) = (true, dispatch id m room_id now s)
  checked id m room_id now s (err e) =
      (false, send_error id (error_code e) (services.complaint m) s)

  decoded : Text → Bool → Text → ℕ → State → Result ProtocolError SignalingMessage → Bool × State
  unfolding checked
  decoded id allowed room_id now s (err e) = (
    false,
    send_error id (codes "invalid_message") (codes "signaling message is not valid protocol JSON")
        s,
  )
  decoded id false room_id now s (ok m) =
      (false, send_error id (codes "rate_limited") (codes "signaling message rate exceeded") s)
  decoded id true room_id now s (ok m) =
      checked id m room_id now s (validate_client_message u json m)

  -- One turn of the loop: whether it goes on, and the state.
  unfoldable pub handle : Text → Received → Text → ℕ → State → Bool × State
  unfolding decoded
  handle id closed room_id now s = (false, s)
  handle id binary room_id now s = (
    false,
    send_error id (codes "invalid_message") (codes "signaling messages must be UTF-8 JSON text") s,
  )
  handle id (text raw allowed) room_id now s =
      decoded id allowed room_id now s (decode_message services.read_message raw)

  abbrev pub new_session : Text → Session
  new_session id = record {
    peer = record { peer_id = id; username = [] };
    room = none;
    send = [];
    cancelled = false;
  }

  -- A handler that starts, with a new ID.
  unfoldable pub connect : Text → State → State
  connect id s = record s { sessions = insert id (new_session id) s.sessions }

  -- The deferred calls of a handler that returns.
  unfoldable pub disconnect : Text → State → State
  disconnect id s =
      let left = handle_leave id (current_room id s) s in
      record left { sessions = delete id left.sessions }
