-- ===== src/Signaling/Client.antt =====
-- internal/signaling/client.go: `Dial`'s checks, `Send`, `readPump`, `validateAdmission` and
-- `validateServerURL`.
--
-- The connection is a parameter: what it delivers. Of an error only which one it is is kept.
pub mod Delivery
pub mod Credentials
pub mod Admission
mod Tests
use Prim.Native.String.{String}
use termcall.Prelude.{
  ℕ, ◌+◌, ◌≡◌, Bool, true, false, not, ◌&&◌, ◌||◌, List, [], ◌∷◌, ◌++◌, Option, none, some, ltb,
  leb, ◌==◌, if◌then◌else◌, ℤ, pos, ltb_ℤ, eqb_ℤ, Result, ok, err, ◌>>=◌, ◌>>◌, guard, length, Text,
  text_eq,
}
use termcall.Text.{Bytes, codes}
use termcall.Net.Address.{addr_from_slice, unmap, is_loopback}
use termcall.Net.Url.{Url}
use termcall.Protocol.Message.{
  SignalingMessage, PeerInfo, version, new_message, msg_join_room, msg_join_accepted, msg_error,
  byte_length,
}
use termcall.Protocol.Validate.{
  Runes, Json, ProtocolError, ErrorPayload, decode_payload, normalize_username, validate_peer_id,
  validate_room_id, validate_client_message, validate_server_message,
}
use termcall.Protocol.Envelope.{IceServer, JoinAcceptedPayload, decode_message}
use termcall.Signaling.Server.{peer_queue_size}

pub data ClientError : Type 0 where
  bad_url no_host insecure_url bad_scheme : ClientError
  invalid : ProtocolError → ClientError
  dial_failed not_text unsupported_version invalid_error unexpected_response mismatched_envelope :
      ClientError
  rejected : Text → Text → ClientError
  no_ice_servers too_many_ice_servers too_many_peers incomplete_credentials expired_credentials
        invalid_ice_url :
      ClientError
  local_peer_listed duplicate_peer read_failed consumer_too_slow : ClientError

unfoldable pub relabel {ℓ} : {A : Type ℓ} → Result ProtocolError A → Result ClientError A
relabel (ok a) = ok a
relabel (err e) = err (invalid e)

unfoldable pub is_loopback_host : (Text → Bytes) → Text → Bool
is_loopback_host parse_ip host =
    if text_eq host (codes "localhost")
    then true
    else elim (addr_from_slice (parse_ip host)) [ none ↦ false | some a ↦ is_loopback (unmap a) ]

check_url : (Text → Bytes) → Bool → Option Url → Result ClientError (Unit {0})
check_url parse_ip allow_insecure none = err bad_url
check_url parse_ip allow_insecure (some url) = do
  guard (not (url.has_user || text_eq url.hostname [])) no_host
  if text_eq url.scheme (codes "wss")
      then ok tt
      else if text_eq url.scheme (codes "ws")
      then guard (allow_insecure || is_loopback_host parse_ip url.hostname) insecure_url
      else err bad_scheme

unfoldable pub validate_server_url :
    (Text → Option Url) → (Text → Bytes) → Text → Bool → Result ClientError (Unit {0})
unfolding check_url
validate_server_url parse_url parse_ip raw allow_insecure =
    check_url parse_ip allow_insecure (parse_url raw)

has_prefix : Text → Text → Bool
has_prefix [] s = true
has_prefix (c ∷ p) [] = false
has_prefix (c ∷ p) (d ∷ s) = c == d && has_prefix p s

unfoldable pub breaks_line : Text → Bool
breaks_line [] = false
breaks_line (c ∷ s) = c == 13 || c == 10 || c == 0 || breaks_line s

unfoldable pub valid_ice_url : Text → Bool
unfolding has_prefix breaks_line
valid_ice_url raw =
    (has_prefix (codes "stun:") raw
      || has_prefix (codes "turn:") raw
      || has_prefix (codes "turns:") raw)
    && leb (byte_length raw) 512
    && not (breaks_line raw)

unfoldable pub check_ice_urls : List Text → Result ClientError (Unit {0})
check_ice_urls [] = ok tt
check_ice_urls (raw ∷ urls) = guard (valid_ice_url raw) invalid_ice_url >> check_ice_urls urls

-- `now` is the client's clock, in seconds.
unfoldable pub check_ice_servers : ℕ → List IceServer → Result ClientError (Unit {0})
check_ice_servers now [] = ok tt
check_ice_servers now (server ∷ servers) = do
  guard
      (not (
        length server.urls == 0
        || ltb 8 (length server.urls)
        || text_eq server.username []
        || ltb 256 (byte_length server.username)
        || text_eq server.credential []
        || ltb 512 (byte_length server.credential)))
      incomplete_credentials
  guard (ltb_ℤ (pos now) server.expires_at && not (ltb_ℤ (pos (now + 7200)) server.expires_at))
      expired_credentials
  check_ice_urls server.urls
  check_ice_servers now servers

unfoldable pub seen_in : Text → List Text → Bool
seen_in id [] = false
seen_in id (other ∷ seen) = text_eq id other || seen_in id seen

module _ (u : Runes) where
  unfoldable pub discard_name : Result ProtocolError Text → Result ClientError (Unit {0})
  discard_name (ok name) = ok tt
  discard_name (err e) = err (invalid e)

  unfoldable pub check_peers : Text → List Text → List PeerInfo → Result ClientError (Unit {0})
  check_peers own seen [] = ok tt
  check_peers own seen (peer ∷ peers) = do
    relabel (validate_peer_id u peer.peer_id)
    guard (not (text_eq peer.peer_id own)) local_peer_listed
    guard (not (seen_in peer.peer_id seen)) duplicate_peer
    discard_name (normalize_username u peer.username)
    check_peers own (peer.peer_id ∷ seen) peers

  unfoldable pub validate_admission : ℕ → JoinAcceptedPayload → Result ClientError (Unit {0})
  validate_admission now a = do
    relabel (validate_room_id a.room_id)
    relabel (validate_peer_id u a.peer_id)
    guard (not (length a.ice_servers == 0)) no_ice_servers
    guard (leb (length a.ice_servers) 4) too_many_ice_servers
    guard (leb (length a.peers) 16) too_many_peers
    check_ice_servers now a.ice_servers
    check_peers a.peer_id [] a.peers

  -- What `Dial` sends, once its options are checked.
  unfoldable pub join_request :
      (Text → Option Url)
      → (Text → Bytes)
      → Text
      → Text
      → Text
      → Bool
      → Result ClientError SignalingMessage
  join_request parse_url parse_ip url room_id name allow_insecure = do
    validate_server_url parse_url parse_ip url allow_insecure
    relabel (validate_room_id room_id)
    username ← relabel (normalize_username u name)
    ok (record (new_message msg_join_room) { room_id = room_id; username = username })

  module _ (json : Json) (read_message : Bytes → Option SignalingMessage)
      (read_accepted : Bytes → Option JoinAcceptedPayload) where
    or_invalid_error {ℓ} : {A : Type ℓ} → Result ProtocolError A → Result ClientError A
    or_invalid_error (ok a) = ok a
    or_invalid_error (err e) = err invalid_error

    rejection : SignalingMessage → Result ClientError JoinAcceptedPayload
    rejection response = do
      or_invalid_error (validate_server_message u json response)
      failure ← or_invalid_error (decode_payload json.decode_error response.payload)
      err (rejected failure.code failure.message)

    admission : ℕ → SignalingMessage → Result ClientError JoinAcceptedPayload
    admission now response = do
      a ← relabel (decode_payload read_accepted response.payload)
      validate_admission now a
      guard (text_eq response.room_id a.room_id && text_eq response.peer_id a.peer_id)
          mismatched_envelope
      ok a

    -- What `Dial` makes of the answer to its join: whether it is text, and its bytes.
    unfoldable pub join_response : ℕ → Bool → Bytes → Result ClientError JoinAcceptedPayload
    unfolding rejection admission or_invalid_error
    join_response now is_text raw = do
      guard is_text not_text
      response ← relabel (decode_message read_message raw)
      guard (eqb_ℤ response.version version) unsupported_version
      if text_eq response.kind msg_error
          then rejection response
          else if text_eq response.kind msg_join_accepted
          then admission now response
          else err unexpected_response

    -- `Send`: the message that is written.
    unfoldable pub send : SignalingMessage → Result ProtocolError SignalingMessage
    send message = do
      validate_client_message u json (record message { version = version })
      ok (record message { version = version })

-- A client: its channel of received messages, oldest first, and its channel of errors, which holds one.
-- `running` tells that `readPump` has not returned, `cancelled` that the context is.
pub record Client : Type 0 where
  pub recv : List SignalingMessage
  pub errors : List ClientError
  pub running : Bool
  pub cancelled : Bool

unfoldable pub report_error : ClientError → Client → Client
report_error e c = if length c.errors == 0 then record c { errors = e ∷ [] } else c

-- The deferred calls: both channels are closed and the context is cancelled.
abbrev pub stop : Client → Client
stop c = record c { running = false; cancelled = true }

-- What `conn.Read` gives: a message, text or not, or an error, a disconnect or not.
pub data Read : Type 0 where
  message : Bool → Bytes → Read
  failure : Bool → Read

-- The `select`: a cancelled context may be chosen over room in the channel.
deliver : Bool → SignalingMessage → Client → Client
deliver prefers_done m c =
    if prefers_done && c.cancelled
    then stop c
    else if ltb (length c.recv) peer_queue_size
    then record c { recv = c.recv ++ m ∷ [] }
    else if c.cancelled
    then stop c
    else stop (report_error consumer_too_slow c)

after_head : List SignalingMessage → List SignalingMessage
after_head [] = []
after_head (m ∷ ms) = ms

-- What can happen to a client; a pump that has returned reads nothing.
pub data Event : Type 0 where
  read : Bool → Read → Event
  receive cancel : Event

module _ (u : Runes) (json : Json) (read_message : Bytes → Option SignalingMessage) where
  validated : Bool → SignalingMessage → Client → Result ProtocolError (Unit {0}) → Client
  validated prefers_done m c (ok _) = deliver prefers_done m c
  validated prefers_done m c (err e) = stop (report_error (invalid e) c)

  decoded : Bool → Client → Result ProtocolError SignalingMessage → Client
  decoded prefers_done c (err e) = stop (report_error (invalid e) c)
  decoded prefers_done c (ok m) = validated prefers_done m c (validate_server_message u json m)

  -- One turn of the loop of `readPump`.
  unfoldable pub read_pump : Bool → Read → Client → Client
  unfolding deliver validated decoded
  read_pump prefers_done (failure true) c = stop c
  read_pump prefers_done (failure false) c = stop (report_error read_failed c)
  read_pump prefers_done (message false raw) c = stop (report_error not_text c)
  read_pump prefers_done (message true raw) c =
      decoded prefers_done c (decode_message read_message raw)

  unfoldable pub step : Event → Client → Client
  unfolding after_head
  step (read prefers_done r) c = if c.running then read_pump prefers_done r c else c
  step receive c = record c { recv = after_head c.recv }
  step cancel c = record c { cancelled = true }
