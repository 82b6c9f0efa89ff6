-- ===== src/Protocol/Message.antt =====
-- internal/protocol/messages.go: limits and message types.
--
-- A string is the list of its runes (`encoding/json` gives valid UTF-8); `byte_length` is Go's `len`.
use termcall.Prelude.{ℕ, ◌+◌, ◌*◌, ◌≡◌, [], ◌∷◌, ◌++◌, arith, ltb, if◌then◌else◌, ℤ, pos, Text}
use termcall.Text.{Bytes, codes}

abbrev pub version : ℤ
version = pos 1

abbrev pub max_signal_message_bytes : ℕ
max_signal_message_bytes = 64 * 1024

abbrev pub max_payload_bytes : ℕ
max_payload_bytes = 48 * 1024

abbrev pub max_username_runes : ℕ
max_username_runes = 32

abbrev pub max_room_id_bytes : ℕ
max_room_id_bytes = 128

abbrev pub max_peer_id_bytes : ℕ
max_peer_id_bytes = 64

abbrev pub max_sdp_bytes : ℕ
max_sdp_bytes = 32 * 1024

abbrev pub max_ice_candidate_bytes : ℕ
max_ice_candidate_bytes = 8 * 1024

abbrev pub max_sdp_mid_bytes : ℕ
max_sdp_mid_bytes = 256

abbrev pub max_username_frag_bytes : ℕ
max_username_frag_bytes = 256

abbrev pub max_error_code_bytes : ℕ
max_error_code_bytes = 64

abbrev pub max_error_message_bytes : ℕ
max_error_message_bytes = 512

abbrev pub msg_join_room : Text
msg_join_room = codes "join_room"

abbrev pub msg_join_accepted : Text
msg_join_accepted = codes "join_accepted"

abbrev pub msg_leave_room : Text
msg_leave_room = codes "leave_room"

abbrev pub msg_peer_joined : Text
msg_peer_joined = codes "peer_joined"

abbrev pub msg_peer_left : Text
msg_peer_left = codes "peer_left"

abbrev pub msg_offer : Text
msg_offer = codes "offer"

abbrev pub msg_answer : Text
msg_answer = codes "answer"

abbrev pub msg_ice_candidate : Text
msg_ice_candidate = codes "ice_candidate"

abbrev pub msg_error : Text
msg_error = codes "error"

-- A field that is omitted is the empty string, or the empty payload.
pub record SignalingMessage : Type 0 where
  pub version : ℤ
  pub kind : Text
  pub room_id : Text
  pub peer_id : Text
  pub username : Text
  pub payload : Bytes

pub record PeerInfo : Type 0 where
  pub peer_id : Text
  pub username : Text

unfoldable pub new_message : Text → SignalingMessage
new_message kind = record {
  version = pos 1;
  kind = kind;
  room_id = [];
  peer_id = [];
  username = [];
  payload = [];
}

-- The bytes of a rune in UTF-8, and of a string.
abbrev pub rune_length : ℕ → ℕ
rune_length c = if ltb c 0x80 then 1 else if ltb c 0x800 then 2 else if ltb c 0x10000 then 3 else 4

abbrev pub byte_length : Text → ℕ
byte_length [] = 0
byte_length (c ∷ s) = rune_length c + byte_length s

pub byte_length-append : (s t : Text) → byte_length (s ++ t) ≡ byte_length s + byte_length t
byte_length-append [] t = omega arith
byte_length-append (c ∷ s) t = let rest = byte_length-append s t in omega arith
