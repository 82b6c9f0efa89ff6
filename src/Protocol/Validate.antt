-- ===== src/Protocol/Validate.antt =====
-- internal/protocol/messages.go: `NormalizeUsername` and the validators.
--
-- `unicode.IsControl`, `IsPrint`, `IsLetter`, `IsDigit` and `IsMark` are tables of the Go runtime:
-- they are the fields of a `Runes`, with the facts about ASCII that the theorems use. `encoding/json`
-- is a `Json`: strict decoding to one value, and encoding.
pub mod Username
pub mod Trim
pub mod Messages
pub mod Samples
mod Tests
use termcall.Prelude.{
  ℕ, suc, zero, ◌+◌, ◌≡◌, Bool, true, false, not, ◌&&◌, ◌||◌, List, [], ◌∷◌, ◌++◌, Option, none,
  some, ltb, leb, ◌==◌, if◌then◌else◌, ℤ, pos, eqb_ℤ, Result, ok, err, ◌>>=◌, ◌>>◌, guard, or_fail,
  length, Text, text_eq,
}
use termcall.Text.{Bytes, codes}
use termcall.Protocol.Message.{
  SignalingMessage, max_signal_message_bytes, max_payload_bytes, max_username_runes,
  max_room_id_bytes, max_peer_id_bytes, max_sdp_bytes, max_ice_candidate_bytes, max_sdp_mid_bytes,
  max_username_frag_bytes, max_error_code_bytes, max_error_message_bytes, version, msg_join_room,
  msg_leave_room, msg_peer_joined, msg_peer_left, msg_offer, msg_answer, msg_ice_candidate,
  msg_error, byte_length,
}

pub record Runes : Type 0 where
  pub is_control : ℕ → Bool
  pub is_print : ℕ → Bool
  pub is_letter : ℕ → Bool
  pub is_digit : ℕ → Bool
  pub is_mark : ℕ → Bool

-- `unicode.IsSpace`.
unfoldable pub is_space : ℕ → Bool
is_space c =
    (leb 9 c && leb c 13)
    || c == 32
    || c == 0x85
    || c == 0xa0
    || c == 0x1680
    || (leb 0x2000 c && leb c 0x200a)
    || c == 0x2028
    || c == 0x2029
    || c == 0x202f
    || c == 0x205f
    || c == 0x3000

pub data ProtocolError : Type 0 where
  protocol_version invalid_message invalid_username invalid_room_id invalid_peer_id : ProtocolError

unfoldable pub trim_left : Text → Text
trim_left [] = []
trim_left (c ∷ s) = let rest = trim_left s in if is_space c then rest else c ∷ s

trim_cons : ℕ → Text → Text
trim_cons c [] = if is_space c then [] else c ∷ []
trim_cons c (d ∷ s) = c ∷ d ∷ s

unfoldable pub trim_right : Text → Text
unfolding trim_cons
trim_right [] = []
trim_right (c ∷ s) = trim_cons c (trim_right s)

-- `strings.TrimSpace`
unfoldable pub trim_space : Text → Text
trim_space s = trim_right (trim_left s)

module _ (u : Runes) where
  -- The loop of `NormalizeUsername`: `count` runes are written already.
  unfoldable pub printable_runes : ℕ → Text → Text
  printable_runes count [] = []
  printable_runes count (c ∷ s) =
      let skip = printable_runes count s in
      let write = printable_runes (count + 1) s in
      if u.is_control c || not (u.is_print c)
      then skip
      else if count == max_username_runes
      then []
      else c ∷ write

  not_empty : Text → Result ProtocolError Text
  not_empty [] = err invalid_username
  not_empty (c ∷ s) = ok (c ∷ s)

  unfoldable pub normalize_username : Text → Result ProtocolError Text
  unfolding not_empty
  normalize_username value = do
    trimmed ← not_empty (trim_space value)
    not_empty (trim_space (printable_runes 0 trimmed))

  unfoldable pub is_identifier_rune : ℕ → Bool
  is_identifier_rune c =
      u.is_letter c || u.is_digit c || u.is_mark c || c == b'-' || c == b'_' || c == b'.'

  all_identifier : Text → Bool
  all_identifier [] = true
  all_identifier (c ∷ s) = is_identifier_rune c && all_identifier s

  unfoldable pub validate_peer_id : Text → Result ProtocolError (Unit {0})
  unfolding all_identifier
  validate_peer_id peer_id = do
    guard (not (text_eq peer_id []) && leb (byte_length peer_id) max_peer_id_bytes) invalid_peer_id
    guard (all_identifier peer_id) invalid_peer_id

  unfoldable pub has_control : Text → Bool
  has_control [] = false
  has_control (c ∷ s) = u.is_control c || has_control s

-- A rune of a room ID at its position; beyond ASCII the test fails, so positions count bytes.
unfoldable pub room_id_rune : ℕ → ℕ → Bool
room_id_rune index c =
    if index == 8 || index == 13 || index == 18 || index == 23
    then c == b'-'
    else (leb b'0' c && leb c b'9') || (leb b'a' c && leb c b'f')

unfoldable pub room_id_runes : ℕ → Text → Bool
room_id_runes index [] = true
room_id_runes index (c ∷ s) = room_id_rune index c && room_id_runes (index + 1) s

unfoldable pub validate_room_id : Text → Result ProtocolError (Unit {0})
validate_room_id room_id =
    if text_eq room_id (codes "new")
    then ok tt
    else if not (byte_length room_id == 36) || ltb max_room_id_bytes (byte_length room_id)
    then err invalid_room_id
    else guard (room_id_runes 0 room_id) invalid_room_id

error_code_runes : Text → Bool
error_code_runes [] = true
error_code_runes (c ∷ s) =
    ((leb b'a' c && leb c b'z') || (leb b'0' c && leb c b'9') || c == b'_') && error_code_runes s

unfoldable pub valid_error_code : Text → Bool
unfolding error_code_runes
valid_error_code value =
    not (text_eq value []) && leb (byte_length value) max_error_code_bytes && error_code_runes value

pub record SdpPayload : Type 0 where
  pub sdp : Text
  pub kind : Text

pub record IceCandidatePayload : Type 0 where
  pub candidate : Text
  pub sdp_mid : Option Text
  pub username_fragment : Option Text

pub record ErrorPayload : Type 0 where
  pub code : Text
  pub message : Text

-- `decode…` reads exactly one JSON value with no unknown field and nothing behind it.
pub record Json : Type 0 where
  pub encoded_length : SignalingMessage → Option ℕ
  pub decode_sdp : Bytes → Option SdpPayload
  pub decode_candidate : Bytes → Option IceCandidatePayload
  pub decode_error : Bytes → Option ErrorPayload

-- `DecodePayload`, at the decoder of its type.
unfoldable pub decode_payload {ℓ} :
    {A : Type ℓ} → (Bytes → Option A) → Bytes → Result ProtocolError A
decode_payload decode payload =
    if length payload == 0 || ltb max_payload_bytes (length payload)
    then err invalid_message
    else or_fail invalid_message (decode payload)

unfoldable pub contains_nul : Text → Bool
contains_nul [] = false
contains_nul (c ∷ s) = c == 0 || contains_nul s

module _ (u : Runes) (json : Json) where
  optional_ok : ℕ → Option Text → Bool
  optional_ok bound none = true
  optional_ok bound (some t) = leb (byte_length t) bound && not (has_control u t)

  check_sdp : Text → SdpPayload → Result ProtocolError (Unit {0})
  check_sdp kind session =
      guard
        (text_eq session.kind kind
          && not (text_eq session.sdp [])
          && leb (byte_length session.sdp) max_sdp_bytes
          && not (contains_nul session.sdp))
        invalid_message

  check_candidate : IceCandidatePayload → Result ProtocolError (Unit {0})
  unfolding optional_ok
  check_candidate c = do
    guard
        (not (text_eq c.candidate [])
          && leb (byte_length c.candidate) max_ice_candidate_bytes
          && not (has_control u c.candidate))
        invalid_message
    guard (optional_ok max_sdp_mid_bytes c.sdp_mid) invalid_message
    guard (optional_ok max_username_frag_bytes c.username_fragment) invalid_message

  unfoldable pub validate_signal_payload : Text → Bytes → Result ProtocolError (Unit {0})
  unfolding check_sdp check_candidate
  validate_signal_payload kind payload =
      if text_eq kind msg_offer || text_eq kind msg_answer
      then decode_payload json.decode_sdp payload >>= check_sdp kind
      else if text_eq kind msg_ice_candidate
      then decode_payload json.decode_candidate payload >>= check_candidate
      else err invalid_message

  unfoldable pub discard : Result ProtocolError Text → Result ProtocolError (Unit {0})
  discard (ok _) = ok tt
  discard (err e) = err e

  unfoldable pub fits : Option ℕ → Bool
  fits none = false
  fits (some n) = leb n max_signal_message_bytes

  abbrev pub is_signal : Text → Bool
  is_signal kind =
      text_eq kind msg_offer || text_eq kind msg_answer || text_eq kind msg_ice_candidate

  -- The `switch` of `ValidateClientMessage`.
  unfoldable pub client_fields : SignalingMessage → Result ProtocolError (Unit {0})
  unfolding discard
  client_fields m =
      if text_eq m.kind msg_join_room
      then (do
        guard (text_eq m.peer_id [] && length m.payload == 0) invalid_message
        validate_room_id m.room_id
        discard (normalize_username u m.username))
      else if text_eq m.kind msg_leave_room
      then guard
          (text_eq m.room_id []
            && text_eq m.peer_id []
            && text_eq m.username []
            && length m.payload == 0)
          invalid_message
      else if is_signal m.kind
      then (do
        guard (text_eq m.room_id [] && text_eq m.username []) invalid_message
        validate_peer_id u m.peer_id
        validate_signal_payload m.kind m.payload)
      else err invalid_message

  unfoldable pub validate_client_message : SignalingMessage → Result ProtocolError (Unit {0})
  unfolding fits
  validate_client_message m = do
    guard (eqb_ℤ m.version version) protocol_version
    guard (leb (length m.payload) max_payload_bytes) invalid_message
    guard (fits (json.encoded_length m)) invalid_message
    client_fields m

  check_failure : ErrorPayload → Result ProtocolError (Unit {0})
  check_failure f =
      guard
        (valid_error_code f.code
          && not (text_eq f.message [])
          && leb (byte_length f.message) max_error_message_bytes
          && not (has_control u f.message))
        invalid_message

  unfoldable pub validate_server_message : SignalingMessage → Result ProtocolError (Unit {0})
  unfolding discard check_failure
  validate_server_message m = do
    guard (eqb_ℤ m.version version) protocol_version
    guard (leb (length m.payload) max_payload_bytes) invalid_message
    if text_eq m.kind msg_peer_joined
        then (do validate_peer_id u m.peer_id; discard (normalize_username u m.username))
        else if text_eq m.kind msg_peer_left
        then validate_peer_id u m.peer_id
        else if is_signal m.kind
        then (do validate_peer_id u m.peer_id; validate_signal_payload m.kind m.payload)
        else if text_eq m.kind msg_error
        then decode_payload json.decode_error m.payload >>= check_failure
        else err invalid_message
