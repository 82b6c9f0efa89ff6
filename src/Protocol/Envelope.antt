-- ===== src/Protocol/Envelope.antt =====
-- internal/protocol/messages.go: `DecodeMessage`, `MarshalPayload`, and what a join is answered with.
--
-- `decode` stands for `encoding/json` with unknown fields disallowed and nothing behind the value, and
-- `encode` for `json.Marshal`.
use termcall.Prelude.{
  ◌||◌, List, Option, none, some, ltb, ◌==◌, if◌then◌else◌, ℤ, Result, err, or_fail, length, Text,
}
use termcall.Text.{Bytes}
use termcall.Protocol.Message.{
  SignalingMessage, PeerInfo, max_signal_message_bytes, max_payload_bytes,
}
use termcall.Protocol.Validate.{ProtocolError, invalid_message}

pub record IceServer : Type 0 where
  pub urls : List Text
  pub username : Text
  pub credential : Text
  pub expires_at : ℤ

pub record JoinAcceptedPayload : Type 0 where
  pub room_id : Text
  pub peer_id : Text
  pub peers : List PeerInfo
  pub ice_servers : List IceServer

unfoldable pub decode_message :
    (Bytes → Option SignalingMessage) → Bytes → Result ProtocolError SignalingMessage
decode_message decode raw =
    if length raw == 0 || ltb max_signal_message_bytes (length raw)
    then err invalid_message
    else or_fail invalid_message (decode raw)

unfoldable pub bounded : Bytes → Option Bytes
bounded payload = if ltb max_payload_bytes (length payload) then none else some payload

unfoldable pub marshal_payload {ℓ} : {A : Type ℓ} → (A → Option Bytes) → A → Option Bytes
unfolding bounded
marshal_payload encode a = elim (encode a) [ none ↦ none | some payload ↦ bounded payload ]
