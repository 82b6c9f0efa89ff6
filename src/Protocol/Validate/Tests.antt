-- ===== src/Protocol/Validate/Tests.antt =====
-- Runs of the validators, and their theorems at concrete messages.
use termcall.Prelude.{◌≤◌, ◌≡◌, refl, ok, err, length, text_eq}
use termcall.Text.{codes}
use termcall.Protocol.Message.{max_payload_bytes, version}
use termcall.Protocol.Validate.{
  validate_client_message, validate_signal_payload, client_fields, fits, check_sdp, decode_payload,
  contains_nul, validate_peer_id, all_identifier, is_identifier_rune, normalize_username,
  trim_space, trim_left, trim_right, trim_cons, is_space, not_empty, printable_runes,
  validate_room_id, room_id_runes, room_id_rune, invalid_room_id,
}
use termcall.Protocol.Validate.Samples.{ascii, plain_json, offer}
use termcall.Protocol.Validate.Username.{IsUsername, normalize_username-IsUsername}
use termcall.Protocol.Validate.Messages.{Accepted, validate_client_message-Accepted}

offer_valid : validate_client_message ascii plain_json offer ≡ ok tt
unfolding validate_client_message fits client_fields text_eq validate_signal_payload check_sdp
    decode_payload contains_nul validate_peer_id all_identifier is_identifier_rune
offer_valid = refl

bad_room : validate_room_id (codes "NEW") ≡ err invalid_room_id
unfolding validate_room_id text_eq room_id_runes room_id_rune
bad_room = refl

name_normal : normalize_username ascii (codes "  ann lee ") ≡ ok (codes "ann lee")
unfolding normalize_username trim_space trim_left trim_right trim_cons is_space not_empty
    printable_runes
name_normal = refl

validate_client_message-Accepted_example :
    (offer.version ≡ version)
    × (length offer.payload ≤ max_payload_bytes)
    × Accepted ascii plain_json offer
validate_client_message-Accepted_example =
    validate_client_message-Accepted ascii plain_json offer offer_valid

normalize_username-IsUsername_example : IsUsername ascii (codes "ann lee")
normalize_username-IsUsername_example =
    normalize_username-IsUsername ascii (codes "  ann lee ") (codes "ann lee") name_normal
