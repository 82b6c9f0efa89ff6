-- ===== src/Protocol/Validate/Samples.antt =====
-- Runes beyond ASCII refused, and a JSON library whose payload is its text: the parameters of the
-- tests.
use termcall.Prelude.{◌+◌, false, ◌&&◌, [], none, some, leb, ltb, pos, length}
use termcall.Text.{codes}
use termcall.Protocol.Message.{SignalingMessage, msg_offer}
use termcall.Protocol.Validate.{Runes, Json}

abbrev pub ascii : Runes
ascii = record {
  is_control = λ c. ltb c 32;
  is_print = λ c. leb 32 c && leb c 126;
  is_letter = λ c. leb b'a' c && leb c b'z';
  is_digit = λ c. leb b'0' c && leb c b'9';
  is_mark = λ c. false;
}

abbrev pub plain_json : Json
plain_json = record {
  encoded_length = λ m. some (length m.payload + 100);
  decode_sdp = λ t. some (record { sdp = t; kind = msg_offer });
  decode_candidate = λ t. some (record { candidate = t; sdp_mid = none; username_fragment = none });
  decode_error = λ t. some (record { code = t; message = t });
}

abbrev pub offer : SignalingMessage
offer = record {
  version = pos 1;
  kind = msg_offer;
  room_id = [];
  peer_id = codes "bob";
  username = [];
  payload = codes "v=0";
}
