-- ===== src/Signaling/Client/Tests.antt =====
-- A join that is answered and read, and a client whose queue is read.
use termcall.Prelude.{
  ◌≡◌, refl, true, false, List, [], ◌∷◌, none, some, arith, pos, ok, Text, text_eq, lookup, All,
}
use termcall.Text.{codes}
use termcall.Text.Decimal.{itoa}
use termcall.Protocol.Message.{SignalingMessage, new_message, msg_join_accepted, msg_peer_left}
use termcall.Protocol.Validate.{
  validate_room_id, validate_peer_id, normalize_username, validate_server_message,
  is_identifier_rune, trim_space, trim_right, trim_left, is_space, printable_runes, room_id_runes,
  room_id_rune,
}
use termcall.Protocol.Validate.Samples.{ascii, plain_json}
use termcall.Protocol.Envelope.{IceServer, JoinAcceptedPayload, decode_message, marshal_payload}
use termcall.Turn.Server.{CredentialIssuer, turn_urls, issue, expiry}
use termcall.Signaling.Rooms.{Room, peer_info_snapshot}
use termcall.Signaling.Rooms.Invariant.{IsRoom}
use termcall.Signaling.Server.{Services, accept_message}
use termcall.Signaling.Client.{
  Client, Event, read, receive, message, failure, join_response, breaks_line, step, read_pump,
}
use termcall.Signaling.Client.Credentials.{IsHost, IsIssuer, IsNear}
use termcall.Signaling.Client.Admission.{Reads, Acceptable, join_response-accept_message}
use termcall.Signaling.Client.Delivery.{FromServer, IsSound, run, run-IsSound}

abbrev host : Text
host = codes "8.8.4.4"

abbrev issuer : CredentialIssuer
issuer = record { shared_secret = codes "key"; ttl = pos 600000000000; urls = turn_urls host 3478 }

-- A signature that tells nothing.
abbrev sign : Text → Text → Text
sign key t = codes "c2ln"

abbrev ice : IceServer
ice = record {
  urls = turn_urls host 3478;
  username = codes "1700:carol";
  credential = codes "c2ln";
  expires_at = pos 1700;
}

issued : issue ascii sign issuer 1100000000000 (codes "carol") ≡ ok ice
unfolding issue validate_peer_id text_eq is_identifier_rune itoa expiry
issued = refl

abbrev room_uuid : Text
room_uuid = codes "c0ffee00-0000-4000-8000-00000000cafe"

abbrev call_room : Room
call_room = record {
  ref = 0;
  id = room_uuid;
  created_at = 0;
  max_peers = 5;
  peers = (codes "bob", record { peer_id = codes "bob"; username = codes "bob" }) ∷ [];
}

abbrev written : JoinAcceptedPayload
written = record {
  room_id = room_uuid;
  peer_id = codes "carol";
  peers = record { peer_id = codes "bob"; username = codes "bob" } ∷ [];
  ice_servers = ice ∷ [];
}

abbrev services : Services
services = record {
  issue = λ id. some ice;
  read_message = λ raw. none;
  write_accepted = λ a. some (codes "{}");
  write_error = λ e. none;
  complaint = λ m. [];
}

abbrev accepted : SignalingMessage
accepted = record (new_message msg_join_accepted) {
  room_id = room_uuid;
  peer_id = codes "carol";
  payload = codes "{}";
}

accepted_by_server :
    accept_message ascii plain_json services 5
      (codes "carol")
      ice
      room_uuid
      (peer_info_snapshot call_room.peers [])
    ≡ some accepted
unfolding accept_message marshal_payload
accepted_by_server = refl

host-IsHost : IsHost host
unfolding breaks_line
host-IsHost = record { short = ground arith; one_line = refl }

issuer-IsIssuer : IsIssuer sign host 3478 issuer
unfolding text_eq
issuer-IsIssuer = record {
  urls = refl;
  lifetime = refl;
  signed = λ t. refl;
  signature = λ t. ground arith;
}

hosted-IsRoom : IsRoom 1 room_uuid call_room
unfolding lookup
hosted-IsRoom = record {
  keyed = refl;
  older = omega arith;
  inhabited = omega arith;
  within = omega arith;
  once = (refl, tt);
  named = (refl, tt);
}

bob_id : validate_peer_id ascii (codes "bob") ≡ ok tt
unfolding validate_peer_id text_eq is_identifier_rune
bob_id = refl

bob_name : normalize_username ascii (codes "bob") ≡ ok (codes "bob")
unfolding normalize_username trim_space trim_right trim_left is_space printable_runes
bob_name = refl

bob-Acceptable :
    Acceptable ascii (codes "bob") (record { peer_id = codes "bob"; username = codes "bob" })
bob-Acceptable = (bob_id, (codes "bob", bob_name))

read_back : Reads services.write_accepted (λ raw. some written) written
read_back = record { nonempty = λ raw e. ground arith; same = λ raw e. refl }

absent : lookup (codes "carol") call_room.peers ≡ none
unfolding lookup text_eq
absent = refl

valid_room : validate_room_id room_uuid ≡ ok tt
unfolding validate_room_id text_eq room_id_runes room_id_rune
valid_room = refl

arrived : decode_message (λ raw. some accepted) (codes "{}") ≡ ok accepted
unfolding decode_message
arrived = refl

near : IsNear 1100000000000 1090
near = record { epoch = omega arith; behind = omega arith; ahead = omega arith }

join_response-accept_message_example :
    join_response ascii plain_json
      (λ raw. some accepted)
      (λ raw. some written)
      1090
      true
      (codes "{}")
    ≡ ok written
unfolding peer_info_snapshot text_eq
join_response-accept_message_example =
    join_response-accept_message ascii plain_json services sign host 3478 issuer
      (λ raw. some accepted) (λ raw. some written) 1100000000000 1090 5 1 (codes "carol")
      (codes "{}") ice call_room accepted host-IsHost (omega arith) issuer-IsIssuer near read_back
      hosted-IsRoom (omega arith) (bob-Acceptable, tt) absent valid_room issued accepted_by_server
      arrived

-- A leave arrives, is received, and then the connection fails.
abbrev left : SignalingMessage
left = record (new_message msg_peer_left) { peer_id = codes "bob" }

abbrev events : List Event
events = read false (message true (codes "{}")) ∷ receive ∷ read false (failure false) ∷ []

abbrev idle : Client
idle = record { recv = []; errors = []; running = true; cancelled = false }

idle-IsSound : IsSound ascii plain_json (λ raw. some left) idle
idle-IsSound = record { messages = tt; room = omega arith; one_error = omega arith }

run-IsSound_example :
    All
      (FromServer ascii plain_json (λ raw. some left))
      (run ascii plain_json (λ raw. some left) events idle).0
    × IsSound ascii plain_json
        (λ raw. some left)
        (run ascii plain_json (λ raw. some left) events idle).1
run-IsSound_example = run-IsSound ascii plain_json (λ raw. some left) events idle idle-IsSound

delivered : (run ascii plain_json (λ raw. some left) events idle).0 ≡ left ∷ []
unfolding run step read_pump decode_message validate_server_message new_message text_eq
    validate_peer_id is_identifier_rune
delivered = refl
