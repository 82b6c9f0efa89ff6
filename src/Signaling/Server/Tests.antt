-- ===== src/Signaling/Server/Tests.antt =====
-- A run of the server: two peers meet in a room, and one of them goes.
use termcall.Prelude.{
  ◌≡◌, refl, true, [], ◌∷◌, none, some, arith, pos, length, Text, text_eq, lookup, insert, delete,
}
use termcall.Text.{codes}
use termcall.Protocol.Message.{PeerInfo, new_message, msg_join_room}
use termcall.Protocol.Validate.{
  validate_client_message, client_fields, fits, discard, validate_room_id, room_id_runes,
  room_id_rune, normalize_username, trim_space, trim_left, trim_right, is_space, printable_runes,
}
use termcall.Protocol.Validate.Samples.{ascii, plain_json}
use termcall.Protocol.Envelope.{decode_message, marshal_payload}
use termcall.Signaling.Rooms.{
  Room, new_room_manager, admit, enter, settle, leave, current, room_peers, members, peer_snapshot,
  peer_info_snapshot,
}
use termcall.Signaling.Server.{
  State, Services, text, enqueue_session, enqueue, update, enqueue_all, broadcast, current_room,
  room_of, leave_room, accept_message, accept, admitted, join_room, handle_join, handle_leave,
  dispatch, checked, decoded, handle, connect, disconnect,
}
use termcall.Signaling.Server.Seats.{IsHere}
use termcall.Signaling.Server.Reachable.{IsServed}
use termcall.Signaling.Server.Run.{
  initial, start, turn, Reach, begin, next, Reach-IsServed, Reach_one_room, Reach-disconnect,
}

-- A text is read as a join of the room that it names.
abbrev services : Services
services = record {
  issue = λ id. some (record { urls = []; username = id; credential = []; expires_at = pos 0 });
  read_message =
      λ raw. some (record (new_message msg_join_room) { room_id = raw; username = codes "ann" });
  write_accepted = λ p. some p.room_id;
  write_error = λ p. some p.code;
  complaint = λ m. codes "no";
}

abbrev room_id : Text
room_id = codes "00000000-0000-0000-0000-000000000001"

abbrev s1 : State
s1 = connect ascii plain_json services 2 (codes "a") (initial 4)

abbrev s2 : State
s2 = (handle ascii plain_json services 2 (codes "a") (text (codes "new") true) room_id 0 s1).1

a_is_new : lookup (codes "a") (initial 4).sessions ≡ none
unfolding lookup
a_is_new = refl

a-IsHere : IsHere (codes "a") s1.sessions
unfolding lookup connect insert text_eq
a-IsHere = (_, refl)

no_rooms : lookup room_id s1.manager.rooms ≡ none
unfolding lookup connect new_room_manager
no_rooms = refl

reach : Reach ascii plain_json services 2 4 s2
reach =
    next s1 s2 (next (initial 4) s1 begin (start (codes "a") a_is_new))
      (turn (codes "a") (text (codes "new") true) room_id 0 a-IsHere no_rooms)

one_room : length s2.manager.rooms ≡ 1
unfolding handle decoded checked decode_message validate_client_message fits client_fields discard
    validate_room_id normalize_username trim_space trim_left trim_right is_space printable_runes
    text_eq dispatch current_room room_of connect insert lookup update handle_join join_room
    admitted admit enter settle peer_info_snapshot accept accept_message marshal_payload enqueue
    enqueue_session broadcast enqueue_all room_peers members current peer_snapshot new_message
    new_room_manager
one_room = refl

Reach-IsServed_example : IsServed s2
Reach-IsServed_example = Reach-IsServed ascii plain_json services 2 4 s2 (omega arith) reach

abbrev s3 : State
s3 = connect ascii plain_json services 2 (codes "b") s2

abbrev s4 : State
s4 = (handle ascii plain_json services 2 (codes "b") (text room_id true) (codes "n") 1 s3).1

abbrev other_peer : PeerInfo
other_peer = record { peer_id = codes "b"; username = codes "ann" }

abbrev first_peer : PeerInfo
first_peer = record { peer_id = codes "a"; username = codes "ann" }

abbrev left : Room
left = record {
  ref = 0;
  id = room_id;
  created_at = 0;
  max_peers = 2;
  peers = (codes "b", other_peer) ∷ [];
}

abbrev both : Room
both = record left { peers = (codes "a", first_peer) ∷ (codes "b", other_peer) ∷ [] }

-- The second peer is new, joins the first one's room, and is left alone in it when the first one goes.
meeting :
    (lookup (codes "b") s2.sessions ≡ none)
    × IsHere (codes "b") s3.sessions
    × (lookup (codes "n") s3.manager.rooms ≡ none)
    × (lookup room_id s4.manager.rooms ≡ some both)
    × IsHere (codes "a") s4.sessions
    × (lookup room_id (disconnect ascii plain_json services 2 (codes "a") s4).manager.rooms
        ≡ some left)
unfolding handle decoded checked decode_message validate_client_message fits client_fields discard
    validate_room_id room_id_runes room_id_rune normalize_username trim_space trim_left trim_right
    is_space printable_runes text_eq dispatch current_room room_of connect insert lookup update
    handle_join join_room admitted admit enter settle peer_info_snapshot accept accept_message
    marshal_payload enqueue enqueue_session broadcast enqueue_all room_peers members current
    peer_snapshot new_message new_room_manager disconnect handle_leave leave_room leave delete
meeting = (refl, (_, refl), refl, refl, (_, refl), refl)

reach_both : Reach ascii plain_json services 2 4 s4
reach_both =
    next s3 s4 (next s2 s3 reach (start (codes "b") meeting.0))
      (turn (codes "b") (text room_id true) (codes "n") 1 meeting.1 meeting.2)

a_in_room : lookup (codes "a") both.peers ≡ some first_peer
unfolding lookup text_eq
a_in_room = refl

Reach_one_room_example : room_id ≡ room_id
Reach_one_room_example =
    Reach_one_room ascii plain_json services 2 4 s4 (codes "a") room_id room_id both both first_peer
      first_peer (omega arith) reach_both meeting.3 a_in_room meeting.3 a_in_room

Reach-disconnect_example :
    (lookup (codes "a") left.peers ≡ none)
    × (lookup (codes "a") (disconnect ascii plain_json services 2 (codes "a") s4).sessions ≡ none)
Reach-disconnect_example =
    Reach-disconnect ascii plain_json services 2 4 s4 (codes "a") room_id left (omega arith)
      reach_both meeting.4 meeting.5
