-- ===== src/Signaling/Rooms/Tests.antt =====
-- Runs of the room manager, and its theorems at concrete rooms.
use termcall.Prelude.{
  ◌≡◌, refl, List, [], ◌∷◌, none, some, arith, ok, err, text_eq, lookup, insert, delete,
}
use termcall.Text.{codes}
use termcall.Protocol.Message.{PeerInfo}
use termcall.Signaling.Rooms.{
  Room, RoomRef, RoomManager, room_full, Accept, joined, settle, enter, admit, current, leave,
  peer_info_snapshot, new_id,
}
use termcall.Signaling.Rooms.Invariant.{IsValid, admit-IsValid, leave-IsValid}
use termcall.Signaling.Rooms.Laws.{Admitted, admit-Admitted, admit-err}
use termcall.Signaling.Rooms.Stale.{IsGone}
use termcall.Signaling.Rooms.Return.{IsUndone, leave-admit}
use mathlib.Core.Path.{subst}

abbrev ann : PeerInfo
ann = record { peer_id = codes "a"; username = codes "ann" }

abbrev bob : PeerInfo
bob = record { peer_id = codes "b"; username = codes "bob" }

abbrev room : Room
room = record {
  ref = 3;
  id = codes "r";
  created_at = 0;
  max_peers = 2;
  peers = (codes "a", ann) ∷ [];
}

abbrev rooms : RoomManager
rooms = record { rooms = (codes "r", room) ∷ []; max_rooms = 2; next_ref = 4 }

abbrev reference : RoomRef
reference = record { ref = 3; id = codes "r" }

abbrev agree : Accept (List PeerInfo)
agree id existing s = (none, existing)

abbrev disagree : Accept (List PeerInfo)
disagree id existing s = (some room_full, existing)

rooms-IsValid : IsValid rooms
unfolding lookup
rooms-IsValid = record {
  distinct = (refl, tt);
  bounded = omega arith;
  rooms_ok = (
    record {
      keyed = refl;
      older = omega arith;
      inhabited = omega arith;
      within = omega arith;
      once = (refl, tt);
      named = (refl, tt);
    },
    tt,
  );
}

no_new_room : lookup (codes "n") rooms.rooms ≡ none
unfolding lookup text_eq
no_new_room = refl

admitted :
    admit agree bob (codes "r") (codes "n") 5 2 rooms []
    ≡ (ok reference, record rooms { rooms = (codes "r", joined room bob) ∷ [] }, ann ∷ [])
unfolding admit enter settle lookup insert text_eq peer_info_snapshot
admitted = refl

refused :
    admit disagree bob new_id (codes "n") 5 2 rooms []
    ≡ (err room_full, record rooms { next_ref = 5 }, [])
unfolding admit enter settle lookup insert delete text_eq peer_info_snapshot
refused = refl

is_current : current rooms reference ≡ some room
unfolding current lookup text_eq
is_current = refl

abbrev stale : RoomRef
stale = record { ref = 1; id = codes "r" }

gone : IsGone 1 rooms
gone = (omega arith, ((λ (e : 3 ≡ 1). omega arith), tt))

admit-IsValid_example : IsValid (admit agree bob new_id (codes "n") 5 2 rooms []).1
admit-IsValid_example =
    admit-IsValid agree bob new_id (codes "n") 5 2 rooms [] no_new_room (omega arith) rooms-IsValid

leave-IsValid_example : IsValid (leave rooms (some reference) (codes "a")).1
leave-IsValid_example = leave-IsValid rooms (some reference) (codes "a") rooms-IsValid

admit-Admitted_example :
    Admitted agree bob
      (codes "r")
      rooms
      []
      reference
      (record rooms { rooms = (codes "r", joined room bob) ∷ [] })
      (ann ∷ [])
admit-Admitted_example =
    admit-Admitted agree bob (codes "r") (codes "n") 5 2 rooms
      (record rooms { rooms = (codes "r", joined room bob) ∷ [] }) [] (ann ∷ []) reference
      rooms-IsValid no_new_room (omega arith) admitted

admit-err_example : (record rooms { next_ref = 5 }).rooms ≡ rooms.rooms
admit-err_example =
    admit-err disagree bob new_id (codes "n") 5 2 rooms (record rooms { next_ref = 5 }) [] []
      room_full rooms-IsValid no_new_room (omega arith) refused

bob_is_new :
    (r : Room) → lookup (codes "r") rooms.rooms ≡ some r → lookup (codes "b") r.peers ≡ none
unfolding lookup text_eq
bob_is_new r h = subst (λ (q : Room). lookup (codes "b") q.peers ≡ none) (same h) refl
  where
    same : some room ≡ some r → room ≡ r
    same e = cc

leave-admit_example : IsUndone rooms reference (
    leave (record rooms { rooms = (codes "r", joined room bob) ∷ [] }) (some reference) (codes "b"))
leave-admit_example =
    leave-admit agree bob (codes "r") (codes "n") 5 2 rooms
      (record rooms { rooms = (codes "r", joined room bob) ∷ [] }) [] (ann ∷ []) reference
      rooms-IsValid no_new_room (omega arith) bob_is_new admitted
