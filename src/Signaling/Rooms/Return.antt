-- ===== src/Signaling/Rooms/Return.antt =====
-- internal/signaling/room.go: `Admit` and then `Leave` by the reference that it gave.
use termcall.Prelude.{
  ℕ, ◌<◌, ◌≡◌, refl, sym, ap, ◌∙◌, inl, inr, false, [], List, none, some, arith, ◌==◌, ==_iff,
  if◌then◌else◌, ok, length, Text, text_eq, text_eq_iff, lookup, delete, delete-insert_new,
  Bool-cases, Entries-lookup,
}
use termcall.Protocol.Message.{PeerInfo}
use termcall.Signaling.Rooms.{
  Room, RoomRef, RoomManager, Accept, joined, admit, current, leave_room, leave, members,
  members_of, peer_snapshot,
}
use termcall.Signaling.Rooms.Invariant.{IsValid, IsRoom}
use termcall.Signaling.Rooms.Laws.{Admitted, Joins, admit-Admitted}
use termcall.Signaling.Rooms.Stale.{leave_room-lookup}

current_of :
    (m : RoomManager) (r : RoomRef) (room : Room)
    → lookup r.id m.rooms ≡ some room
    → room.ref ≡ r.ref
    → current m r ≡ some room
unfolding current
current_of m r room l e = rw (l, current, (==_iff room.ref r.ref).1 e)

members-current :
    (m : RoomManager) (r : RoomRef) (room : Room)
    → current m r ≡ some room
    → members m r ≡ room.peers
unfolding members members_of
members-current m r room e = rw (e, members_of) refl

members_missing : (m : RoomManager) (r : RoomRef) → lookup r.id m.rooms ≡ none → members m r ≡ []
unfolding members members_of current
members_missing m r l = rw (l, current, members_of) refl

missing : (k : Text) (ps : List (Text × PeerInfo)) → ps ≡ [] → lookup k ps ≡ none
unfolding lookup
missing k ps e = ap (λ (qs : List (Text × PeerInfo)). lookup k qs) e

-- A room without the peer that has joined it, looked up.
back_at :
    (m m' : RoomManager) (room : Room) (peer : PeerInfo) (j : Text)
    → delete peer.peer_id (joined room peer).peers ≡ room.peers
    → lookup j (leave_room m' peer.peer_id (some (joined room peer))).1.rooms ≡ (
        if text_eq room.id j
        then (if length room.peers == 0 then none else some room)
        else lookup j m'.rooms)
back_at m m' room peer j e =
    leave_room-lookup m' peer.peer_id (joined room peer) j
    ∙ ap
        (λ (ps : List (Text × PeerInfo)).
          if text_eq room.id j
          then (if length ps == 0 then none else some (record room { peers = ps }))
          else lookup j m'.rooms)
        e

-- The rooms and the answer of a leave that undoes an admission.
pub record IsUndone (m : RoomManager) (ref : RoomRef) (r : List Text × RoomManager) : Type 0 where
  pub returned : r.0 ≡ peer_snapshot (members m ref) []
  pub rooms_back : (j : Text) → lookup j r.1.rooms ≡ lookup j m.rooms

leave_joined :
    (m m' : RoomManager) (room : Room) (peer : PeerInfo) (ref : RoomRef)
    → room.id ≡ ref.id
    → room.ref ≡ ref.ref
    → lookup peer.peer_id room.peers ≡ none
    → members m ref ≡ room.peers
    → lookup room.id m.rooms ≡ (if length room.peers == 0 then none else some room)
    → Joins m peer room m'
    → IsUndone m ref (leave m' (some ref) peer.peer_id)
unfolding leave
leave_joined m m' room peer ref ei er absent before at joins =
    let left : delete peer.peer_id (joined room peer).peers ≡ room.peers =
      delete-insert_new peer.peer_id peer room.peers absent in
    let there : lookup ref.id m'.rooms ≡ some (joined room peer) =
      joins ref.id ∙ rw ((text_eq_iff room.id ref.id).1 ei) refl in
    let found : current m' ref ≡ some (joined room peer) =
      current_of m' ref (joined room peer) there er in
    record {
      returned = rw found (
          unfold leave_room in
          ap (λ (ps : List (Text × PeerInfo)). peer_snapshot ps []) (left ∙ sym before));
      rooms_back = λ j. rw found (
          back_at m m' room peer j left ∙ elim (Bool-cases (text_eq room.id j)) [
            | inl e ↦ rw (e, ← (text_eq_iff room.id j).0 e) (sym at)
            | inr e ↦ rw e (joins j ∙ rw e refl)
          ]);
    }

module _ {S : Type 0} (accept : Accept S) (peer : PeerInfo) where
  undone :
      (requested : Text) (m m' : RoomManager) (s s' : S) (ref : RoomRef)
      → IsValid m
      → ((room : Room)
          → lookup requested m.rooms ≡ some room
          → lookup peer.peer_id room.peers ≡ none)
      → Admitted accept peer requested m s ref m' s'
      → IsUndone m ref (leave m' (some ref) peer.peer_id)
  undone requested m m' s s' ref v absent a = elim a.which [
    | inl l ↦
        let k = Entries-lookup (IsRoom m.next_ref) requested a.room m.rooms v.rooms_ok l in
        let here : lookup ref.id m.rooms ≡ some a.room =
          ap (λ i. lookup i m.rooms) (sym a.same_id ∙ k.keyed) ∙ l in
        let filled : (length a.room.peers == 0) ≡ false = ground (arith, k.inhabited) in
        leave_joined m m' a.room peer ref a.same_id a.same_ref (absent a.room l)
          (members-current m ref a.room (current_of m ref a.room here a.same_ref))
          (rw filled (ap (λ i. lookup i m.rooms) k.keyed ∙ l)) a.joins
    | inr (empty, l) ↦
        leave_joined m m' a.room peer ref a.same_id a.same_ref
          (missing peer.peer_id a.room.peers empty)
          (members_missing m ref (ap (λ i. lookup i m.rooms) (sym a.same_id) ∙ l) ∙ sym empty)
          (l
            ∙ sym (
                ap (λ (ps : List (Text × PeerInfo)). if length ps == 0 then none else some a.room)
                  empty))
          a.joins
  ]

  -- In valid rooms, with a new ID that no room has and places for at least one peer: if a peer that
  -- is not in the room asked for is admitted, then its leave by the reference that it was given
  -- returns the peers that were there before, and every ID stands for the room that it stood for
  -- before, or for none.
  pub leave-admit :
      (requested room_id : Text) (now max_peers : ℕ) (m m' : RoomManager) (s s' : S) (ref : RoomRef)
      → IsValid m
      → lookup room_id m.rooms ≡ none
      → 0 < max_peers
      → ((room : Room)
          → lookup requested m.rooms ≡ some room
          → lookup peer.peer_id room.peers ≡ none)
      → admit accept peer requested room_id now max_peers m s ≡ (ok ref, m', s')
      → IsUndone m ref (leave m' (some ref) peer.peer_id)
  leave-admit requested room_id now max_peers m m' s s' ref v fresh pos absent h =
      undone requested m m' s s' ref v absent
        (admit-Admitted accept peer requested room_id now max_peers m m' s s' ref v fresh pos h)
