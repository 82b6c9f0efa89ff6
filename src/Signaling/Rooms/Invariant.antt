-- ===== src/Signaling/Rooms/Invariant.antt =====
-- internal/signaling/room.go: the invariant of the rooms, under every operation.
use termcall.Prelude.{
  ℕ, ◌+◌, ◌≤◌, ◌<◌, ◌≡◌, refl, ap, ◌∙◌, inl, inr, true, false, List, [], ◌∷◌, Option, none, some,
  arith, leb, ◌==◌, err, length, Text, text_eq, lookup, insert, delete, Keyed, Entries, Bool-cases,
  Option-cases, insert-Keyed, delete-Keyed, Entries-insert, Entries-delete, Entries-lookup,
  length-insert_new, length-insert_old, length-delete-le, delete-insert_new, insert-insert,
}
use termcall.Protocol.Message.{PeerInfo}
use termcall.Signaling.Rooms.{
  RoomError, room_not_found, Room, RoomRef, RoomManager, Accept, joined, settle, enter, admit,
  current, leave_room, leave, new_id,
}

abbrev pub Named : Text → PeerInfo → Type 0
Named id p = p.peer_id ≡ id

pub record IsRoom (next : ℕ) (key : Text) (r : Room) : Type 0 where
  pub keyed : r.id ≡ key
  pub older : r.ref < next
  pub inhabited : 0 < length r.peers
  pub within : length r.peers ≤ r.max_peers
  pub once : Keyed r.peers
  pub named : Entries Named r.peers

pub record IsValid (m : RoomManager) : Type 0 where
  pub distinct : Keyed m.rooms
  pub bounded : length m.rooms ≤ m.max_rooms
  pub rooms_ok : Entries (IsRoom m.next_ref) m.rooms

length-insert-le :
    (k : Text) (p : PeerInfo) (m : List (Text × PeerInfo))
    → (0 < length (insert k p m)) × (length (insert k p m) ≤ length m + 1)
unfolding insert
length-insert-le k p [] = omega arith
length-insert-le k p ((j, w) ∷ m) = ground (arith, length-insert-le k p m)

joined-IsRoom :
    (next : ℕ) (r : Room) (p : PeerInfo)
    → r.ref < next
    → Keyed r.peers
    → Entries Named r.peers
    → length r.peers < r.max_peers
    → IsRoom next r.id (joined r p)
joined-IsRoom next r p lt k n room = record {
  keyed = refl;
  older = lt;
  inhabited = (length-insert-le p.peer_id p r.peers).0;
  within = omega (arith, (length-insert-le p.peer_id p r.peers).1);
  once = insert-Keyed p.peer_id p r.peers k;
  named = Entries-insert Named p.peer_id p r.peers refl n;
}

-- An old room: it is in the map, under its ID.
module _ {S : Type 0} (accept : Accept S) (peer : PeerInfo) where
  settle_old-IsValid :
      (room : Room) (m : RoomManager) (answer : Option RoomError × S)
      → IsValid m
      → lookup room.id m.rooms ≡ some room
      → length room.peers < room.max_peers
      → IsValid (settle accept peer room m answer).1
  unfolding settle
  settle_old-IsValid room m (some e, s) v l h =
      let r = Entries-lookup (IsRoom m.next_ref) room.id room m.rooms v.rooms_ok l in
      let filled : (length room.peers == 0) ≡ false = ground (arith, r.inhabited) in rw filled v
  settle_old-IsValid room m (none, s) v l h =
      let r = Entries-lookup (IsRoom m.next_ref) room.id room m.rooms v.rooms_ok l in
      record {
        distinct = insert-Keyed room.id (joined room peer) m.rooms v.distinct;
        bounded = rw (length-insert_old room.id (joined room peer) room m.rooms l) v.bounded;
        rooms_ok =
            Entries-insert (IsRoom m.next_ref) room.id (joined room peer) m.rooms
              (joined-IsRoom m.next_ref room peer r.older r.once r.named h) v.rooms_ok;
      }

Entries-mono :
    (a b : ℕ) (m : List (Text × Room)) → a ≤ b → Entries (IsRoom a) m → Entries (IsRoom b) m
Entries-mono a b [] h e = tt
Entries-mono a b ((k, r) ∷ m) h e = (
  record {
    keyed = e.0.keyed;
    older = omega (arith, e.0.older);
    inhabited = e.0.inhabited;
    within = e.0.within;
    once = e.0.once;
    named = e.0.named;
  },
  Entries-mono a b m h e.1,
)

pub zero_full : (n : ℕ) → 0 < n → leb n 0 ≡ false
zero_full n h = ground arith

module _ {S : Type 0} (accept : Accept S) (peer : PeerInfo) where
  -- A new room, in the map `m'` that has just got it.
  settle_new-IsValid :
      (room : Room) (m : RoomManager) (answer : Option RoomError × S)
      → IsValid m
      → lookup room.id m.rooms ≡ none
      → room.ref ≡ m.next_ref
      → room.peers ≡ []
      → 0 < room.max_peers
      → length m.rooms < m.max_rooms
      → IsValid
          (settle accept peer room
            (record m { rooms = insert room.id room m.rooms; next_ref = m.next_ref + 1 })
            answer).1
  unfolding settle
  settle_new-IsValid room m (some e, s) v l er ep h space =
      let empty : (length room.peers == 0) ≡ true = ground (arith, ep) in
      rw (empty, delete-insert_new room.id room m.rooms l)
        (record {
          distinct = v.distinct;
          bounded = v.bounded;
          rooms_ok = Entries-mono m.next_ref (m.next_ref + 1) m.rooms (omega arith) v.rooms_ok;
        })
  settle_new-IsValid room m (none, s) v l er ep h space =
      rw (insert-insert room.id (joined room peer) room m.rooms) (record {
        distinct = insert-Keyed room.id (joined room peer) m.rooms v.distinct;
        bounded = omega (arith, length-insert_new room.id (joined room peer) m.rooms l);
        rooms_ok =
            Entries-insert (IsRoom (m.next_ref + 1)) room.id (joined room peer) m.rooms
              (joined-IsRoom (m.next_ref + 1) room peer (omega arith) (rw ep tt) (rw ep tt)
                (rw ep h))
              (Entries-mono m.next_ref (m.next_ref + 1) m.rooms (omega arith) v.rooms_ok);
      })

  enter_old-IsValid :
      (room : Room) (m : RoomManager) (s : S)
      → IsValid m
      → lookup room.id m.rooms ≡ some room
      → IsValid (enter accept peer room m s).1
  unfolding enter
  enter_old-IsValid room m s v l = elim (Bool-cases (leb room.max_peers (length room.peers))) [
    | inl full ↦ rw full v
    | inr space ↦ rw space (settle_old-IsValid accept peer room m _ v l (ground arith))
  ]

  pub admit_missing :
      (requested room_id : Text) (now max_peers : ℕ) (m : RoomManager) (s : S)
      → text_eq requested new_id ≡ false
      → lookup requested m.rooms ≡ none
      → admit accept peer requested room_id now max_peers m s ≡ (err room_not_found, m, s)
  unfolding admit
  admit_missing requested room_id now max_peers m s e l = rw (e, l, admit)

  pub admit_old :
      (requested room_id : Text) (now max_peers : ℕ) (m : RoomManager) (s : S) (room : Room)
      → text_eq requested new_id ≡ false
      → lookup requested m.rooms ≡ some room
      → admit accept peer requested room_id now max_peers m s ≡ enter accept peer room m s
  unfolding admit
  admit_old requested room_id now max_peers m s room e l = rw (e, l, admit)

  pub old_key :
      (requested : Text) (m : RoomManager) (room : Room)
      → IsValid m
      → lookup requested m.rooms ≡ some room
      → lookup room.id m.rooms ≡ some room
  old_key requested m room v l =
      ap (λ k. lookup k m.rooms)
        (Entries-lookup (IsRoom m.next_ref) requested room m.rooms v.rooms_ok l).keyed
      ∙ l

  -- Whatever the callback answers, an admission keeps the rooms valid. The ID of a new room is not in
  -- use, and a room may hold someone.
  pub admit-IsValid :
      (requested room_id : Text) (now max_peers : ℕ) (m : RoomManager) (s : S)
      → lookup room_id m.rooms ≡ none
      → 0 < max_peers
      → IsValid m
      → IsValid (admit accept peer requested room_id now max_peers m s).1
  unfolding admit enter
  admit-IsValid requested room_id now max_peers m s fresh pos v =
      elim (Bool-cases (text_eq requested new_id)) [
        | inl asks ↦ elim (Bool-cases (leb m.max_rooms (length m.rooms))) [
          | inl busy ↦ rw (asks, busy) v
          | inr space ↦
              rw (asks, space)
                (rw (zero_full max_peers pos)
                  (settle_new-IsValid _ m _ v fresh refl refl pos (ground arith)))
        ]
        | inr other ↦ elim (Option-cases (lookup requested m.rooms)) [
          | inl l ↦ rw (admit_missing requested room_id now max_peers m s other l) v
          | inr (room, l) ↦
              rw (admit_old requested room_id now max_peers m s room other l)
                (enter_old-IsValid room m s v (old_key requested m room v l))
        ]
      ]

pub current_room :
    (m : RoomManager) (r : RoomRef) (room : Room)
    → IsValid m
    → current m r ≡ some room
    → (lookup r.id m.rooms ≡ some room) × (room.ref ≡ r.ref) × (room.id ≡ r.id)
unfolding current
current_room m r room v e = elim (Option-cases (lookup r.id m.rooms)) [
  | inl l ↦ absurd (ground arith)
  | inr (found, l) ↦
      let k = Entries-lookup (IsRoom m.next_ref) r.id found m.rooms v.rooms_ok l in
      ground (arith, k.keyed)
]

leave_room-IsValid :
    (m : RoomManager) (peer_id : Text) (room : Room)
    → IsValid m
    → lookup room.id m.rooms ≡ some room
    → IsValid (leave_room m peer_id (some room)).1
unfolding leave_room
leave_room-IsValid m peer_id room v l =
    let r = Entries-lookup (IsRoom m.next_ref) room.id room m.rooms v.rooms_ok l in
    let room' : Room = record room { peers = delete peer_id room.peers } in
    elim (Bool-cases (length (delete peer_id room.peers) == 0)) [
      | inl empty ↦ rw empty (record {
        distinct = delete-Keyed room.id m.rooms v.distinct;
        bounded = omega (arith, length-delete-le room.id m.rooms, v.bounded);
        rooms_ok = Entries-delete (IsRoom m.next_ref) room.id m.rooms v.rooms_ok;
      })
      | inr some_left ↦ rw some_left (record {
        distinct = insert-Keyed room.id room' m.rooms v.distinct;
        bounded = rw (length-insert_old room.id room' room m.rooms l) v.bounded;
        rooms_ok =
            Entries-insert (IsRoom m.next_ref) room.id room' m.rooms
              (record {
                keyed = refl;
                older = r.older;
                inhabited = ground arith;
                within = omega (arith, length-delete-le peer_id room.peers, r.within);
                once = delete-Keyed peer_id room.peers r.once;
                named = Entries-delete Named peer_id room.peers r.named;
              })
              v.rooms_ok;
      })
    ]

-- A leave keeps the rooms valid: a room that becomes empty goes, and a stale reference does nothing.
pub leave-IsValid :
    (m : RoomManager) (r : Option RoomRef) (peer_id : Text)
    → IsValid m
    → IsValid (leave m r peer_id).1
unfolding leave
leave-IsValid m none peer_id v = v
leave-IsValid m (some r) peer_id v = elim (Option-cases (current m r)) [
  | inl e ↦ rw (e, leave_room) v
  | inr (room, e) ↦
      let (l, er, ei) = current_room m r room v e in
      rw e (leave_room-IsValid m peer_id room v (ap (λ k. lookup k m.rooms) ei ∙ l))
]
