-- ===== src/Signaling/Rooms/Laws.antt =====
-- What an admission and a leave do to every room.
use termcall.Prelude.{
  ℕ, ◌+◌, ◌<◌, ◌≡◌, refl, sym, ap, ◌∙◌, ◌⊎◌, inl, inr, List, [], Option, none, some, arith, leb,
  if◌then◌else◌, ok, err, length, Text, text_eq, lookup, insert, Bool-cases, Option-cases,
  Entries-lookup, lookup-insert, delete-insert_new, insert-insert,
}
use termcall.Protocol.Message.{PeerInfo}
use termcall.Signaling.Rooms.{
  RoomError, Room, RoomRef, RoomManager, Accept, joined, fresh_room, settle, enter, admit, new_id,
  peer_info_snapshot,
}
use termcall.Signaling.Rooms.Invariant.{IsValid, IsRoom, admit_missing, admit_old, zero_full}

-- A room as it was, and the rooms after `peer` has joined it.
abbrev pub Joins : RoomManager → PeerInfo → Room → RoomManager → Type 0
Joins m peer room m' =
    (j : Text)
    → lookup j m'.rooms ≡ (if text_eq room.id j then some (joined room peer) else lookup j m.rooms)

module _ {S : Type 0} (accept : Accept S) (peer : PeerInfo) where
  -- What the callback is asked, about whom, and what follows.
  pub record Admitted (requested : Text) (m : RoomManager) (s : S) (ref : RoomRef)
      (m' : RoomManager) (s' : S) : Type 0 where
    pub room : Room
    pub same_id : room.id ≡ ref.id
    pub same_ref : room.ref ≡ ref.ref
    pub space : length room.peers < room.max_peers
    pub asked : accept room.id (peer_info_snapshot room.peers []) s ≡ (none, s')
    pub joins : Joins m peer room m'
    pub which :
        (lookup requested m.rooms ≡ some room)
        ⊎ ((room.peers ≡ []) × (lookup room.id m.rooms ≡ none))

  settle_old-ok :
      (requested : Text) (room : Room) (m m' : RoomManager) (s s' : S)
      (answer : Option RoomError × S) (ref : RoomRef)
      → lookup requested m.rooms ≡ some room
      → length room.peers < room.max_peers
      → accept room.id (peer_info_snapshot room.peers []) s ≡ answer
      → settle accept peer room m answer ≡ (ok ref, m', s')
      → Admitted requested m s ref m' s'
  unfolding settle
  settle_old-ok requested room m m' s s' (some e, t) ref l sp asked h = absurd (cc)
  settle_old-ok requested room m m' s s' (none, t) ref l sp asked h = record {
    room = room;
    same_id = ground arith;
    same_ref = ground arith;
    space = sp;
    asked = ground arith;
    joins = λ j. ground (arith, lookup-insert room.id j (joined room peer) m.rooms);
    which = inl l;
  }

  settle_new-ok :
      (requested : Text) (room : Room) (m m' : RoomManager) (s s' : S)
      (answer : Option RoomError × S) (ref : RoomRef)
      → lookup room.id m.rooms ≡ none
      → room.peers ≡ []
      → 0 < room.max_peers
      → accept room.id (peer_info_snapshot room.peers []) s ≡ answer
      → settle accept peer room
          (record m { rooms = insert room.id room m.rooms; next_ref = m.next_ref + 1 })
          answer
        ≡ (ok ref, m', s')
      → Admitted requested m s ref m' s'
  unfolding settle
  settle_new-ok requested room m m' s s' (some e, t) ref l ep sp asked h = absurd (cc)
  settle_new-ok requested room m m' s s' (none, t) ref l ep sp asked h = record {
    room = room;
    same_id = ground arith;
    same_ref = ground arith;
    space = ground (arith, ap (λ (ps : List (Text × PeerInfo)). length ps) ep);
    asked = ground arith;
    joins = λ j. ground (
      arith,
      insert-insert room.id (joined room peer) room m.rooms,
      lookup-insert room.id j (joined room peer) m.rooms,
    );
    which = inr (ep, l);
  }

  enter-ok :
      (requested : Text) (room : Room) (m m' : RoomManager) (s s' : S) (ref : RoomRef)
      → lookup requested m.rooms ≡ some room
      → enter accept peer room m s ≡ (ok ref, m', s')
      → Admitted requested m s ref m' s'
  unfolding enter
  enter-ok requested room m m' s s' ref l h =
      elim (Bool-cases (leb room.max_peers (length room.peers))) [
        | inl full ↦ absurd (ground arith)
        | inr sp ↦ settle_old-ok requested room m m' s s' _ ref l (ground arith) refl (rw sp at h)
      ]

  -- An admission that succeeds: the room was there under the ID asked for, or is a new and empty one;
  -- it had space; the callback was shown exactly the peers that were there, and agreed; the peer is
  -- in that room now, and no other room has changed.
  pub admit-Admitted :
      (requested room_id : Text) (now max_peers : ℕ) (m m' : RoomManager) (s s' : S) (ref : RoomRef)
      → IsValid m
      → lookup room_id m.rooms ≡ none
      → 0 < max_peers
      → admit accept peer requested room_id now max_peers m s ≡ (ok ref, m', s')
      → Admitted requested m s ref m' s'
  unfolding admit enter
  admit-Admitted requested room_id now max_peers m m' s s' ref v fresh pos h =
      elim (Bool-cases (text_eq requested new_id)) [
        | inl asks ↦ elim (Bool-cases (leb m.max_rooms (length m.rooms))) [
          | inl busy ↦ absurd (ground arith)
          | inr space ↦
              settle_new-ok requested (fresh_room accept peer room_id now max_peers m) m m' s s' _
                ref fresh refl pos refl (rw (asks, space, zero_full max_peers pos) at h)
        ]
        | inr other ↦ elim (Option-cases (lookup requested m.rooms)) [
          | inl l ↦ absurd (
              ground (arith, admit_missing accept peer requested room_id now max_peers m s other l))
          | inr (room, l) ↦
              enter-ok requested room m m' s s' ref l
                (sym (admit_old accept peer requested room_id now max_peers m s room other l) ∙ h)
        ]
      ]

  settle_old-err :
      (room : Room) (m m' : RoomManager) (s' : S) (answer : Option RoomError × S) (e : RoomError)
      → 0 < length room.peers
      → settle accept peer room m answer ≡ (err e, m', s')
      → m'.rooms ≡ m.rooms
  unfolding settle
  settle_old-err room m m' s' (some _, t) e filled h = ground arith
  settle_old-err room m m' s' (none, t) e filled h = absurd (cc)

  settle_new-err :
      (room : Room) (m m' : RoomManager) (s' : S) (answer : Option RoomError × S) (e : RoomError)
      → lookup room.id m.rooms ≡ none
      → room.peers ≡ []
      → settle accept peer room
          (record m { rooms = insert room.id room m.rooms; next_ref = m.next_ref + 1 })
          answer
        ≡ (err e, m', s')
      → m'.rooms ≡ m.rooms
  unfolding settle
  settle_new-err room m m' s' (some _, t) e l ep h = ground (
    arith,
    delete-insert_new room.id room m.rooms l,
    ap (λ (ps : List (Text × PeerInfo)). length ps) ep,
  )
  settle_new-err room m m' s' (none, t) e l ep h = absurd (cc)

  enter-err :
      (room : Room) (m m' : RoomManager) (s s' : S) (e : RoomError)
      → 0 < length room.peers
      → enter accept peer room m s ≡ (err e, m', s')
      → m'.rooms ≡ m.rooms
  unfolding enter
  enter-err room m m' s s' e filled h = elim (Bool-cases (leb room.max_peers (length room.peers))) [
    | inl full ↦ ground arith
    | inr sp ↦ settle_old-err room m m' s' _ e filled (rw sp at h)
  ]

  -- An admission that fails, for whatever reason, leaves the rooms as they were: also the room that
  -- it had made for the newcomer is gone again.
  pub admit-err :
      (requested room_id : Text) (now max_peers : ℕ) (m m' : RoomManager) (s s' : S) (e : RoomError)
      → IsValid m
      → lookup room_id m.rooms ≡ none
      → 0 < max_peers
      → admit accept peer requested room_id now max_peers m s ≡ (err e, m', s')
      → m'.rooms ≡ m.rooms
  unfolding admit enter
  admit-err requested room_id now max_peers m m' s s' e v fresh pos h =
      elim (Bool-cases (text_eq requested new_id)) [
        | inl asks ↦ elim (Bool-cases (leb m.max_rooms (length m.rooms))) [
          | inl busy ↦ ground arith
          | inr space ↦
              settle_new-err (fresh_room accept peer room_id now max_peers m) m m' s' _ e fresh refl
                (rw (asks, space, zero_full max_peers pos) at h)
        ]
        | inr other ↦ elim (Option-cases (lookup requested m.rooms)) [
          | inl l ↦
              ground (arith, admit_missing accept peer requested room_id now max_peers m s other l)
          | inr (room, l) ↦
              enter-err room m m' s s' e
                (Entries-lookup (IsRoom m.next_ref) requested room m.rooms v.rooms_ok l).inhabited
                (sym (admit_old accept peer requested room_id now max_peers m s room other l) ∙ h)
        ]
      ]
