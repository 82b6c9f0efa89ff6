-- ===== src/Signaling/Rooms/Stale.antt =====
-- A reference to a room that is gone.
use termcall.Prelude.{
  ℕ, ◌<◌, ◌≡◌, refl, ◌≢◌, inl, inr, [], Option, none, some, arith, leb, ◌==◌, if◌then◌else◌, length,
  Text, text_eq, lookup, delete, Bool-cases, Option-cases, Entries, Entries-lookup, Entries-insert,
  Entries-delete, lookup-insert, lookup-delete,
}
use termcall.Protocol.Message.{PeerInfo}
use termcall.Signaling.Rooms.{
  RoomError, Room, RoomRef, RoomManager, Accept, joined, fresh_room, settle, enter, admit, current,
  leave_room, leave, new_id, peer_snapshot,
}
use termcall.Signaling.Rooms.Invariant.{IsValid, current_room}

pub leave_room-lookup :
    (m : RoomManager) (peer_id : Text) (room : Room) (j : Text)
    → lookup j (leave_room m peer_id (some room)).1.rooms ≡ (
        if text_eq room.id j
        then (if length (delete peer_id room.peers) == 0
            then none
            else some (record room { peers = delete peer_id room.peers }))
        else lookup j m.rooms)
unfolding leave_room
leave_room-lookup m peer_id room j = elim (Bool-cases (length (delete peer_id room.peers) == 0)) [
  | inl empty ↦ rw empty (lookup-delete room.id j m.rooms)
  | inr left ↦
      rw left (lookup-insert room.id j (record room { peers = delete peer_id room.peers }) m.rooms)
]

-- A leave by a reference to a room that is there: the peer is out of the room, the room is gone if
-- nobody is left, those who remain are returned, and no other room has changed.
pub leave-current :
    (m : RoomManager) (r : RoomRef) (peer_id : Text) (room : Room)
    → IsValid m
    → current m r ≡ some room
    → ((leave m (some r) peer_id).0 ≡ peer_snapshot (delete peer_id room.peers) [])
      × ((j : Text)
          → lookup j (leave m (some r) peer_id).1.rooms ≡ (
              if text_eq r.id j
              then (if length (delete peer_id room.peers) == 0
                  then none
                  else some (record room { peers = delete peer_id room.peers }))
              else lookup j m.rooms))
unfolding leave
leave-current m r peer_id room v e =
    let (l, er, ei) = current_room m r room v e in
    (rw e (unfold leave_room in refl), λ j. rw (e, ← ei) (leave_room-lookup m peer_id room j))

pub leave_stale_ref :
    (m : RoomManager) (r : RoomRef) (peer_id : Text)
    → current m r ≡ none
    → leave m (some r) peer_id ≡ ([], m)
unfolding leave leave_room
leave_stale_ref m r peer_id e = rw (e, leave_room) refl

-- No room in the map has this number.
abbrev pub IsGone : ℕ → RoomManager → Type 0
IsGone ref m = (ref < m.next_ref) × Entries (λ j (room : Room). room.ref ≢ ref) m.rooms

-- A late `Leave` on such a room does nothing and returns nobody: it cannot harm a room that was made
-- since under the same ID.
leave_gone :
    (m : RoomManager) (r : RoomRef) (peer_id : Text)
    → IsGone r.ref m
    → leave m (some r) peer_id ≡ ([], m)
unfolding leave current leave_room
leave_gone m r peer_id g = elim (Option-cases (lookup r.id m.rooms)) [
  | inl l ↦ rw (l, current, leave_room)
  | inr (room, l) ↦
      let ne = Entries-lookup (λ j (room : Room). room.ref ≢ r.ref) r.id room m.rooms g.1 l in
      rw (l, current) (ground arith)
]

module _ {S : Type 0} (accept : Accept S) (peer : PeerInfo) where
  settle-IsGone :
      (ref : ℕ) (room : Room) (m : RoomManager) (answer : Option RoomError × S)
      → room.ref ≢ ref
      → IsGone ref m
      → IsGone ref (settle accept peer room m answer).1
  unfolding settle
  settle-IsGone ref room m (some e, s) ne g = elim (Bool-cases (length room.peers == 0)) [
    | inl empty ↦ rw empty (g.0, Entries-delete _ room.id m.rooms g.1)
    | inr filled ↦ rw filled g
  ]
  settle-IsGone ref room m (none, s) ne g =
      (g.0, Entries-insert _ room.id (joined room peer) m.rooms ne g.1)

  enter-IsGone :
      (ref : ℕ) (room : Room) (m : RoomManager) (s : S)
      → room.ref ≢ ref
      → IsGone ref m
      → IsGone ref (enter accept peer room m s).1
  unfolding enter
  enter-IsGone ref room m s ne g = elim (Bool-cases (leb room.max_peers (length room.peers))) [
    | inl full ↦ rw full g
    | inr sp ↦ rw sp (settle-IsGone ref room m _ ne g)
  ]

  -- Once gone, a room stays gone: no admission brings its number back.
  pub admit-IsGone :
      (ref : ℕ) (requested room_id : Text) (now max_peers : ℕ) (m : RoomManager) (s : S)
      → IsGone ref m
      → IsGone ref (admit accept peer requested room_id now max_peers m s).1
  unfolding admit
  admit-IsGone ref requested room_id now max_peers m s g =
      elim (Bool-cases (text_eq requested new_id)) [
        | inl asks ↦ elim (Bool-cases (leb m.max_rooms (length m.rooms))) [
          | inl busy ↦ rw (asks, busy) g
          | inr space ↦
              rw (asks, space)
                (enter-IsGone ref (fresh_room accept peer room_id now max_peers m) _ s
                  (omega (arith, g.0))
                  (
                    omega (arith, g.0),
                    Entries-insert _ room_id (fresh_room accept peer room_id now max_peers m)
                        m.rooms (omega (arith, g.0)) g.1,
                  ))
        ]
        | inr other ↦ elim (Option-cases (lookup requested m.rooms)) [
          | inl l ↦ rw (other, l, admit) g
          | inr (room, l) ↦
              rw (other, l, admit)
                (enter-IsGone ref room m s (Entries-lookup _ requested room m.rooms g.1 l) g)
        ]
      ]
