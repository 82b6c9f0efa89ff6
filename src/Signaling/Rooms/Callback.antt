-- ===== src/Signaling/Rooms/Callback.antt =====
-- internal/signaling/room.go: the state of the admission callback, in an admission.
use termcall.Prelude.{
  ℕ, List, [], inl, inr, Option, none, some, leb, length, Text, text_eq, lookup, Bool-cases,
  Option-cases,
}
use termcall.Protocol.Message.{PeerInfo}
use termcall.Signaling.Rooms.{
  RoomError, Room, RoomManager, Accept, settle, enter, admit, new_id, fresh_room,
  peer_info_snapshot,
}

module _ {S : Type 0} (accept : Accept S) (peer : PeerInfo) (P : S → Type 0)
    (keeps : (id : Text) (ps : List PeerInfo) (s : S) → P s → P (accept id ps s).1) where
  settle-keeps :
      (room : Room) (m : RoomManager) (a : Option RoomError × S)
      → P a.1
      → P (settle accept peer room m a).2
  unfolding settle
  settle-keeps room m (some e, s) h = h
  settle-keeps room m (none, s) h = h

  enter-keeps : (room : Room) (m : RoomManager) (s : S) → P s → P (enter accept peer room m s).2
  unfolding enter
  enter-keeps room m s h = elim (Bool-cases (leb room.max_peers (length room.peers))) [
    | inl full ↦ rw full h
    | inr space ↦
        rw space (settle-keeps room m _ (keeps room.id (peer_info_snapshot room.peers []) s h))
  ]

  pub admit-keeps :
      (requested room_id : Text) (now max_peers : ℕ) (m : RoomManager) (s : S)
      → P s
      → P (admit accept peer requested room_id now max_peers m s).2
  unfolding admit
  admit-keeps requested room_id now max_peers m s h = elim (Bool-cases (text_eq requested new_id)) [
    | inl asks ↦ elim (Bool-cases (leb m.max_rooms (length m.rooms))) [
      | inl busy ↦ rw (asks, busy) h
      | inr space ↦
          rw (asks, space) (enter-keeps (fresh_room accept peer room_id now max_peers m) _ s h)
    ]
    | inr other ↦ elim (Option-cases (lookup requested m.rooms)) [
      | inl l ↦ rw (other, l, admit) h
      | inr (room, l) ↦ rw (other, l, admit) (enter-keeps room m s h)
    ]
  ]
