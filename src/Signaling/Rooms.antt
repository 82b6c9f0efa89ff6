-- ===== src/Signaling/Rooms.antt =====
-- internal/signaling/room.go: `RoomManager`.
--
-- Every method holds the manager's lock, so it is one step. A `*Room` is the room's ID with a number
-- that no other room has: `current != room` compares the numbers. A room's peers change only through
-- the manager, while the room is in its map. Of a `*Peer` a room reads the ID and the username, which
-- stay as they are while the peer is in the room.
pub mod Invariant
pub mod Laws
pub mod Stale
pub mod Return
pub mod Callback
mod Tests
use termcall.Prelude.{
  ℕ, ◌+◌, ◌≡◌, Bool, true, false, not, ◌&&◌, List, [], ◌∷◌, Option, none, some, leb, ◌==◌,
  if◌then◌else◌, Result, ok, err, length, Text, text_eq, lookup, insert, delete,
}
use termcall.Text.{codes}
use termcall.Protocol.Message.{PeerInfo}

-- `payload_failed` stands for an error of `MarshalPayload` in the admission callback.
pub data RoomError : Type 0 where
  room_full peer_not_found signaling_slow room_limit room_not_found payload_failed : RoomError

pub record Room : Type 0 where
  pub ref : ℕ
  pub id : Text
  pub created_at : ℕ
  pub max_peers : ℕ
  pub peers : List (Text × PeerInfo)

pub record RoomRef : Type 0 where
  pub ref : ℕ
  pub id : Text

pub record RoomManager : Type 0 where
  pub rooms : List (Text × Room)
  pub max_rooms : ℕ
  pub next_ref : ℕ

unfoldable pub new_room_manager : ℕ → RoomManager
new_room_manager max_rooms = record { rooms = []; max_rooms = max_rooms; next_ref = 0 }

-- `peerInfoSnapshot`, and `peerSnapshot` as the IDs of the peers.
unfoldable pub peer_info_snapshot : List (Text × PeerInfo) → Text → List PeerInfo
peer_info_snapshot [] exclude = []
peer_info_snapshot ((id, p) ∷ m) exclude =
    let rest = peer_info_snapshot m exclude in if text_eq id exclude then rest else p ∷ rest

unfoldable pub peer_snapshot : List (Text × PeerInfo) → Text → List Text
peer_snapshot [] exclude = []
peer_snapshot ((id, p) ∷ m) exclude =
    let rest = peer_snapshot m exclude in if text_eq id exclude then rest else id ∷ rest

abbrev pub new_id : Text
new_id = codes "new"

-- The admission callback: an error or none, and what it does to the state `S`.
abbrev pub Accept : Type 0 → Type 0
Accept S = Text → List PeerInfo → S → Option RoomError × S

abbrev pub Admission : Type 0 → Type 0
Admission S = Result RoomError RoomRef × RoomManager × S

abbrev pub joined : Room → PeerInfo → Room
joined room peer = record room { peers = insert peer.peer_id peer room.peers }

module _ {S : Type 0} (accept : Accept S) (peer : PeerInfo) where
  -- What follows the callback's answer.
  unfoldable pub settle : Room → RoomManager → Option RoomError × S → Admission S
  settle room m (some e, s) = (
    err e,
    (if length room.peers == 0 then record m { rooms = delete room.id m.rooms } else m),
    s,
  )
  settle room m (none, s) = (
    ok (record { ref = room.ref; id = room.id }),
    record m { rooms = insert room.id (joined room peer) m.rooms },
    s,
  )

  unfoldable pub enter : Room → RoomManager → S → Admission S
  unfolding settle
  enter room m s =
      if leb room.max_peers (length room.peers)
      then (err room_full, m, s)
      else settle room m (accept room.id (peer_info_snapshot room.peers []) s)

  -- `room_id` is what `uuid.NewString` gives, and `now` what the clock shows.
  abbrev pub fresh_room : Text → ℕ → ℕ → RoomManager → Room
  fresh_room room_id now max_peers m = record {
    ref = m.next_ref;
    id = room_id;
    created_at = now;
    max_peers = max_peers;
    peers = [];
  }

  unfoldable pub admit : Text → Text → ℕ → ℕ → RoomManager → S → Admission S
  unfolding enter
  admit requested room_id now max_peers m s =
      if text_eq requested new_id
      then (if leb m.max_rooms (length m.rooms)
          then (err room_limit, m, s)
          else enter (fresh_room room_id now max_peers m)
              (record m {
                rooms = insert room_id (fresh_room room_id now max_peers m) m.rooms;
                next_ref = m.next_ref + 1;
              })
              s)
      else elim (lookup requested m.rooms) [
        | none ↦ (err room_not_found, m, s)
        | some room ↦ enter room m s
      ]

-- `Join`: the callback keeps the peers that it is shown.
unfoldable pub join : Text → Text → ℕ → ℕ → PeerInfo → RoomManager → Admission (List PeerInfo)
unfolding admit
join requested room_id now max_peers peer m =
    admit (λ _ existing _. (none, existing)) peer requested room_id now max_peers m []

-- The room behind a reference, if it is still the manager's room of that ID.
unfoldable pub current : RoomManager → RoomRef → Option Room
current m r = elim (lookup r.id m.rooms) [
  | none ↦ none
  | some room ↦ if room.ref == r.ref then some room else none
]

pub leave_room : RoomManager → Text → Option Room → List Text × RoomManager
leave_room m peer_id none = ([], m)
leave_room m peer_id (some room) =
    let peers = delete peer_id room.peers in
    (
      peer_snapshot peers [],
      record m {
        rooms =
            if length peers == 0
            then delete room.id m.rooms
            else insert room.id (record room { peers = peers }) m.rooms;
      },
    )

-- The peers that remain are returned.
unfoldable pub leave : RoomManager → Option RoomRef → Text → List Text × RoomManager
unfolding leave_room
leave m none peer_id = ([], m)
leave m (some r) peer_id = leave_room m peer_id (current m r)

members_of : Option Room → List (Text × PeerInfo)
members_of none = []
members_of (some room) = room.peers

unfoldable pub members : RoomManager → RoomRef → List (Text × PeerInfo)
unfolding members_of
members m r = members_of (current m r)

unfoldable pub room_peers : RoomManager → RoomRef → Text → List Text
room_peers m r exclude = peer_snapshot (members m r) exclude

unfoldable pub peers : RoomManager → RoomRef → List PeerInfo
peers m r = peer_info_snapshot (members m r) []

unfoldable pub room_count : RoomManager → ℕ
room_count m = length m.rooms

-- The lookups of `Route`: the target, if it is in the current room.
unfoldable pub route_target : RoomManager → RoomRef → Text → Option PeerInfo
route_target m r target = lookup target (members m r)
