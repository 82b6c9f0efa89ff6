-- ===== src/Signaling/Server/Reachable.antt =====
-- The states that the server can reach: handlers start, take a message each, and return.
use termcall.Prelude.{
  ◌≡◌, refl, ap, ◌∙◌, inl, inr, none, some, if◌then◌else◌, Text, text_eq, Option-cases,
}
use termcall.Protocol.Message.{SignalingMessage, new_message, msg_peer_left}
use termcall.Signaling.Rooms.{RoomRef, RoomManager, leave, room_peers, route_target}
use termcall.Signaling.Rooms.Invariant.{IsValid, leave-IsValid}
use termcall.Signaling.Server.{Sessions, State, broadcast, route, leave_room, current_room, room_of}
use termcall.Signaling.Server.Seats.{seat, SameSeats, enqueue-SameSeats, enqueue_all-SameSeats}
use termcall.Signaling.Server.Membership.{Seated, Seated-same, Seated-rooms, Seated-leave}

-- The rooms are valid, and who is in one has a session that knows it.
pub record IsServed (s : State) : Type 0 where
  pub valid : IsValid s.manager
  pub seated : Seated s.manager.rooms s.sessions

-- Only queues and names have changed.
pub record Quiet (s t : State) : Type 0 where
  pub manager_same : t.manager ≡ s.manager
  pub seats_same : SameSeats s.sessions t.sessions

pub Quiet-IsServed : (s t : State) → Quiet s t → IsServed s → IsServed t
Quiet-IsServed s t q h = record {
  valid = rw (q.manager_same) h.valid;
  seated =
      Seated-rooms s.manager.rooms t.manager.rooms t.sessions
        (ap (λ (m : RoomManager). m.rooms) q.manager_same)
        (Seated-same s.manager.rooms s.sessions t.sessions q.seats_same h.seated);
}

pub broadcast-Quiet :
    (room : RoomRef) (message : SignalingMessage) (exclude : Text) (s : State)
    → Quiet s (broadcast room message exclude s)
unfolding broadcast
broadcast-Quiet room message exclude s = record {
  manager_same = refl;
  seats_same = enqueue_all-SameSeats message (room_peers s.manager room exclude) s.sessions;
}

pub route-Quiet :
    (room : RoomRef) (target : Text) (message : SignalingMessage) (s : State)
    → Quiet s (route room target message s).1
unfolding route
route-Quiet room target message s = elim (Option-cases (route_target s.manager room target)) [
  | inl e ↦ rw (e, route) (record { manager_same = refl; seats_same = λ j. refl })
  | inr (p, e) ↦
      rw (e, route)
        (record {
          manager_same = refl;
          seats_same = enqueue-SameSeats message p.peer_id s.sessions;
        })
]

pub Quiet-trans : (s t w : State) → Quiet s t → Quiet t w → Quiet s w
Quiet-trans s t w a b = record {
  manager_same = b.manager_same ∙ a.manager_same;
  seats_same = λ j. b.seats_same j ∙ a.seats_same j;
}

pub leave_room-IsServed :
    (room : RoomRef) (id : Text) (s : State) (b : Sessions)
    → IsServed s
    → current_room id s ≡ some room
    → ((k : Text)
        → seat k b ≡ (if text_eq id k then none else seat k (leave_room room id s).sessions))
    → IsServed (record { manager = (leave_room room id s).manager; sessions = b })
unfolding leave_room current_room room_of seat
leave_room-IsServed room id s b h here sb = record {
  valid = leave-IsValid s.manager (some room) id h.valid;
  seated = Seated-leave s.manager h.valid room id s.sessions b h.seated here seats;
}
  where
    seats : (k : Text) → seat k b ≡ (if text_eq id k then none else seat k s.sessions)
    seats k =
        sb k
        ∙ ap (λ x. if text_eq id k then none else x)
            (enqueue_all-SameSeats (record (new_message msg_peer_left) { peer_id = id })
              (leave s.manager (some room) id).0 s.sessions k)
