-- ===== src/Signaling/Server/Served.antt =====
-- internal/signaling/handler.go: the handler on the rooms and the sessions together.
use termcall.Prelude.{
  ℕ, ◌<◌, ◌≡◌, refl, ap, ◌∙◌, ◌⊎◌, inl, inr, Bool, true, false, List, [], Option, none, some,
  if◌then◌else◌, Result, ok, err, Result-cases, Text, text_eq, text_eq_refl, lookup, Bool-cases,
  Option-cases,
}
use termcall.Protocol.Message.{SignalingMessage, PeerInfo, msg_join_room, msg_leave_room}
use termcall.Protocol.Validate.{
  Runes, Json, ProtocolError, normalize_username, is_signal, validate_client_message,
}
use termcall.Protocol.Validate.Messages.{relay}
use termcall.Protocol.Envelope.{IceServer, decode_message}
use termcall.Signaling.Rooms.{
  RoomRef, RoomError, room_full, room_limit, room_not_found, peer_not_found, signaling_slow,
  payload_failed, Admission, admit,
}
use termcall.Signaling.Rooms.Invariant.{admit-IsValid}
use termcall.Signaling.Rooms.Laws.{Admitted, admit-Admitted, admit-err}
use termcall.Signaling.Rooms.Callback.{admit-keeps}
use termcall.Signaling.Server.{
  Session, Sessions, State, Services, Received, closed, binary, text, update, cancel, rename,
  outside, route, leave_room, current_room, room_of, error_message, send_error, accept_message,
  accept, refuse, admitted, join_room, handle_join, routed, handle_signal, handle_leave, dispatch,
  checked, decoded, handle,
}
use termcall.Signaling.Server.Seats.{
  seat, SameSeats, IsHere, enqueue-SameSeats, update-SameSeats, seat-update, enqueue-IsHere,
  enqueue_all-IsHere, update-IsHere,
}
use termcall.Signaling.Server.Membership.{ref_of, Seated-same, Seated-rooms, Seated-Joins}
use termcall.Signaling.Server.Reachable.{
  IsServed, Quiet, Quiet-IsServed, Quiet-trans, broadcast-Quiet, route-Quiet, leave_room-IsServed,
}

module _ (u : Runes) (json : Json) (services : Services) (max_room_size : ℕ) where
  send_error-Quiet :
      (id code message : Text) (s : State)
      → Quiet s (send_error u json services max_room_size id code message s)
  unfolding send_error
  send_error-Quiet id code message s =
      elim (Option-cases (error_message u json services max_room_size code message)) [
        | inl e ↦
            rw (e, send_error)
              (record {
                manager_same = refl;
                seats_same = update-SameSeats id cancel s.sessions (λ p. refl);
              })
        | inr (response, e) ↦
            rw (e, send_error)
              (record {
                manager_same = refl;
                seats_same = enqueue-SameSeats response id s.sessions;
              })
      ]

  refuse-Quiet :
      (id : Text) (e : RoomError) (s : State)
      → Quiet s (refuse u json services max_room_size id e s)
  unfolding refuse
  refuse-Quiet id room_full s = send_error-Quiet id _ _ s
  refuse-Quiet id room_limit s = send_error-Quiet id _ _ s
  refuse-Quiet id room_not_found s = send_error-Quiet id _ _ s
  refuse-Quiet id peer_not_found s = send_error-Quiet id _ _ s
  refuse-Quiet id signaling_slow s = send_error-Quiet id _ _ s
  refuse-Quiet id payload_failed s = send_error-Quiet id _ _ s

  -- The sessions as they were, but for queues, and the newcomer's among them.
  Kept : Text → Sessions → Sessions → Type 0
  Kept id a b = SameSeats a b × IsHere id b

  accept-Kept :
      (id : Text) (server : IceServer) (a : Sessions) (room_id : Text) (ps : List PeerInfo)
      (b : Sessions)
      → Kept id a b
      → Kept id a (accept u json services max_room_size id server room_id ps b).1
  unfolding Kept accept
  accept-Kept id server a room_id ps b h =
      elim (Option-cases (accept_message u json services max_room_size id server room_id ps)) [
        | inl e ↦ rw (e, accept) h
        | inr (accepted, e) ↦
            rw (e, accept)
              (
                (λ j. enqueue-SameSeats accepted id b j ∙ h.0 j),
                enqueue-IsHere accepted id id b h.1,
              )
      ]

  module _ (big : 0 < max_room_size) (id : Text) (server : IceServer)
      (requested name room_id : Text) (now : ℕ) (s : State) (h : IsServed s)
      (out : seat id s.sessions ≡ none) (fresh : lookup room_id s.manager.rooms ≡ none) where
    newcomer : PeerInfo
    newcomer = record { peer_id = id; username = name }

    admitted-IsServed :
        (a : Admission Sessions)
        → admit
            (accept u json services max_room_size id server)
            newcomer
            requested
            room_id
            now
            max_room_size
            s.manager
            s.sessions
          ≡ a
        → Kept id s.sessions a.2
        → IsServed (admitted u json services max_room_size id name a)
    unfolding admitted Kept newcomer
    admitted-IsServed (err e, m, b) adm k =
        Quiet-IsServed (record { manager = m; sessions = b }) _
          (refuse-Quiet id e (record { manager = m; sessions = b }))
          (record {
            valid = rw (ap (λ (x : Admission Sessions). x.1) adm) at (
                admit-IsValid (accept u json services max_room_size id server) newcomer requested
                  room_id now max_room_size s.manager s.sessions fresh big h.valid);
            seated =
                Seated-rooms s.manager.rooms m.rooms b
                  (admit-err (accept u json services max_room_size id server) newcomer requested
                    room_id now max_room_size s.manager m s.sessions b e h.valid fresh big adm)
                  (Seated-same s.manager.rooms s.sessions b k.0 h.seated);
          })
    admitted-IsServed (ok ref, m, b) adm k =
        Quiet-IsServed joined_state _ (broadcast-Quiet ref _ id joined_state) (record {
          valid = rw (ap (λ (x : Admission Sessions). x.1) adm) at (
              admit-IsValid (accept u json services max_room_size id server) newcomer requested
                room_id now max_room_size s.manager s.sessions fresh big h.valid);
          seated =
              Seated-Joins s.manager m newcomer joins.room s.sessions (update id enter b)
                joins.joins h.seated out seats which;
        })
      where
        enter : Session → Session
        enter p = record p { room = some ref }

        joined_state : State
        joined_state = record { manager = m; sessions = update id enter b }

        joins :
            Admitted
              (accept u json services max_room_size id server)
              newcomer
              requested
              s.manager
              s.sessions
              ref
              m
              b
        joins =
            admit-Admitted (accept u json services max_room_size id server) newcomer requested
              room_id now max_room_size s.manager m s.sessions b ref h.valid fresh big adm

        same_room : ref ≡ ref_of joins.room
        same_room = rw (joins.same_id, joins.same_ref) refl

        seats :
            (j : Text)
            → seat j (update id enter b)
              ≡ (if text_eq id j then some (ref_of joins.room) else seat j s.sessions)
        seats j =
            seat-update id enter (some ref) b k.1 (λ p. refl) j
            ∙ ap (λ x. if text_eq id j then some ref else x) (k.0 j)
            ∙ ap (λ (x : RoomRef). if text_eq id j then some x else seat j s.sessions) same_room

        which :
            ((j : Text) × (lookup j s.manager.rooms ≡ some joins.room)) ⊎ (joins.room.peers ≡ [])
        which = elim joins.which [ inl l ↦ inl (requested, l) | inr e ↦ inr e.0 ]

  module _ (big : 0 < max_room_size) (id : Text) (s : State) (h : IsServed s)
      (here : IsHere id s.sessions) where
    join_room-IsServed :
        (requested name room_id : Text) (now : ℕ)
        → seat id s.sessions ≡ none
        → lookup room_id s.manager.rooms ≡ none
        → IsServed (join_room u json services max_room_size id requested name room_id now s)
    unfolding join_room Kept newcomer
    join_room-IsServed requested name room_id now out fresh =
        elim (Option-cases (services.issue id)) [
          | inl e ↦ rw (e, join_room) (Quiet-IsServed s _ (send_error-Quiet id _ _ s) h)
          | inr (server, e) ↦
              rw (e, join_room)
                (admitted-IsServed big id server requested name room_id now s h out fresh _ refl (
                  admit-keeps (accept u json services max_room_size id server)
                    (record { peer_id = id; username = name }) (Kept id s.sessions)
                    (accept-Kept id server s.sessions) requested room_id now max_room_size s.manager
                    s.sessions ((λ j. refl), here)))
        ]

  renamed-Quiet :
      (id name : Text) (s : State)
      → Quiet s
          (record s { sessions = update id (rename u json services max_room_size name) s.sessions })
  renamed-Quiet id name s = record {
    manager_same = refl;
    seats_same =
        update-SameSeats id (rename u json services max_room_size name) s.sessions (λ p. refl);
  }

  handle_join-IsServed :
      (big : 0 < max_room_size) (id : Text) (m : SignalingMessage) (room : Option RoomRef)
      (room_id : Text) (now : ℕ) (s : State)
      → IsServed s
      → IsHere id s.sessions
      → seat id s.sessions ≡ room
      → lookup room_id s.manager.rooms ≡ none
      → IsServed (handle_join u json services max_room_size id m room room_id now s)
  unfolding handle_join
  handle_join-IsServed big id m (some room) room_id now s h here e fresh =
      Quiet-IsServed s _ (send_error-Quiet id _ _ s) h
  handle_join-IsServed big id m none room_id now s h here e fresh =
      elim (Result-cases (normalize_username u m.username)) [
        | inl (bad, n) ↦ rw (n, handle_join) (Quiet-IsServed s _ (send_error-Quiet id _ _ s) h)
        | inr (name, n) ↦
            let q = renamed-Quiet id name s in
            rw (n, handle_join)
              (join_room-IsServed big id _ (Quiet-IsServed s _ q h)
                (update-IsHere id (rename u json services max_room_size name) s.sessions here)
                m.room_id name room_id now (q.seats_same id ∙ e) fresh)
      ]

  handle_signal-Quiet :
      (id : Text) (m : SignalingMessage) (room : Option RoomRef) (s : State)
      → Quiet s (handle_signal u json services max_room_size id m room s)
  unfolding handle_signal routed
  handle_signal-Quiet id m none s = send_error-Quiet id _ _ s
  handle_signal-Quiet id m (some room) s =
      answered (route room m.peer_id (relay id m) s) (route-Quiet room m.peer_id (relay id m) s)
    where
      answered :
          (a : Option RoomError × State)
          → Quiet s a.1
          → Quiet s (routed u json services max_room_size id a)
      answered (none, t) q = q
      answered (some e, t) q = Quiet-trans s t _ q (send_error-Quiet id _ _ t)

  pub handle_leave-IsServed :
      (id : Text) (room : Option RoomRef) (s : State)
      → IsServed s
      → IsHere id s.sessions
      → seat id s.sessions ≡ room
      → IsServed (handle_leave u json services max_room_size id room s)
        × (seat id (handle_leave u json services max_room_size id room s).sessions ≡ none)
  unfolding handle_leave leave_room current_room seat
  handle_leave-IsServed id none s h here e = (h, e)
  handle_leave-IsServed id (some room) s h here e =
      (leave_room-IsServed room id s _ h e seats, seats id ∙ rw (text_eq_refl id) refl)
    where
      seats :
          (k : Text)
          → seat k
              (update id (outside u json services max_room_size) (leave_room room id s).sessions)
            ≡ (if text_eq id k then none else seat k (leave_room room id s).sessions)
      seats =
          seat-update id (outside u json services max_room_size) none
            (leave_room room id s).sessions (enqueue_all-IsHere _ _ id s.sessions here) (λ p. refl)

  dispatch-IsServed :
      (big : 0 < max_room_size) (id : Text) (m : SignalingMessage) (room_id : Text) (now : ℕ)
      (s : State)
      → IsServed s
      → IsHere id s.sessions
      → lookup room_id s.manager.rooms ≡ none
      → IsServed (dispatch u json services max_room_size id m room_id now s)
  unfolding dispatch current_room seat room_of
  dispatch-IsServed big id m room_id now s h here fresh =
      elim (Bool-cases (text_eq m.kind msg_join_room)) [
        | inl j ↦
            rw j (handle_join-IsServed big id m (current_room id s) room_id now s h here refl fresh)
        | inr j ↦ elim (Bool-cases (is_signal u json m.kind)) [
          | inl k ↦
              rw (j, k) (Quiet-IsServed s _ (handle_signal-Quiet id m (current_room id s) s) h)
          | inr k ↦ elim (Bool-cases (text_eq m.kind msg_leave_room)) [
            | inl l ↦ rw (j, k, l) (handle_leave-IsServed id (current_room id s) s h here refl).0
            | inr l ↦ rw (j, k, l) h
          ]
        ]
      ]

  -- One turn of the loop, whatever is received.
  pub handle-IsServed :
      (big : 0 < max_room_size) (id : Text) (r : Received) (room_id : Text) (now : ℕ) (s : State)
      → IsServed s
      → IsHere id s.sessions
      → lookup room_id s.manager.rooms ≡ none
      → IsServed (handle u json services max_room_size id r room_id now s).1
  unfolding handle checked decoded
  handle-IsServed big id closed room_id now s h here fresh = h
  handle-IsServed big id binary room_id now s h here fresh =
      Quiet-IsServed s _ (send_error-Quiet id _ _ s) h
  handle-IsServed big id (text raw allowed) room_id now s h here fresh =
      read allowed (decode_message services.read_message raw)
    where
      passed :
          (m : SignalingMessage) (r : Result ProtocolError (Unit {0}))
          → IsServed (checked u json services max_room_size id m room_id now s r).1
      passed m (ok x) = dispatch-IsServed big id m room_id now s h here fresh
      passed m (err e) = Quiet-IsServed s _ (send_error-Quiet id _ _ s) h

      read :
          (allowed : Bool) (r : Result ProtocolError SignalingMessage)
          → IsServed (decoded u json services max_room_size id allowed room_id now s r).1
      read allowed (err e) = Quiet-IsServed s _ (send_error-Quiet id _ _ s) h
      read false (ok m) = Quiet-IsServed s _ (send_error-Quiet id _ _ s) h
      read true (ok m) = passed m (validate_client_message u json m)
