-- ===== src/Signaling/Server/Run.antt =====
-- Runs of the server: handlers start under new IDs, take a message each, and return; writers write.
use termcall.Prelude.{
  ℕ, ◌<◌, ◌≡◌, refl, sym, ap, ◌∙◌, inl, inr, [], none, some, Text, text_eq, text_eq_iff,
  text_eq_refl, lookup, insert, delete, lookup-delete, arith, Bool-cases,
}
use termcall.Protocol.Message.{PeerInfo}
use termcall.Protocol.Validate.{Runes, Json}
use termcall.Signaling.Rooms.{Room, RoomRef, new_room_manager}
use termcall.Signaling.Server.{
  Session, Sessions, State, Services, Received, Pumped, written, write_failed, ping_failed, pump,
  update, current_room, room_of, handle, handle_leave, new_session, connect, disconnect,
}
use termcall.Signaling.Server.Seats.{
  seat, SameSeats, IsHere, update-SameSeats, seat-insert, seat-delete,
}
use termcall.Signaling.Server.Membership.{unseated, key_of, same_some}
use termcall.Signaling.Server.Reachable.{IsServed, Quiet-IsServed}
use termcall.Signaling.Server.Served.{handle-IsServed, handle_leave-IsServed}

abbrev pub initial : ℕ → State
initial max_rooms = record { manager = new_room_manager max_rooms; sessions = [] }

module _ (u : Runes) (json : Json) (services : Services) (max_room_size : ℕ) where
  -- The IDs of a new handler and of a new room are not in use.
  pub data Step (s : State) : State → Type 0 where
    start :
        (id : Text)
        → lookup id s.sessions ≡ none
        → Step s (connect u json services max_room_size id s)
    turn :
        (id : Text) (r : Received) (room_id : Text) (now : ℕ)
        → IsHere id s.sessions
        → lookup room_id s.manager.rooms ≡ none
        → Step s (handle u json services max_room_size id r room_id now s).1
    write :
        (id : Text) (e : Pumped) → Step s (record s { sessions = update id (pump e) s.sessions })
    stop :
        (id : Text) → IsHere id s.sessions → Step s (disconnect u json services max_room_size id s)

  pub data Reach (max_rooms : ℕ) : State → Type 0 where
    begin : Reach max_rooms (initial max_rooms)
    next : (s t : State) → Reach max_rooms s → Step s t → Reach max_rooms t

  initial-IsServed : (n : ℕ) → IsServed (initial n)
  unfolding new_room_manager lookup
  initial-IsServed n = record {
    valid = record { distinct = tt; bounded = omega arith; rooms_ok = tt };
    seated = λ id j r p l q. absurd (cc);
  }

  pump-room : (e : Pumped) (p : Session) → (pump e p).room ≡ p.room
  unfolding pump
  pump-room written p = refl
  pump-room write_failed p = refl
  pump-room ping_failed p = refl

  connect-SameSeats :
      (id : Text) (a : Sessions)
      → lookup id a ≡ none
      → SameSeats a (insert id (new_session u json services max_room_size id) a)
  unfolding seat room_of
  connect-SameSeats id a l j = elim (Bool-cases (text_eq id j)) [
    | inl e ↦ seat-insert id _ a j ∙ rw (e, ← (text_eq_iff id j).0 e, l) refl
    | inr e ↦ seat-insert id _ a j ∙ rw e refl
  ]

  delete-SameSeats : (id : Text) (a : Sessions) → seat id a ≡ none → SameSeats a (delete id a)
  unfolding seat room_of
  delete-SameSeats id a n j = elim (Bool-cases (text_eq id j)) [
    | inl e ↦ seat-delete id a j ∙ rw e (sym n ∙ ap (λ k. seat k a) ((text_eq_iff id j).0 e))
    | inr e ↦ seat-delete id a j ∙ rw e refl
  ]

  stop-IsServed :
      (id : Text) (s : State)
      → IsServed s
      → IsHere id s.sessions
      → IsServed (disconnect u json services max_room_size id s)
        × (seat id (disconnect u json services max_room_size id s).sessions ≡ none)
  unfolding disconnect current_room seat room_of
  stop-IsServed id s h here =
      let (left, gone) =
        handle_leave-IsServed u json services max_room_size id (current_room id s) s h here refl in
      let same = delete-SameSeats id _ gone in
      (Quiet-IsServed _ _ (record { manager_same = refl; seats_same = same }) left, same id ∙ gone)

  Step-IsServed : (s t : State) → 0 < max_room_size → IsServed s → Step s t → IsServed t
  Step-IsServed s t big h (start id l) =
      unfold connect in
      Quiet-IsServed s _
        (record { manager_same = refl; seats_same = connect-SameSeats id s.sessions l }) h
  Step-IsServed s t big h (turn id r room_id now here fresh) =
      handle-IsServed u json services max_room_size big id r room_id now s h here fresh
  Step-IsServed s t big h (write id e) =
      Quiet-IsServed s _
        (record {
          manager_same = refl;
          seats_same = update-SameSeats id (pump e) s.sessions (pump-room e);
        })
        h
  Step-IsServed s t big h (stop id here) = (stop-IsServed id s h here).0

  -- In every state that a run of the server reaches, whatever the clients send, the rooms are valid
  -- (at most the server's number, none empty or overfull, no ID twice), and each peer of a room has a
  -- session whose current room it is.
  pub Reach-IsServed :
      (max_rooms : ℕ) (s : State) → 0 < max_room_size → Reach max_rooms s → IsServed s
  Reach-IsServed max_rooms s big begin = initial-IsServed max_rooms
  Reach-IsServed max_rooms s big (next t _ r st) =
      Step-IsServed t s big (Reach-IsServed max_rooms t big r) st

  -- In a reachable state nobody is in two rooms: the IDs under which a peer is found are one.
  pub Reach_one_room :
      (max_rooms : ℕ) (s : State) (id j k : Text) (a b : Room) (p q : PeerInfo)
      → 0 < max_room_size
      → Reach max_rooms s
      → lookup j s.manager.rooms ≡ some a
      → lookup id a.peers ≡ some p
      → lookup k s.manager.rooms ≡ some b
      → lookup id b.peers ≡ some q
      → j ≡ k
  Reach_one_room max_rooms s id j k a b p q big r la lp lb lq =
      let h = Reach-IsServed max_rooms s big r in
      sym (key_of s.manager h.valid j a la)
      ∙ ap (λ (x : RoomRef). x.id)
          (same_some _ _ (sym (h.seated id j a p la lp) ∙ h.seated id k b q lb lq))
      ∙ key_of s.manager h.valid k b lb

  -- When a handler returns, for whatever reason, in a reachable state, its peer is in no room and has
  -- no session any more.
  pub Reach-disconnect :
      (max_rooms : ℕ) (s : State) (id j : Text) (room : Room)
      → 0 < max_room_size
      → Reach max_rooms s
      → IsHere id s.sessions
      → lookup j (disconnect u json services max_room_size id s).manager.rooms ≡ some room
      → (lookup id room.peers ≡ none)
        × (lookup id (disconnect u json services max_room_size id s).sessions ≡ none)
  Reach-disconnect max_rooms s id j room big r here l =
      let (h, gone) = stop-IsServed id s (Reach-IsServed max_rooms s big r) here in
      (
        unseated _ _ id j room h.seated gone l,
        unfold disconnect in
            rw
              (
                lookup-delete id id
                    (handle_leave u json services max_room_size id (current_room id s) s).sessions,
                text_eq_refl id,
              )
              refl,
      )
