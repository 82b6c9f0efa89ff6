-- ===== src/Signaling/Server/Seats.antt =====
-- The room that each session is in: which operations on the sessions change it.
use termcall.Prelude.{
  ◌≡◌, refl, ◌∙◌, inl, inr, List, [], ◌∷◌, Option, none, some, if◌then◌else◌, Text, text_eq,
  text_eq_refl, text_eq_iff, lookup, insert, delete, lookup-insert, lookup-delete, Bool-cases,
  Option-cases, ltb, length,
}
use termcall.Protocol.Message.{SignalingMessage}
use termcall.Signaling.Rooms.{RoomRef}
use termcall.Signaling.Server.{
  Session, Sessions, room_of, enqueue_session, enqueue, update, enqueue_all, peer_queue_size,
}

-- The current room of the session of an ID.
unfoldable pub seat : Text → Sessions → Option RoomRef
unfolding room_of
seat id sessions = room_of (lookup id sessions)

-- Nobody changes rooms.
abbrev pub SameSeats : Sessions → Sessions → Type 0
SameSeats a b = (id : Text) → seat id b ≡ seat id a

insert-SameSeats :
    (id : Text) (p q : Session) (a : Sessions)
    → lookup id a ≡ some p
    → q.room ≡ p.room
    → SameSeats a (insert id q a)
unfolding seat room_of
insert-SameSeats id p q a l e j = elim (Bool-cases (text_eq id j)) [
  | inl same ↦ rw (lookup-insert id j q a, same, ← (text_eq_iff id j).0 same, l) e
  | inr other ↦ rw (lookup-insert id j q a, other) refl
]

enqueue_session-room :
    (message : SignalingMessage) (p : Session) → (enqueue_session message p).1.room ≡ p.room
unfolding enqueue_session
enqueue_session-room message p = elim (Bool-cases (ltb (length p.send) peer_queue_size)) [
  | inl space ↦ rw space refl
  | inr full ↦ rw full refl
]

pub enqueue-SameSeats :
    (message : SignalingMessage) (id : Text) (a : Sessions) → SameSeats a (enqueue message id a).1
unfolding enqueue
enqueue-SameSeats message id a = elim (Option-cases (lookup id a)) [
  | inl l ↦ rw (l, enqueue) (λ j. refl)
  | inr (p, l) ↦
      rw (l, enqueue)
        (insert-SameSeats id p (enqueue_session message p).1 a l (enqueue_session-room message p))
]

pub enqueue_all-SameSeats :
    (message : SignalingMessage) (ids : List Text) (a : Sessions)
    → SameSeats a (enqueue_all message ids a)
unfolding enqueue_all
enqueue_all-SameSeats message [] a j = refl
enqueue_all-SameSeats message (id ∷ ids) a j =
    enqueue_all-SameSeats message ids (enqueue message id a).1 j ∙ enqueue-SameSeats message id a j

pub update-SameSeats :
    (id : Text) (f : Session → Session) (a : Sessions)
    → ((p : Session) → (f p).room ≡ p.room)
    → SameSeats a (update id f a)
unfolding update
update-SameSeats id f a h = elim (Option-cases (lookup id a)) [
  | inl l ↦ rw (l, update) (λ j. refl)
  | inr (p, l) ↦ rw (l, update) (insert-SameSeats id p (f p) a l (h p))
]

-- There is a session of this ID.
abbrev pub IsHere : Text → Sessions → Type 0
IsHere id a = (p : Session) × (lookup id a ≡ some p)

pub seat-update :
    (id : Text) (f : Session → Session) (r : Option RoomRef) (a : Sessions)
    → IsHere id a
    → ((p : Session) → (f p).room ≡ r)
    → (j : Text) → seat j (update id f a) ≡ (if text_eq id j then r else seat j a)
unfolding update seat room_of
seat-update id f r a (p, l) h j = elim (Bool-cases (text_eq id j)) [
  | inl same ↦ rw (l, update, lookup-insert id j (f p) a, same) (h p)
  | inr other ↦ rw (l, update, lookup-insert id j (f p) a, other) refl
]

pub seat-insert :
    (id : Text) (q : Session) (a : Sessions) (j : Text)
    → seat j (insert id q a) ≡ (if text_eq id j then q.room else seat j a)
unfolding seat room_of
seat-insert id q a j = elim (Bool-cases (text_eq id j)) [
  | inl same ↦ rw (lookup-insert id j q a, same) refl
  | inr other ↦ rw (lookup-insert id j q a, other) refl
]

pub seat-delete :
    (id : Text) (a : Sessions) (j : Text)
    → seat j (delete id a) ≡ (if text_eq id j then none else seat j a)
unfolding seat room_of
seat-delete id a j = elim (Bool-cases (text_eq id j)) [
  | inl same ↦ rw (lookup-delete id j a, same) refl
  | inr other ↦ rw (lookup-delete id j a, other) refl
]

-- A session that is there stays, whoever is sent a message.
pub enqueue-IsHere :
    (message : SignalingMessage) (id j : Text) (a : Sessions)
    → IsHere j a
    → IsHere j (enqueue message id a).1
unfolding enqueue
enqueue-IsHere message id j a (p, l) = elim (Option-cases (lookup id a)) [
  | inl m ↦ rw (m, enqueue) (p, l)
  | inr (q, m) ↦ rw (m, enqueue) (here (enqueue_session message q).1)
]
  where
    here : (n : Session) → IsHere j (insert id n a)
    here n = elim (Bool-cases (text_eq id j)) [
      | inl same ↦ (n, rw (lookup-insert id j n a, same) refl)
      | inr other ↦ (p, rw (lookup-insert id j n a, other) l)
    ]

pub update-IsHere :
    (id : Text) (f : Session → Session) (a : Sessions) → IsHere id a → IsHere id (update id f a)
unfolding update
update-IsHere id f a (p, l) =
    rw (l, update) (f p, rw (lookup-insert id id (f p) a, text_eq_refl id) refl)

pub enqueue_all-IsHere :
    (message : SignalingMessage) (ids : List Text) (j : Text) (a : Sessions)
    → IsHere j a
    → IsHere j (enqueue_all message ids a)
unfolding enqueue_all
enqueue_all-IsHere message [] j a h = h
enqueue_all-IsHere message (id ∷ ids) j a h =
    enqueue_all-IsHere message ids j (enqueue message id a).1 (enqueue-IsHere message id j a h)
