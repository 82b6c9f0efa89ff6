-- ===== src/Signaling/Server/Membership.antt =====
-- internal/signaling/handler.go: who is in a room, and the sessions.
use termcall.Prelude.{
  ◌≡◌, refl, sym, ap, ◌∙◌, ◌⊎◌, inl, inr, Bool, true, false, List, [], Option, none, some,
  if◌then◌else◌, ◌==◌, ==_refl, length, Text, text_eq, text_eq_iff, lookup, insert, delete,
  lookup-insert, lookup-delete, Entries-lookup, Bool-cases, Option-cases,
}
use termcall.Protocol.Message.{PeerInfo}
use termcall.Signaling.Rooms.{Room, RoomRef, RoomManager, joined, current, leave}
use termcall.Signaling.Rooms.Invariant.{IsValid, IsRoom, current_room}
use termcall.Signaling.Rooms.Laws.{Joins}
use termcall.Signaling.Rooms.Stale.{leave-current, leave_stale_ref}
use termcall.Signaling.Server.{Sessions}
use termcall.Signaling.Server.Seats.{seat, SameSeats}

abbrev pub ref_of : Room → RoomRef
ref_of r = record { ref = r.ref; id = r.id }

-- Over the rooms by their IDs and the sessions: a peer of a room has a session, whose room it is.
abbrev pub Seated : List (Text × Room) → Sessions → Type 0
Seated rooms sessions =
    (id j : Text) (r : Room) (p : PeerInfo)
    → lookup j rooms ≡ some r
    → lookup id r.peers ≡ some p
    → seat id sessions ≡ some (ref_of r)

pub Seated-same :
    (rooms : List (Text × Room)) (a b : Sessions) → SameSeats a b → Seated rooms a → Seated rooms b
Seated-same rooms a b same h id j r p l q = same id ∙ h id j r p l q

pub Seated-rooms :
    (rooms rooms' : List (Text × Room)) (a : Sessions)
    → rooms' ≡ rooms
    → Seated rooms a
    → Seated rooms' a
Seated-rooms rooms rooms' a e h = rw e h

pub same_some {ℓ} : {A : Type ℓ} (a b : A) → some a ≡ some b → a ≡ b
same_some a b h = cc

nowhere {ℓ} : {A : Type ℓ} (x : Option A) (a : A) → x ≡ none → x ≡ some a → ⊥
nowhere x a n s = cc

insert_other :
    (k j : Text) (p : PeerInfo) (ps : List (Text × PeerInfo))
    → text_eq k j ≡ false
    → lookup j (insert k p ps) ≡ lookup j ps
insert_other k j p ps e = rw (lookup-insert k j p ps, e) refl

delete_other :
    (k j : Text) (ps : List (Text × PeerInfo))
    → text_eq k j ≡ false
    → lookup j (delete k ps) ≡ lookup j ps
delete_other k j ps e = rw (lookup-delete k j ps, e) refl

delete_same :
    (k j : Text) (ps : List (Text × PeerInfo)) → text_eq k j ≡ true → lookup j (delete k ps) ≡ none
delete_same k j ps e = rw (lookup-delete k j ps, e) refl

both : (t : Bool) → t ≡ true → t ≡ false → ⊥
both t x y = cc

-- One who has no room is in none.
pub unseated :
    (rooms : List (Text × Room)) (a : Sessions) (id j : Text) (r : Room)
    → Seated rooms a
    → seat id a ≡ none
    → lookup j rooms ≡ some r
    → lookup id r.peers ≡ none
unseated rooms a id j r h n l = elim (Option-cases (lookup id r.peers)) [
  | inl out ↦ out
  | inr (p, q) ↦ absurd (nowhere (seat id a) (ref_of r) n (h id j r p l q))
]

-- A newcomer without a room joins one, and its session learns it.
pub Seated-Joins :
    (m m' : RoomManager) (peer : PeerInfo) (room : Room) (a b : Sessions)
    → Joins m peer room m'
    → Seated m.rooms a
    → seat peer.peer_id a ≡ none
    → ((id : Text)
        → seat id b ≡ (if text_eq peer.peer_id id then some (ref_of room) else seat id a))
    → ((j : Text) × (lookup j m.rooms ≡ some room)) ⊎ (room.peers ≡ [])
    → Seated m'.rooms b
Seated-Joins m m' peer room a b joins h n sb which id j r p l q =
    elim (Bool-cases (text_eq room.id j)) [
      | inl here ↦ in_room (same_some (joined room peer) r (sym (rw here at (joins j)) ∙ l))
      | inr there ↦ elsewhere (sym (rw there at (joins j)) ∙ l)
    ]
  where
    old :
        (ps : Option PeerInfo)
        → ps ≡ lookup id room.peers
        → ps ≡ some p
        → seat id a ≡ some (ref_of room)
    old ps e s = elim which [
      | inl (k, lk) ↦ h id k room p lk (sym e ∙ s)
      | inr empty ↦ absurd (
          nowhere ps p
            (e ∙ ap (λ (x : List (Text × PeerInfo)). lookup id x) empty ∙ (unfold lookup in refl))
            s)
    ]

    in_room : joined room peer ≡ r → seat id b ≡ some (ref_of r)
    in_room e = elim (Bool-cases (text_eq peer.peer_id id)) [
      | inl me ↦ rw (sb id, me) (ap (λ (x : Room). some (ref_of x)) e)
      | inr you ↦
          rw (sb id, you)
            (old (lookup id room.peers) refl (
                sym (insert_other peer.peer_id id peer room.peers you)
                ∙ ap (λ (x : Room). lookup id x.peers) e
                ∙ q)
              ∙ ap (λ (x : Room). some (ref_of x)) e)
    ]

    elsewhere : lookup j m.rooms ≡ some r → seat id b ≡ some (ref_of r)
    elsewhere lj = elim (Bool-cases (text_eq peer.peer_id id)) [
      | inl me ↦ absurd (
          nowhere (seat id a) (ref_of r)
            (ap (λ k. seat k a) (sym ((text_eq_iff peer.peer_id id).0 me)) ∙ n) (h id j r p lj q))
      | inr you ↦ rw (sb id, you) (h id j r p lj q)
    ]

module _ (m : RoomManager) (v : IsValid m) where
  pub key_of : (j : Text) (room : Room) → lookup j m.rooms ≡ some room → room.id ≡ j
  key_of j room l = (Entries-lookup (IsRoom m.next_ref) j room m.rooms v.rooms_ok l).keyed

  -- A reference to a room that is there is not stale.
  current_member :
      (j : Text) (room : Room) → lookup j m.rooms ≡ some room → current m (ref_of room) ≡ some room
  unfolding current
  current_member j room l =
      let here = ap (λ k. lookup k m.rooms) (key_of j room l) ∙ l in
      rw (here, current, ==_refl room.ref) refl

  remaining : Room → Text → Option Room
  remaining room id =
      if length (delete id room.peers) == 0
      then none
      else some (record room { peers = delete id room.peers })

  remaining-eq-some :
      (room r : Room) (id : Text)
      → remaining room id ≡ some r
      → r ≡ (record room { peers = delete id room.peers })
  unfolding remaining
  remaining-eq-some room r id h = elim (Bool-cases (length (delete id room.peers) == 0)) [
    | inl none_left ↦ absurd (nowhere none r refl (rw none_left at h))
    | inr some_left ↦ sym (same_some _ r (rw some_left at h))
  ]

  module _ (r : RoomRef) (id : Text) (a b : Sessions) (h : Seated m.rooms a)
      (here : seat id a ≡ some r)
      (sb : (k : Text) → seat k b ≡ (if text_eq id k then none else seat k a)) where
    -- The reference of the one who leaves is that of each room it is in.
    mine :
        (k j : Text) (room : Room) (p : PeerInfo)
        → text_eq id k ≡ true
        → lookup j m.rooms ≡ some room
        → lookup k room.peers ≡ some p
        → r ≡ ref_of room
    mine k j room p same l q =
        same_some r (ref_of room)
          (sym here ∙ ap (λ x. seat x a) ((text_eq_iff id k).0 same) ∙ h k j room p l q)

    leave_stale : current m r ≡ none → Seated m.rooms b
    leave_stale gone k j room p l q = elim (Bool-cases (text_eq id k)) [
      | inl same ↦ absurd (
          nowhere (current m r) room gone
            (ap (λ x. current m x) (mine k j room p same l q) ∙ current_member j room l))
      | inr other ↦ rw (sb k, other) (h k j room p l q)
    ]

    leave-Seated :
        (room0 : Room) (rooms : List (Text × Room))
        → current m r ≡ some room0
        → ((j : Text)
            → lookup j rooms ≡ (if text_eq r.id j then remaining room0 id else lookup j m.rooms))
        → Seated rooms b
    leave-Seated room0 rooms e lk k j room p l q = elim (Bool-cases (text_eq r.id j)) [
      | inl there ↦ left_room (remaining-eq-some room0 room id (sym (rw there at (lk j)) ∙ l))
      | inr elsewhere ↦ other_room elsewhere (sym (rw elsewhere at (lk j)) ∙ l)
    ]
      where
        left_room :
            room ≡ (record room0 { peers = delete id room0.peers }) → seat k b ≡ some (ref_of room)
        left_room er = elim (Bool-cases (text_eq id k)) [
          | inl same ↦ absurd (
              nowhere (lookup k (delete id room0.peers)) p (delete_same id k room0.peers same)
                (ap (λ (x : Room). lookup k x.peers) (sym er) ∙ q))
          | inr other ↦
              let old =
                sym (delete_other id k room0.peers other)
                ∙ ap (λ (x : Room). lookup k x.peers) (sym er)
                ∙ q in
              rw (sb k, other)
                (h k r.id room0 p (current_room m r room0 v e).0 old
                  ∙ ap (λ (x : Room). some (ref_of x)) (sym er))
        ]

        other_room :
            text_eq r.id j ≡ false → lookup j m.rooms ≡ some room → seat k b ≡ some (ref_of room)
        other_room ne lj = elim (Bool-cases (text_eq id k)) [
          | inl same ↦
              absurd
                (differ (ap (λ (x : RoomRef). x.id) (mine k j room p same lj q) ∙ key_of j room lj))
          | inr other ↦ rw (sb k, other) (h k j room p lj q)
        ]
          where
            differ : r.id ≡ j → ⊥
            differ e = both (text_eq r.id j) ((text_eq_iff r.id j).1 e) ne

    -- One who leaves is out of every room, and all others stay.
    pub Seated-leave : Seated (leave m (some r) id).1.rooms b
    unfolding remaining
    Seated-leave = elim (Option-cases (current m r)) [
      | inl gone ↦ rw (leave_stale_ref m r id gone) (leave_stale gone)
      | inr (room0, e) ↦
          leave-Seated room0 (leave m (some r) id).1.rooms e (leave-current m r id room0 v e).1
    ]
