-- ===== src/Turn/Quota/Reservations.antt =====
-- internal/turn/server.go: the three books of the tracker: reservations, those by user, and their number.
use termcall.Prelude.{
  ℕ, ◌+◌, ◌-◌, ◌<◌, ◌≡◌, ◌⊎◌, inl, inr, ◌||◌, List, [], ◌∷◌, none, some, arith, leb, if◌then◌else◌,
  length, Text, text_eq, text_eq_iff, text_eq_refl, lookup, insert, delete, Keyed, Bool-cases,
  Option-cases, length-insert_new, length-delete_old, delete_missing, insert-Keyed, delete-Keyed,
}
use termcall.Prelude.Counts
use termcall.Prelude.Counts.{
  count, increment, decrement, count-increment, count-decrement, total-increment, total-decrement,
  increment-Keyed, decrement-Keyed,
}
use termcall.Turn.Quota.{
  QuotaTracker, has_reservation, is_pending, reserve, allow_key, remove_pending_locked, allocated,
  deleted,
}

-- The reservations of a user.
unfoldable pub reservations : Text → List (Text × Text) → ℕ
reservations u [] = 0
reservations u ((k, v) ∷ m) = (if text_eq v u then 1 else 0) + reservations u m

reservations-insert :
    (u k v : Text) (m : List (Text × Text))
    → lookup k m ≡ none
    → reservations u (insert k v m) ≡ reservations u m + (if text_eq v u then 1 else 0)
unfolding reservations insert lookup
reservations-insert u k v [] h = omega arith
reservations-insert u k v ((j, w) ∷ m) h = ground (arith, reservations-insert u k v m)

reservations-delete :
    (u k v : Text) (m : List (Text × Text))
    → Keyed m
    → lookup k m ≡ some v
    → reservations u (delete k m) + (if text_eq v u then 1 else 0) ≡ reservations u m
unfolding reservations delete lookup
reservations-delete u k v [] hk h = absurd (cc)
reservations-delete u k v ((j, w) ∷ m) hk h =
    ground (arith, reservations-delete u k v m hk.1, delete_missing k m, text_eq_iff j k)

pub record IsValid (q : QuotaTracker) : Type 0 where
  pub users_distinct : Keyed q.by_user
  pub allocations : Counts.total q.by_user ≡ q.total
  pub keys_distinct : Keyed q.pending
  pub pending_counted : length q.pending ≡ q.pending_total
  pub pending_users : (u : Text) → count u q.pending_by_user ≡ reservations u q.pending

pub reserve-IsValid :
    (q : QuotaTracker) (key u : Text)
    → lookup key q.pending ≡ none
    → IsValid q
    → IsValid (reserve q key u)
unfolding reserve
reserve-IsValid q key u none_yet v = record {
  users_distinct = v.users_distinct;
  allocations = v.allocations;
  keys_distinct = insert-Keyed key u q.pending v.keys_distinct;
  pending_counted = omega (arith, length-insert_new key u q.pending none_yet, v.pending_counted);
  pending_users = λ w. ground (
    arith,
    count-increment u w q.pending_by_user,
    v.pending_users w,
    v.pending_users u,
    reservations-insert w key u q.pending none_yet,
    text_eq_iff u w,
  );
}

-- A reservation is released by the user who made it, or there is none.
abbrev pub Owned : QuotaTracker → Text → Text → Type 0
Owned q key u = (lookup key q.pending ≡ none) ⊎ (lookup key q.pending ≡ some u)

pub remove_none :
    (q : QuotaTracker) (key u : Text)
    → lookup key q.pending ≡ none
    → remove_pending_locked q key u ≡ q
unfolding remove_pending_locked is_pending
remove_none q key u h = ground arith

abbrev pub unreserved : QuotaTracker → Text → Text → QuotaTracker
unreserved q key u = record q {
  pending = delete key q.pending;
  pending_by_user = decrement u q.pending_by_user;
  pending_total = q.pending_total - 1;
}

pub remove_some :
    (q : QuotaTracker) (key u w : Text)
    → lookup key q.pending ≡ some w
    → remove_pending_locked q key u ≡ unreserved q key u
unfolding remove_pending_locked is_pending
remove_some q key u w h = ground arith

unreserved-IsValid :
    (q : QuotaTracker) (key u : Text)
    → lookup key q.pending ≡ some u
    → IsValid q
    → IsValid (unreserved q key u)
unreserved-IsValid q key u h v = record {
  users_distinct = v.users_distinct;
  allocations = v.allocations;
  keys_distinct = delete-Keyed key q.pending v.keys_distinct;
  pending_counted =
      omega (arith, length-delete_old key u q.pending v.keys_distinct h, v.pending_counted);
  pending_users = λ w. ground (
    arith,
    count-decrement u w q.pending_by_user,
    v.pending_users w,
    v.pending_users u,
    reservations-delete w key u q.pending v.keys_distinct h,
    text_eq_iff u w,
  );
}

pub remove-IsValid :
    (q : QuotaTracker) (key u : Text)
    → Owned q key u
    → IsValid q
    → IsValid (remove_pending_locked q key u)
remove-IsValid q key u (inl h) v = rw (remove_none q key u h) v
remove-IsValid q key u (inr h) v = rw (remove_some q key u u h) (unreserved-IsValid q key u h v)

pub allocated-IsValid : (q : QuotaTracker) (u : Text) → IsValid q → IsValid (allocated q u)
allocated-IsValid q u v = record {
  users_distinct = increment-Keyed u q.by_user v.users_distinct;
  allocations = omega (arith, total-increment u q.by_user v.users_distinct, v.allocations);
  keys_distinct = v.keys_distinct;
  pending_counted = v.pending_counted;
  pending_users = v.pending_users;
}

pub deleted-IsValid :
    (q : QuotaTracker) (u : Text) → 0 < count u q.by_user → IsValid q → IsValid (deleted q u)
unfolding deleted
deleted-IsValid q u held v = record {
  users_distinct = decrement-Keyed u q.by_user v.users_distinct;
  allocations = ground (arith, total-decrement u q.by_user v.users_distinct held, v.allocations);
  keys_distinct = v.keys_distinct;
  pending_counted = v.pending_counted;
  pending_users = v.pending_users;
}

-- The books after a request for an allocation.
pub allow_key-IsValid :
    (q : QuotaTracker) (key u : Text) → IsValid q → IsValid (allow_key q key u).1
unfolding allow_key is_pending
allow_key-IsValid q key u v = elim (Option-cases (lookup key q.pending)) [
  | inr (w, l) ↦ rw (l, has_reservation) v
  | inl l ↦
      elim (Bool-cases (
        leb q.max_total (q.total + q.pending_total)
        || leb q.per_user (count u q.by_user + count u q.pending_by_user))) [
          | inl full ↦ rw (l, has_reservation, full) v
          | inr free ↦ rw (l, has_reservation, free) (reserve-IsValid q key u l v)
        ]
]

pub reservations-le-length :
    (key u : Text) (m : List (Text × Text))
    → lookup key m ≡ some u
    → (0 < reservations u m) × (0 < length m)
unfolding reservations lookup
reservations-le-length key u [] h = absurd (cc)
reservations-le-length key u ((j, w) ∷ m) h =
    ground (arith, reservations-le-length key u m, text_eq_refl u)
