-- ===== src/Turn/Quota/Within.antt =====
-- Allocations and reservations together against the quotas.
use termcall.Prelude.{
  ◌+◌, ◌≤◌, ◌<◌, ◌≡◌, inl, inr, true, ◌||◌, none, some, arith, leb, Text, text_eq_iff, text_eq_refl,
  lookup, Bool-cases, Option-cases, lookup-insert,
}
use termcall.Prelude.Counts.{count, count-increment, count-decrement}
use termcall.Turn.Quota.{
  QuotaTracker, has_reservation, is_pending, reserve, allow_key, remove_pending_locked,
  release_pending, created_key, allocated, deleted,
}
use termcall.Turn.Quota.Reservations.{
  IsValid, Owned, remove_none, remove_some, remove-IsValid, allocated-IsValid, deleted-IsValid,
  allow_key-IsValid, reservations-le-length,
}

pub record IsWithin (q : QuotaTracker) : Type 0 where
  pub total_ok : q.total + q.pending_total ≤ q.max_total
  pub user_ok : (u : Text) → count u q.by_user + count u q.pending_by_user ≤ q.per_user

allow_key-IsWithin : (q : QuotaTracker) (key u : Text) → IsWithin q → IsWithin (allow_key q key u).1
unfolding allow_key is_pending reserve
allow_key-IsWithin q key u v = elim (Option-cases (lookup key q.pending)) [
  | inr (w, l) ↦ rw (l, has_reservation) v
  | inl l ↦
      elim (Bool-cases (
        leb q.max_total (q.total + q.pending_total)
        || leb q.per_user (count u q.by_user + count u q.pending_by_user))) [
          | inl full ↦ rw (l, has_reservation, full) v
          | inr free ↦
              rw (l, has_reservation, free)
                (record {
                  total_ok = ground arith;
                  user_ok = λ w.
                      ground (
                        arith,
                        count-increment u w q.pending_by_user,
                        v.user_ok w,
                        text_eq_iff u w,
                      );
                })
        ]
]

-- A request that is granted holds a reservation from then on, whichever way it was granted.
pub allow_key-is_pending :
    (q : QuotaTracker) (key u : Text)
    → (allow_key q key u).0 ≡ true
    → is_pending (allow_key q key u).1 key ≡ true
unfolding allow_key is_pending reserve has_reservation
allow_key-is_pending q key u h = ground (arith, lookup-insert key key u q.pending, text_eq_refl key)

-- A user with a reservation has a counter for it.
reserved_count :
    (q : QuotaTracker) (key u : Text)
    → IsValid q
    → lookup key q.pending ≡ some u
    → (0 < count u q.pending_by_user) × (0 < q.pending_total)
reserved_count q key u v l =
    let (a, b) = reservations-le-length key u q.pending l in
    (omega (arith, v.pending_users u, a), omega (arith, v.pending_counted, b))

remove-IsWithin :
    (q : QuotaTracker) (key u : Text)
    → Owned q key u
    → IsWithin q
    → IsWithin (remove_pending_locked q key u)
remove-IsWithin q key u (inl h) v = rw (remove_none q key u h) v
remove-IsWithin q key u (inr h) v = rw (remove_some q key u u h) (record {
  total_ok = omega (arith, v.total_ok);
  user_ok =
      λ w. ground (arith, count-decrement u w q.pending_by_user, v.user_ok w, text_eq_iff u w);
})

created_key-IsWithin :
    (q : QuotaTracker) (key u : Text)
    → lookup key q.pending ≡ some u
    → IsValid q
    → IsWithin q
    → IsWithin (created_key q key u)
unfolding created_key
created_key-IsWithin q key u h v k =
    let (a, b) = reserved_count q key u v h in
    rw (remove_some q key u u h) (record {
      total_ok = omega (arith, k.total_ok, b);
      user_ok = λ w. ground (
        arith,
        count-increment u w q.by_user,
        count-decrement u w q.pending_by_user,
        k.user_ok w,
        a,
        text_eq_iff u w,
      );
    })

deleted-IsWithin : (q : QuotaTracker) (u : Text) → IsWithin q → IsWithin (deleted q u)
unfolding deleted
deleted-IsWithin q u v = record {
  total_ok = ground (arith, v.total_ok);
  user_ok = λ w. ground (arith, count-decrement u w q.by_user, v.user_ok w, text_eq_iff u w);
}

-- What the TURN library and the timers do to a tracker, where every allocation that is created still
-- has its reservation, and one that is deleted was created.
pub data Step (q : QuotaTracker) : QuotaTracker → Type 0 where
  asks : (key u : Text) → Step q (allow_key q key u).1
  lapses : (key u : Text) → Owned q key u → Step q (release_pending q key u)
  creates : (key u : Text) → lookup key q.pending ≡ some u → Step q (created_key q key u)
  deletes : (u : Text) → 0 < count u q.by_user → Step q (deleted q u)

pub data Reach (q : QuotaTracker) : QuotaTracker → Type 0 where
  here : Reach q q
  next : {r s : QuotaTracker} → Reach q r → Step r s → Reach q s

Step-IsValid : {q r : QuotaTracker} → Step q r → IsValid q → IsValid r
Step-IsValid {q} (asks key u) v = allow_key-IsValid q key u v
Step-IsValid {q} (lapses key u own) v = unfold release_pending in remove-IsValid q key u own v
Step-IsValid {q} (creates key u l) v =
    unfold created_key in
    allocated-IsValid (remove_pending_locked q key u) u (remove-IsValid q key u (inr l) v)
Step-IsValid {q} (deletes u held) v = deleted-IsValid q u held v

Step-IsWithin : {q r : QuotaTracker} → Step q r → IsValid q → IsWithin q → IsWithin r
Step-IsWithin {q} (asks key u) v k = allow_key-IsWithin q key u k
Step-IsWithin {q} (lapses key u own) v k = unfold release_pending in remove-IsWithin q key u own k
Step-IsWithin {q} (creates key u l) v k = created_key-IsWithin q key u l v k
Step-IsWithin {q} (deletes u held) v k = deleted-IsWithin q u k

-- From a tracker whose books agree and that is within its quotas, no such history leads out of them:
-- neither all users together nor one of them ever has more allocations and reservations than allowed.
pub Reach-IsWithin :
    {q r : QuotaTracker} → IsValid q → IsWithin q → Reach q r → IsValid r × IsWithin r
Reach-IsWithin v k here = (v, k)
Reach-IsWithin v k (next path s) =
    let (v', k') = Reach-IsWithin v k path in (Step-IsValid s v', Step-IsWithin s v' k')

-- `created` does not look at the quotas: an allocation that is created when its reservation has
-- lapsed, while the quota is used up, takes the tracker beyond it.
pub created_lapsed :
    (q : QuotaTracker) (key u : Text)
    → lookup key q.pending ≡ none
    → q.total + q.pending_total ≡ q.max_total
    → ¬ IsWithin (created_key q key u)
unfolding created_key
created_lapsed q key u l full k =
    let k' : IsWithin (allocated q u) = rw (remove_none q key u l) at k in
    absurd (omega (arith, k'.total_ok))
