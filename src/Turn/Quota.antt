-- ===== src/Turn/Quota.antt =====
-- internal/turn/server.go: `quotaTracker`. Each method runs under the lock, so each is one step.
pub mod Reservations
pub mod Within
mod Tests
use Prim.Native.String.{String}
use termcall.Prelude.{
  ℕ, ◌+◌, ◌-◌, Bool, true, false, not, ◌||◌, List, [], ◌∷◌, ◌++◌, Option, none, some, ltb, leb,
  if◌then◌else◌, Text, lookup, insert, delete,
}
use termcall.Text.{codes}
use termcall.Prelude.Counts.{Counts, count, increment, decrement}

pub record QuotaTracker : Type 0 where
  pub by_user : Counts
  pub pending : List (Text × Text)
  pub pending_by_user : Counts
  pub total : ℕ
  pub pending_total : ℕ
  pub per_user : ℕ
  pub max_total : ℕ

unfoldable pub new_quota_tracker : ℕ → ℕ → QuotaTracker
new_quota_tracker per_user max_total = record {
  by_user = [];
  pending = [];
  pending_by_user = [];
  total = 0;
  pending_total = 0;
  per_user = per_user;
  max_total = max_total;
}

-- A `net.Addr`: its network and its text.
pub record Address : Type 0 where
  pub network : Text
  pub text : Text

unfoldable pub quota_reservation_key : Text → Option Address → Text
quota_reservation_key username none = username ++ codes "|<nil>"
quota_reservation_key username (some a) = username ++ codes "|" ++ a.network ++ codes "|" ++ a.text

unfoldable pub has_reservation : Option Text → Bool
has_reservation none = false
has_reservation (some u) = true

unfoldable pub is_pending : QuotaTracker → Text → Bool
unfolding has_reservation
is_pending q key = has_reservation (lookup key q.pending)

unfoldable pub reserve : QuotaTracker → Text → Text → QuotaTracker
reserve q key username = record q {
  pending = insert key username q.pending;
  pending_by_user = increment username q.pending_by_user;
  pending_total = q.pending_total + 1;
}

-- The answer, the new state, and whether a timer is started that calls `release_pending` later.
unfoldable pub allow_key : QuotaTracker → Text → Text → Bool × QuotaTracker × Bool
unfolding reserve
allow_key q key username =
    if is_pending q key
    then (true, q, false)
    else if leb q.max_total (q.total + q.pending_total)
        || leb q.per_user (count username q.by_user + count username q.pending_by_user)
    then (false, q, false)
    else (true, reserve q key username, true)

unfoldable pub allow : QuotaTracker → Text → Option Address → Bool × QuotaTracker × Bool
allow q username source = allow_key q (quota_reservation_key username source) username

unfoldable pub remove_pending_locked : QuotaTracker → Text → Text → QuotaTracker
remove_pending_locked q key username =
    if is_pending q key
    then record q {
      pending = delete key q.pending;
      pending_by_user = decrement username q.pending_by_user;
      pending_total = if ltb 0 q.pending_total then q.pending_total - 1 else q.pending_total;
    }
    else q

unfoldable pub release_pending : QuotaTracker → Text → Text → QuotaTracker
release_pending q key username = remove_pending_locked q key username

abbrev pub allocated : QuotaTracker → Text → QuotaTracker
allocated q username = record q { by_user = increment username q.by_user; total = q.total + 1 }

unfoldable pub created_key : QuotaTracker → Text → Text → QuotaTracker
created_key q key username = allocated (remove_pending_locked q key username) username

unfoldable pub created : QuotaTracker → Text → Option Address → QuotaTracker
created q username source = created_key q (quota_reservation_key username source) username

unfoldable pub deleted : QuotaTracker → Text → QuotaTracker
deleted q username = record q {
  by_user = decrement username q.by_user;
  total = if ltb 0 q.total then q.total - 1 else q.total;
}
