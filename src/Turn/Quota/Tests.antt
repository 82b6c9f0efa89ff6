-- ===== src/Turn/Quota/Tests.antt =====
-- Runs of the quota tracker, and its theorems at concrete histories.
use termcall.Prelude.{◌≡◌, refl, true, [], ◌∷◌, none, some, arith, Text, text_eq, lookup, insert}
use termcall.Prelude.Counts.{count, count-nil, total}
use termcall.Text.{codes}
use termcall.Turn.Quota.{QuotaTracker, allow_key, reserve, is_pending, has_reservation, created_key}
use termcall.Turn.Quota.Reservations.{IsValid, reservations}
use termcall.Turn.Quota.Within.{
  IsWithin, Reach, here, next, asks, creates, Reach-IsWithin, created_lapsed,
}

abbrev one_each : QuotaTracker
one_each = record {
  by_user = [];
  pending = [];
  pending_by_user = [];
  total = 0;
  pending_total = 0;
  per_user = 1;
  max_total = 1;
}

abbrev key : Text
key = codes "ann|udp|1"

abbrev ann : Text
ann = codes "ann"

abbrev asked : QuotaTracker
asked = (allow_key one_each key ann).1

one_each-IsWithin : IsWithin one_each
one_each-IsWithin = record { total_ok = omega arith; user_ok = λ u. omega (arith, count-nil u) }

one_each-IsValid : IsValid one_each
unfolding total reservations
one_each-IsValid = record {
  users_distinct = tt;
  allocations = refl;
  keys_distinct = tt;
  pending_counted = refl;
  pending_users = λ u. count-nil u;
}

asked_yes : (allow_key one_each key ann).0 ≡ true
unfolding allow_key is_pending has_reservation lookup count
asked_yes = refl

asked_pending : lookup key asked.pending ≡ some ann
unfolding allow_key is_pending has_reservation lookup count reserve insert text_eq
asked_pending = refl

history : Reach one_each (created_key asked key ann)
history = next (next here (asks key ann)) (creates key ann asked_pending)

Reach-IsWithin_example : IsValid (created_key asked key ann) × IsWithin (created_key asked key ann)
Reach-IsWithin_example = Reach-IsWithin one_each-IsValid one_each-IsWithin history

abbrev full : QuotaTracker
full = record one_each { total = 1; by_user = (ann, 1) ∷ [] }

none_pending : lookup key full.pending ≡ none
unfolding lookup
none_pending = refl

created_lapsed_example : ¬ IsWithin (created_key full key ann)
created_lapsed_example = created_lapsed full key ann none_pending refl
