-- ===== src/Prelude/Counts.antt =====
-- Counters in a `map[string]int`: a missing key reads 0, and a counter that falls to 0 is deleted.
use Prim.Native.Nat.{ℕ, ◌+◌, ◌-◌, ◌≤◌, ◌<◌}
use mathlib.Core.Path.{◌≡◌, refl}
use mathlib.Core.Logic.{inl, inr}
use mathlib.Core.Option.{Option, none, some}
use mathlib.Core.List.{List, [], ◌∷◌}
use native.Mathlib.Omega.{arith}
use termcall.Prelude.Tests.{Bool-cases, leb, if◌then◌else◌}
use termcall.Prelude.Maps.{
  Text, text_eq, text_eq_iff, lookup, insert, delete, Keyed, lookup-insert, lookup-delete,
  insert-Keyed, delete-Keyed, delete_missing, Entries, Entries-insert, Entries-delete,
}

abbrev pub Counts : Type 0
Counts = List (Text × ℕ)

value : Option ℕ → ℕ
value none = 0
value (some n) = n

unfoldable pub count : Text → Counts → ℕ
unfolding value
count k m = value (lookup k m)

pub count-nil : (k : Text) → count k [] ≡ 0
unfolding count value lookup
count-nil k = refl

-- `m[k]++`
unfoldable pub increment : Text → Counts → Counts
increment k m = insert k (count k m + 1) m

-- `if m[k] > 1 { m[k]-- } else { delete(m, k) }`
unfoldable pub decrement : Text → Counts → Counts
decrement k m = if leb (count k m) 1 then delete k m else insert k (count k m - 1) m

unfoldable pub total : Counts → ℕ
total [] = 0
total ((k, n) ∷ m) = n + total m

pub count-increment :
    (k j : Text) (m : Counts)
    → count j (increment k m) ≡ (if text_eq k j then count k m + 1 else count j m)
unfolding increment count
count-increment k j m = ground (arith, lookup-insert k j (value (lookup k m) + 1) m)

pub count-decrement :
    (k j : Text) (m : Counts)
    → count j (decrement k m) ≡ (if text_eq k j then count k m - 1 else count j m)
unfolding decrement count
count-decrement k j m =
    ground (arith, lookup-insert k j (value (lookup k m) - 1) m, lookup-delete k j m)

total-insert :
    (k : Text) (n : ℕ) (m : Counts) → Keyed m → total (insert k n m) + count k m ≡ total m + n
unfolding total count insert lookup
total-insert k n [] h = omega arith
total-insert k n ((j, w) ∷ m) h = ground (arith, total-insert k n m h.1)

total-delete : (k : Text) (m : Counts) → Keyed m → total (delete k m) + count k m ≡ total m
unfolding total count delete lookup
total-delete k [] h = omega arith
total-delete k ((j, w) ∷ m) h =
    ground (arith, total-delete k m h.1, text_eq_iff j k, delete_missing k m)

pub total-increment : (k : Text) (m : Counts) → Keyed m → total (increment k m) ≡ total m + 1
unfolding increment
total-increment k m h = omega (arith, total-insert k (count k m + 1) m h)

pub total-decrement :
    (k : Text) (m : Counts) → Keyed m → 0 < count k m → total (decrement k m) + 1 ≡ total m
unfolding decrement
total-decrement k m h p = elim (Bool-cases (leb (count k m) 1)) [
  | inl one ↦ rw one (ground (arith, total-delete k m h))
  | inr more ↦ rw more (ground (arith, total-insert k (count k m - 1) m h))
]

pub count-le-total : (k : Text) (m : Counts) → count k m ≤ total m
unfolding count total lookup
count-le-total k [] = omega arith
count-le-total k ((j, w) ∷ m) = ground (arith, count-le-total k m)

pub increment-Keyed : (k : Text) (m : Counts) → Keyed m → Keyed (increment k m)
unfolding increment
increment-Keyed k m h = insert-Keyed k (count k m + 1) m h

pub decrement-Keyed : (k : Text) (m : Counts) → Keyed m → Keyed (decrement k m)
unfolding decrement
decrement-Keyed k m h = ground (arith, delete-Keyed k m h, insert-Keyed k (count k m - 1) m h)

-- No counter of the map stands at 0.
abbrev pub Positive : Text → ℕ → Type 0
Positive k n = 0 < n

pub increment-Positive :
    (k : Text) (m : Counts) → Entries Positive m → Entries Positive (increment k m)
unfolding increment
increment-Positive k m h = Entries-insert Positive k (count k m + 1) m (omega arith) h

pub decrement-Positive :
    (k : Text) (m : Counts) → Entries Positive m → Entries Positive (decrement k m)
unfolding decrement
decrement-Positive k m h = elim (Bool-cases (leb (count k m) 1)) [
  | inl one ↦ rw one (Entries-delete Positive k m h)
  | inr more ↦ rw more (Entries-insert Positive k (count k m - 1) m (ground arith) h)
]
