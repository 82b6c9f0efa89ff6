-- ===== src/Prelude/Int.antt =====
-- Go's `int` as a signed integer over the native numbers; the source's range checks are written out
-- where it makes them.
use Prim.Native.Nat.{ℕ, suc, ◌+◌, ◌-◌, ◌%◌, ◌≤◌, ◌<◌}
use mathlib.Core.Path.{◌≡◌}
use mathlib.Core.Logic.{◌↔◌, ◌⊎◌, inl, inr}
use mathlib.Core.Bool.{Bool, true, false}
use native.Mathlib.Omega.{arith}
use termcall.Prelude.Tests.{Bool-cases, ltb, leb, ◌==◌, if◌then◌else◌}

-- `negsuc n` is -(n + 1).
pub data ℤ : Type 0 where
  pos : ℕ → ℤ
  negsuc : ℕ → ℤ

abbrev pub pos_part : ℤ → ℕ
pos_part (pos n) = n
pos_part (negsuc n) = 0

abbrev pub neg_part : ℤ → ℕ
neg_part (pos n) = 0
neg_part (negsuc n) = suc n

infix 50 ◌≤ℤ◌
abbrev pub ◌≤ℤ◌ : ℤ → ℤ → Type 0
a ≤ℤ b = pos_part a + neg_part b ≤ pos_part b + neg_part a

abbrev pub ltb_ℤ : ℤ → ℤ → Bool
ltb_ℤ a b = ltb (pos_part a + neg_part b) (pos_part b + neg_part a)

abbrev pub eqb_ℤ : ℤ → ℤ → Bool
eqb_ℤ (pos a) (pos b) = a == b
eqb_ℤ (negsuc a) (negsuc b) = a == b
eqb_ℤ (pos a) (negsuc b) = false
eqb_ℤ (negsuc a) (pos b) = false

-- |a - b|.
abbrev pub dist_ℤ : ℤ → ℤ → ℕ
dist_ℤ a b =
    let x = pos_part a + neg_part b in
    let y = pos_part b + neg_part a in if leb y x then x - y else y - x

-- The value of an `int` of 64 bits and the same residue, and Go's `-x` where it is negative: the
-- least value is its own negation.
unfoldable pub abs_int : ℕ → ℤ
abs_int n =
    if ltb n 9223372036854775808
    then pos n
    else if n == 9223372036854775808
    then negsuc 9223372036854775807
    else pos (18446744073709551616 - n)

-- `abs(a - b)` on 64-bit integers, where the difference wraps.
unfoldable pub abs_diff : ℤ → ℤ → ℤ
abs_diff a b = abs_int (
    (pos_part a
      + neg_part b
      + (18446744073709551616 - (pos_part b + neg_part a) % 18446744073709551616))
    % 18446744073709551616)

abs_int_of :
    (n k : ℕ)
    → k < 9223372036854775808
    → (n ≡ k) ⊎ (n + k ≡ 18446744073709551616)
    → abs_int n ≡ pos k
unfolding abs_int
abs_int_of n k h (inl e) = ground arith
abs_int_of n k h (inr e) = ground arith

above :
    (x y : ℕ)
    → y ≤ x
    → x - y < 9223372036854775808
    → (x + (18446744073709551616 - y % 18446744073709551616)) % 18446744073709551616 ≡ x - y
above x y l h = omega arith

below :
    (x y : ℕ)
    → x < y
    → y - x < 9223372036854775808
    → (x + (18446744073709551616 - y % 18446744073709551616)) % 18446744073709551616 + (y - x)
      ≡ 18446744073709551616
below x y l h = omega arith

-- The residue of a small difference is the difference, or what is missing to the modulus.
residue :
    (x y : ℕ)
    → (if leb y x then x - y else y - x) < 9223372036854775808
    → ((x + (18446744073709551616 - y % 18446744073709551616)) % 18446744073709551616
        ≡ (if leb y x then x - y else y - x))
      ⊎ ((x + (18446744073709551616 - y % 18446744073709551616)) % 18446744073709551616
            + (if leb y x then x - y else y - x)
          ≡ 18446744073709551616)
residue x y h = elim (Bool-cases (leb y x)) [
  | inl e ↦ let small = rw e at h in rw e (inl (above x y (ground arith) small))
  | inr e ↦ let small = rw e at h in rw e (inr (below x y (ground arith) small))
]

-- What does not leave 63 bits does not wrap.
pub abs_diff-eq : (a b : ℤ) → dist_ℤ a b < 9223372036854775808 → abs_diff a b ≡ pos (dist_ℤ a b)
unfolding abs_diff
abs_diff-eq a b h =
    abs_int_of _ (dist_ℤ a b) h (residue (pos_part a + neg_part b) (pos_part b + neg_part a) h)

pub eqb_ℤ_iff : (a b : ℤ) → (eqb_ℤ a b ≡ true) ↔ (a ≡ b)
eqb_ℤ_iff a b = ground arith
