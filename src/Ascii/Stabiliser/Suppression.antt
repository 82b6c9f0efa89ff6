-- ===== src/Ascii/Stabiliser/Suppression.antt =====
-- internal/ascii/stabiliser.go: the cell that is shown, against the old one and the new one.
use termcall.Prelude.{
  ℕ, zero, suc, ◌<◌, ◌≤◌, ◌≡◌, refl, ap, ◌⊎◌, ◌↔◌, inl, inr, true, false, [], ◌∷◌, some, arith, ℤ,
  pos, pos_part, neg_part, ◌≤ℤ◌, dist_ℤ, abs_diff, abs_diff-eq, length, All, Bool-cases,
}
use termcall.Ascii.Cell.{Cell, Row, Grid}
use termcall.Ascii.Stabiliser.{
  is_noise, steady_cell, cons_row, cons_grid, steady_row, steady_rows, steady,
}

-- A new cell beside the old one: the same character, and colours within the threshold.
abbrev pub Close : ℤ → Cell → Cell → Type 0
Close t n o = (n.char ≡ o.char) × (pos (dist_ℤ n.fg o.fg) ≤ℤ t) × (pos (dist_ℤ n.bg o.bg) ≤ℤ t)

-- What is shown for a new cell and the old one: noise is the old cell, motion the new one.
abbrev pub IsSteady : ℤ → Cell → Cell → Cell → Type 0
IsSteady t n o c = (Close t n o × (c ≡ o)) ⊎ ((Close t n o → ⊥) × (c ≡ n))

abbrev pub SteadyRow : ℤ → Row → Row → Row → Type 0
SteadyRow t (n ∷ ns) (o ∷ os) (c ∷ cs) = IsSteady t n o c × SteadyRow t ns os cs
SteadyRow t [] [] [] = Unit
SteadyRow t _ _ _ = ⊥

abbrev pub SteadyGrid : ℤ → Grid → Grid → Grid → Type 0
SteadyGrid t (n ∷ ns) (o ∷ os) (c ∷ cs) = SteadyRow t n o c × SteadyGrid t ns os cs
SteadyGrid t [] [] [] = Unit
SteadyGrid t _ _ _ = ⊥

-- Colours between -2^62 and 2^62: no difference wraps.
abbrev pub InRange : ℤ → Type 0
InRange z = (pos_part z < 4611686018427387904) × (neg_part z ≤ 4611686018427387904)

abbrev pub IsModerate : Cell → Type 0
IsModerate c = InRange c.fg × InRange c.bg

-- The cell itself, or one beside it.
abbrev pub IsNear : ℤ → Cell → Cell → Type 0
IsNear t n c = (c ≡ n) ⊎ Close t n c

abbrev pub NearRow : ℤ → Row → Row → Type 0
NearRow t [] [] = Unit
NearRow t (n ∷ ns) (c ∷ cs) = IsNear t n c × NearRow t ns cs
NearRow t [] (c ∷ cs) = ⊥
NearRow t (n ∷ ns) [] = ⊥

abbrev pub NearGrid : ℤ → Grid → Grid → Type 0
NearGrid t [] [] = Unit
NearGrid t (n ∷ ns) (c ∷ cs) = NearRow t n c × NearGrid t ns cs
NearGrid t [] (c ∷ cs) = ⊥
NearGrid t (n ∷ ns) [] = ⊥

abbrev pub Rows : ℕ → Grid → Type 0
Rows w = All (λ (r : Row). length r ≡ w)

abbrev pub Moderate : Grid → Type 0
Moderate = All (λ (r : Row). All IsModerate r)

in_range : (a b : ℤ) → InRange a → InRange b → abs_diff a b ≡ pos (dist_ℤ a b)
in_range a b ha hb = abs_diff-eq a b (ground arith)

is_noise-Close :
    (t : ℤ) (n o : Cell) → IsModerate n → IsModerate o → (is_noise t n o ≡ true) ↔ Close t n o
unfolding is_noise
is_noise-Close t n o hn ho =
    rw (in_range n.fg o.fg hn.0 ho.0, in_range n.bg o.bg hn.1 ho.1) (ground arith)

steady_cell-IsSteady :
    (t : ℤ) (n o : Cell)
    → IsModerate n
    → IsModerate o
    → IsSteady t n o (steady_cell t n o) × IsNear t n (steady_cell t n o)
unfolding steady_cell
steady_cell-IsSteady t n o hn ho = elim (Bool-cases (is_noise t n o)) [
  | inl noise ↦
      let close : Close t n o = (is_noise-Close t n o hn ho).0 noise in
      rw noise (inl (close, refl), inr close)
  | inr motion ↦
      rw motion (inr ((λ h. not_both motion ((is_noise-Close t n o hn ho).1 h)), refl), inl refl)
]
  where
    not_both : is_noise t n o ≡ false → is_noise t n o ≡ true → ⊥
    not_both a b = cc

steady_row-SteadyRow :
    (t : ℤ) (w : ℕ) (ns os : Row)
    → length ns ≡ w
    → length os ≡ w
    → All IsModerate ns
    → All IsModerate os
    → (r : Row) × (steady_row t w ns os ≡ some r)
      × SteadyRow t ns os r
      × NearRow t ns r
      × (length r ≡ w)
unfolding steady_row cons_row
steady_row-SteadyRow t zero [] [] a b hn ho = ([], refl, tt, tt, refl)
steady_row-SteadyRow t zero [] (o ∷ os) a b hn ho = absurd (omega arith)
steady_row-SteadyRow t zero (n ∷ ns) os a b hn ho = absurd (omega arith)
steady_row-SteadyRow t (suc w) [] os a b hn ho = absurd (omega arith)
steady_row-SteadyRow t (suc w) (n ∷ ns) [] a b hn ho = absurd (omega arith)
steady_row-SteadyRow t (suc w) (n ∷ ns) (o ∷ os) a b hn ho =
    let (r, e, steady, near, l) =
      steady_row-SteadyRow t w ns os (omega arith) (omega arith) hn.1 ho.1 in
    let (s, k) = steady_cell-IsSteady t n o hn.0 ho.0 in
    (steady_cell t n o ∷ r, rw e refl, (s, steady), (k, near), ap suc l)

pub steady_rows-SteadyGrid :
    (t : ℤ) (w : ℕ) (ns os : Grid)
    → Rows w ns
    → Rows w os
    → length os ≡ length ns
    → Moderate ns
    → Moderate os
    → (g : Grid) × (steady_rows t w ns os ≡ some g)
      × SteadyGrid t ns os g
      × NearGrid t ns g
      × Rows w g
      × (length g ≡ length ns)
unfolding steady_rows cons_grid
steady_rows-SteadyGrid t w [] [] a b e hn ho = ([], refl, tt, tt, tt, refl)
steady_rows-SteadyGrid t w [] (o ∷ os) a b e hn ho = absurd (omega arith)
steady_rows-SteadyGrid t w (n ∷ ns) [] a b e hn ho = absurd (omega arith)
steady_rows-SteadyGrid t w (n ∷ ns) (o ∷ os) a b e hn ho =
    let (r, er, steady, near, l) = steady_row-SteadyRow t w n o a.0 b.0 hn.0 ho.0 in
    let (g, eg, steadies, nears, ls, lg) =
      steady_rows-SteadyGrid t w ns os a.1 b.1 (omega arith) hn.1 ho.1 in
    (r ∷ g, rw (er, eg) refl, (steady, steadies), (near, nears), (l, ls), ap suc lg)

NearRow-refl : (t : ℤ) (r : Row) → NearRow t r r
NearRow-refl t [] = tt
NearRow-refl t (c ∷ r) = (inl refl, NearRow-refl t r)

pub NearGrid-refl : (t : ℤ) (g : Grid) → NearGrid t g g
NearGrid-refl t [] = tt
NearGrid-refl t (r ∷ g) = (NearRow-refl t r, NearGrid-refl t g)
