-- ===== src/Ascii/Stabiliser/Kept.antt =====
-- internal/ascii/stabiliser.go: the cells that are shown, against the new frame and the baseline.
use termcall.Prelude.{
  ℕ, zero, suc, ◌≡◌, refl, inl, inr, not, ◌||◌, [], ◌∷◌, Option, none, some, ◌==◌, ℤ, All, length,
  Bool-cases, Option-cases,
}
use mathlib.Core.Path.{subst}
use termcall.Ascii.Cell.{Cell, Row, Grid, width}
use termcall.Ascii.Stabiliser.{
  Stabiliser, is_noise, steady_cell, cons_row, cons_grid, steady_row, steady_rows, keep_grid,
  steady, stabilise,
}

same_value {ℓ} : {A : Type ℓ} (a b : A) → some a ≡ some b → a ≡ b
same_value a b h = cc

-- What holds of one result holds of the other.
carry {ℓ κ} : {A : Type ℓ} (Q : A → Type κ) {a b : A} → some a ≡ some b → Q a → Q b
carry Q {a} {b} h q = subst Q (same_value a b h) q

module _ {κ} (P : Cell → Type κ) where
  abbrev pub Cells : Grid → Type κ
  Cells = All (λ (r : Row). All P r)

  abbrev pub Baseline : Option Grid → Type κ
  Baseline none = Unit
  Baseline (some g) = Cells g

  steady_cell-kept : (t : ℤ) (n o : Cell) → P n → P o → P (steady_cell t n o)
  unfolding steady_cell
  steady_cell-kept t n o hn ho = elim (Bool-cases (is_noise t n o)) [
    | inl e ↦ rw e ho
    | inr e ↦ rw e hn
  ]

  steady_row-All :
      (t : ℤ) (w : ℕ) (ns os r : Row)
      → All P ns
      → All P os
      → steady_row t w ns os ≡ some r
      → All P r
  unfolding steady_row cons_row
  steady_row-All t zero ns os r hn ho h = carry (All P) h tt
  steady_row-All t (suc w) [] os r hn ho h = absurd (cc)
  steady_row-All t (suc w) (n ∷ ns) [] r hn ho h = absurd (cc)
  steady_row-All t (suc w) (n ∷ ns) (o ∷ os) r hn ho h =
      elim (Option-cases (steady_row t w ns os)) [
        | inl e ↦ absurd (cc)
        | inr (rest, e) ↦
            carry (All P) (rw e at h)
              (steady_cell-kept t n o hn.0 ho.0, steady_row-All t w ns os rest hn.1 ho.1 e)
      ]

  steady_rows-Cells :
      (t : ℤ) (w : ℕ) (ns os g : Grid)
      → Cells ns
      → Cells os
      → steady_rows t w ns os ≡ some g
      → Cells g
  unfolding steady_rows cons_grid
  steady_rows-Cells t w [] os g hn ho h = carry Cells h tt
  steady_rows-Cells t w (n ∷ ns) [] g hn ho h = absurd (cc)
  steady_rows-Cells t w (n ∷ ns) (o ∷ os) g hn ho h = elim (Option-cases (steady_row t w n o)) [
    | inl e ↦ absurd (cc)
    | inr (r, e) ↦ elim (Option-cases (steady_rows t w ns os)) [
      | inl e' ↦ absurd (cc)
      | inr (rest, e') ↦
          carry Cells (rw (e, e') at h)
            (steady_row-All t w n o r hn.0 ho.0 e, steady_rows-Cells t w ns os rest hn.1 ho.1 e')
    ]
  ]

  keep_grid-Cells :
      (s after : Stabiliser) (g : Option Grid) (out : Grid)
      → ((g' : Grid) → g ≡ some g' → Cells g')
      → keep_grid s g ≡ some (out, after)
      → Cells out
  unfolding keep_grid
  keep_grid-Cells s after none out hg h = absurd (cc)
  keep_grid-Cells s after (some g) out hg h =
      carry (λ (r : Grid × Stabiliser). Cells r.0) h (hg g refl)

  steady-Cells :
      (s after : Stabiliser) (prev : Option Grid) (cells out : Grid)
      → Cells cells
      → Baseline prev
      → steady s prev cells ≡ some (out, after)
      → Cells out
  unfolding steady
  steady-Cells s after none cells out hc hp h = carry (λ (r : Grid × Stabiliser). Cells r.0) h hc
  steady-Cells s after (some old) cells out hc hp h =
      elim (Bool-cases (not (s.w == width cells) || not (s.h == length cells))) [
        | inl resized ↦ carry (λ (r : Grid × Stabiliser). Cells r.0) (rw resized at h) hc
        | inr same ↦
            keep_grid-Cells s after (steady_rows s.threshold (width cells) cells old) out
              (λ g e. steady_rows-Cells s.threshold (width cells) cells old g hc hp e)
              (rw same at h)
      ]

  pub stabilise-Cells :
      (s after : Stabiliser) (cells out : Grid)
      → Cells cells
      → Baseline s.prev
      → stabilise s cells ≡ some (out, after)
      → Cells out
  unfolding stabilise
  stabilise-Cells s after cells out hc hp h = steady-Cells s after s.prev cells out hc hp h
