-- ===== src/Ascii/Stabiliser/Near.antt =====
-- internal/ascii/stabiliser.go: what is shown, against what the camera sees.
use termcall.Prelude.{
  ℕ, ◌≡◌, refl, sym, ◌∙◌, ◌↔◌, ◌⊎◌, inl, inr, Bool, true, false, not, ◌||◌, Option, none, some,
  arith, ◌==◌, length, Bool-cases,
}
use mathlib.Core.Path.{subst}
use termcall.Ascii.Cell.{Grid, width}
use termcall.Ascii.Stabiliser.{Stabiliser, steady_rows, keep_grid, steady, stabilise}
use termcall.Ascii.Stabiliser.Suppression.{
  SteadyGrid, NearGrid, Rows, Moderate, steady_rows-SteadyGrid, NearGrid-refl,
}

-- The baseline, if there is one, has the sides that are noted.
abbrev pub Shaped : Stabiliser → Option Grid → Type 0
Shaped s none = Unit
Shaped s (some old) = Rows s.w old × (length old ≡ s.h)

abbrev SameSides : Stabiliser → Grid → Type 0
SameSides s cells = (s.w ≡ width cells) × (s.h ≡ length cells)

-- What is shown: the frame itself without a baseline or with one of other sides.
abbrev pub Suppressed : Stabiliser → Option Grid → Grid → Grid → Type 0
Suppressed s none cells out = out ≡ cells
Suppressed s (some old) cells out =
    (SameSides s cells × SteadyGrid s.threshold cells old out)
    ⊎ ((SameSides s cells → ⊥) × (out ≡ cells))

abbrev pub ModerateBaseline : Option Grid → Type 0
ModerateBaseline none = Unit
ModerateBaseline (some old) = Moderate old

-- A frame that is shown in the place of `cells`, and is the baseline of what follows.
pub record Steadied (s : Stabiliser) (p : Option Grid) (cells : Grid)
    (r : Option (Grid × Stabiliser)) : Type 0 where
  pub out : Grid
  pub after : Stabiliser
  pub answered : r ≡ some (out, after)
  pub suppressed : Suppressed s p cells out
  pub near : NearGrid s.threshold cells out
  pub baseline : after.prev ≡ some out
  pub shaped : Shaped after after.prev
  pub same_threshold : after.threshold ≡ s.threshold

fresh_Steadied :
    (s : Stabiliser) (p : Option Grid) (cells : Grid)
    → Rows (width cells) cells
    → Suppressed s p cells cells
    → Steadied s p cells
        (some (cells, record s { prev = some cells; w = width cells; h = length cells }))
fresh_Steadied s p cells a shown = record {
  out = cells;
  after = record s { prev = some cells; w = width cells; h = length cells };
  answered = refl;
  suppressed = shown;
  near = NearGrid-refl s.threshold cells;
  baseline = refl;
  shaped = (a, refl);
  same_threshold = refl;
}

same_sides : (a b c d : ℕ) → ((not (a == b) || not (c == d)) ≡ false) ↔ ((a ≡ b) × (c ≡ d))
same_sides a b c d = ground arith

kept_Steadied :
    (s : Stabiliser) (cells old : Grid)
    → Rows (width cells) cells
    → Rows s.w old
    → length old ≡ s.h
    → Moderate cells
    → Moderate old
    → SameSides s cells
    → Steadied s (some old) cells (keep_grid s (steady_rows s.threshold (width cells) cells old))
unfolding keep_grid
kept_Steadied s cells old a b l hn ho e =
    let (g, eg, steady, near, rows, lg) =
      steady_rows-SteadyGrid s.threshold (width cells) cells old a (subst (λ k. Rows k old) e.0 b)
        (l ∙ e.1) hn ho in
    record {
      out = g;
      after = record s { prev = some g };
      answered = rw eg refl;
      suppressed = inl (e, steady);
      near = near;
      baseline = refl;
      shaped = (subst (λ k. Rows k g) (sym e.0) rows, lg ∙ sym e.1);
      same_threshold = refl;
    }

steady-Steadied :
    (s : Stabiliser) (p : Option Grid) (cells : Grid)
    → Shaped s p
    → Rows (width cells) cells
    → Moderate cells
    → ModerateBaseline p
    → Steadied s p cells (steady s p cells)
unfolding steady
steady-Steadied s none cells h a hn ho = fresh_Steadied s none cells a refl
steady-Steadied s (some old) cells h a hn ho =
    elim (Bool-cases (not (s.w == width cells) || not (s.h == length cells))) [
      | inl resized ↦ rw resized (
          fresh_Steadied s (some old) cells a (
            inr (
              (λ same. not_both resized ((same_sides s.w (width cells) s.h (length cells)).1 same)),
              refl,
            )))
      | inr same ↦ rw same (
          kept_Steadied s cells old a h.0 h.1 hn ho
            ((same_sides s.w (width cells) s.h (length cells)).0 same))
    ]
  where
    not_both : {t : Bool} → t ≡ true → t ≡ false → ⊥
    not_both a b = cc

-- By a stabiliser whose baseline has the sides that are noted, a rectangular frame is always
-- answered, colours lying between -2^62 and 2^62 in both: with the frame itself if there is no
-- baseline or it has other sides; else cell by cell with the old cell where the new one has its
-- character and both colours within the threshold of it, and with the new one everywhere else. What
-- is shown is the new baseline.
pub stabilise-Steadied :
    (s : Stabiliser) (cells : Grid)
    → Shaped s s.prev
    → Rows (width cells) cells
    → Moderate cells
    → ModerateBaseline s.prev
    → Steadied s s.prev cells (stabilise s cells)
unfolding stabilise
stabilise-Steadied s cells h a hn ho = steady-Steadied s s.prev cells h a hn ho
