-- ===== src/Ascii/Stabiliser.antt =====
-- internal/ascii/stabiliser.go: `Stabiliser`.
--
-- `stabilise` answers none where the source would panic on an index.
pub mod Suppression
pub mod Near
pub mod Kept
mod Tests
use termcall.Prelude.{
  ℕ, zero, suc, ◌≡◌, Bool, true, false, not, ◌&&◌, ◌||◌, List, [], ◌∷◌, Option, none, some, ◌==◌,
  if◌then◌else◌, ℤ, ltb_ℤ, abs_diff, length,
}
use termcall.Ascii.Cell.{Cell, Row, Grid, width}

pub record Stabiliser : Type 0 where
  pub prev : Option Grid
  pub threshold : ℤ
  pub w : ℕ
  pub h : ℕ

unfoldable pub new_stabiliser : ℤ → Stabiliser
new_stabiliser threshold = record { prev = none; threshold = threshold; w = 0; h = 0 }

unfoldable pub reset : Stabiliser → Stabiliser
reset s = record s { prev = none; w = 0; h = 0 }

-- The three tests on a new cell and the old one.
unfoldable pub is_noise : ℤ → Cell → Cell → Bool
is_noise threshold n o =
    not (ltb_ℤ threshold (abs_diff n.fg o.fg))
    && not (ltb_ℤ threshold (abs_diff n.bg o.bg))
    && n.char == o.char

unfoldable pub steady_cell : ℤ → Cell → Cell → Cell
steady_cell threshold n o = if is_noise threshold n o then o else n

cons_row : Cell → Option Row → Option Row
cons_row c none = none
cons_row c (some r) = some (c ∷ r)

cons_grid : Option Row → Option Grid → Option Grid
cons_grid none g = none
cons_grid (some r) none = none
cons_grid (some r) (some g) = some (r ∷ g)

-- The inner loop over w columns, and the outer one over the rows.
unfoldable pub steady_row : ℤ → ℕ → Row → Row → Option Row
unfolding cons_row
steady_row threshold zero ns os = some []
steady_row threshold (suc w) (n ∷ ns) (o ∷ os) =
    cons_row (steady_cell threshold n o) (steady_row threshold w ns os)
steady_row threshold (suc w) [] os = none
steady_row threshold (suc w) (n ∷ ns) [] = none

unfoldable pub steady_rows : ℤ → ℕ → Grid → Grid → Option Grid
unfolding cons_grid
steady_rows threshold w [] old = some []
steady_rows threshold w (r ∷ rs) (o ∷ os) =
    cons_grid (steady_row threshold w r o) (steady_rows threshold w rs os)
steady_rows threshold w (r ∷ rs) [] = none

keep_grid : Stabiliser → Option Grid → Option (Grid × Stabiliser)
keep_grid s none = none
keep_grid s (some out) = some (out, record s { prev = some out })

steady : Stabiliser → Option Grid → Grid → Option (Grid × Stabiliser)
unfolding keep_grid
steady s none cells =
    some (cells, record s { prev = some cells; w = width cells; h = length cells })
steady s (some old) cells =
    if not (s.w == width cells) || not (s.h == length cells)
    then some (cells, record s { prev = some cells; w = width cells; h = length cells })
    else keep_grid s (steady_rows s.threshold (width cells) cells old)

unfoldable pub stabilise : Stabiliser → Grid → Option (Grid × Stabiliser)
unfolding steady
stabilise s cells = steady s s.prev cells
