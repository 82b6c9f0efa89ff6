-- ===== src/Ascii/Stabiliser/Tests.antt =====
-- The stabiliser at two frames of one cell.
use termcall.Prelude.{◌≡◌, refl, arith, abs_diff, abs_int, [], ◌∷◌, some, pos}
use termcall.Ascii.Cell.{Cell}
use termcall.Ascii.Stabiliser.{
  Stabiliser, stabilise, steady_rows, steady_row, steady_cell, is_noise,
}
use termcall.Ascii.Stabiliser.Near.{Steadied, stabilise-Steadied}

abbrev old : Cell
old = record { char = 64; fg = pos 12; bg = pos 0 }

abbrev new : Cell
new = record { char = 64; fg = pos 13; bg = pos 0 }

abbrev seen : Stabiliser
seen = record { prev = some ((old ∷ []) ∷ []); threshold = pos 2; w = 1; h = 1 }

noise_kept : stabilise seen ((new ∷ []) ∷ []) ≡ some ((old ∷ []) ∷ [], seen)
unfolding stabilise steady_rows steady_row steady_cell is_noise abs_diff abs_int
noise_kept = refl

stabilise-Steadied_example :
    Steadied seen (some ((old ∷ []) ∷ [])) ((new ∷ []) ∷ []) (stabilise seen ((new ∷ []) ∷ []))
stabilise-Steadied_example =
    stabilise-Steadied seen ((new ∷ []) ∷ []) ((refl, tt), refl) (refl, tt) (ground arith)
      (ground arith)
