-- ===== src/Ascii/Serialise/Tests.antt =====
-- internal/ascii: a small picture, written out.
use termcall.Text.Decimal.{itoa}
use termcall.Prelude.{◌≡◌, refl, arith, [], ◌∷◌, ◌++◌, some, pos, true, false}
use termcall.Text.{codes}
use termcall.Ascii.Cell.{Cell, Row, mode_color256}
use termcall.Ascii.Serialise.{
  unset, serialise_mode, serialise_writes, join_rows, text_of_writes, color256_row,
}
use termcall.Ascii.Serialise.Whole.{IsDrawn, Drawable, look_in, serialise_mode-IsDrawn}

abbrev letter : Cell
letter = record { char = b'a'; fg = pos 7; bg = unset }

abbrev blank : Cell
blank = record { char = b' '; fg = unset; bg = unset }

abbrev first_row : Row
first_row = letter ∷ blank ∷ []

abbrev last_row : Row
last_row = letter ∷ letter ∷ []

letter-Drawable : Drawable 1 letter
letter-Drawable = ((omega arith, omega arith), λ e. omega arith)

blank-Drawable : Drawable 1 blank
blank-Drawable = ((omega arith, omega arith), no_colour)
  where
    no_colour : true ≡ false → ⊥
    no_colour e = cc

serialise_mode-IsDrawn_example :
    IsDrawn
      (look_in 1)
      (first_row ∷ last_row ∷ [])
      (serialise_mode (first_row ∷ last_row ∷ []) mode_color256)
serialise_mode-IsDrawn_example =
    serialise_mode-IsDrawn 1 first_row (last_row ∷ []) (omega arith) (refl, (refl, tt))
      ((letter-Drawable, (blank-Drawable, tt)), ((letter-Drawable, (letter-Drawable, tt)), tt))

color256_text :
    serialise_mode (first_row ∷ last_row ∷ []) mode_color256
    ≡ some (
        27 ∷ codes "[38;5;7ma"
        ++ (27 ∷ codes "[0m "
            ++ (27 ∷ codes "[0m" ++ (b'\n' ∷ 27 ∷ codes "[38;5;7maa" ++ (27 ∷ codes "[0m")))))
unfolding serialise_mode itoa serialise_writes join_rows text_of_writes color256_row
color256_text = refl
