-- ===== src/Ascii/Codec/Changes.antt =====
-- The lines of a delta: what the encoder writes for each changed cell, and what the decoder makes
-- of one.
use termcall.Prelude.{
  ℕ, ◌+◌, ◌*◌, ◌≤◌, ◌<◌, ◌≡◌, refl, ap, ◌∙◌, if◌then◌else◌, false, List, [], ◌∷◌, ◌++◌,
  append_assoc, Option, some, arith, pos, ok, All-append, length, length-append,
}
use termcall.Text.{Bytes}
use termcall.Text.Decimal.{itoa}
use termcall.Text.Split.{Lacks}
use termcall.Text.Fields.{fields}
use termcall.Text.Numerals.{itoa-Lacks, fields-itoa, fields-itoa_last}
use termcall.Text.Lines.{terminated}
use termcall.Ascii.Cell.{Cell, Row, Grid, cell_eq}
use termcall.Ascii.Frame.Valid.{IsCell, parse_cell_fields-itoa, parse_int-itoa_pos}
use termcall.Ascii.Encoder.{change_line, delta_row, delta_rows}
use termcall.Ascii.Decoder.{DeltaDecoder, contains, parse_change}

-- A change without its newline.
unfoldable pub change_body : ℕ → ℕ → Cell → Bytes
change_body y x c =
    itoa (pos y)
    ++ 32 ∷ (itoa (pos x) ++ 32 ∷ (itoa c.fg ++ 32 ∷ (itoa c.bg ++ 32 ∷ itoa (pos c.char))))

change_line-eq :
    (y x : ℕ) (c : Cell) (s : Bytes) → change_line y x c ++ s ≡ change_body y x c ++ b'\n' ∷ s
unfolding change_line change_body
change_line-eq y x c s = simp append_assoc

pub change_body-Lacks : (y x : ℕ) (c : Cell) → Lacks b'\n' (change_body y x c)
unfolding change_body
change_body-Lacks y x c = All-append _ (itoa (pos y)) _ (itoa-Lacks b'\n' (pos y) (omega arith)) (
  omega arith,
  All-append _ (itoa (pos x)) _ (itoa-Lacks b'\n' (pos x) (omega arith)) (
    omega arith,
    All-append _ (itoa c.fg) _ (itoa-Lacks b'\n' c.fg (omega arith)) (
      omega arith,
      All-append _ (itoa c.bg) _ (itoa-Lacks b'\n' c.bg (omega arith))
          (omega arith, itoa-Lacks b'\n' (pos c.char) (omega arith)),
    ),
  ),
)

abbrev cons_field : Bytes → List Bytes → List Bytes
cons_field w ws = w ∷ ws

fields-change_body :
    (y x : ℕ) (c : Cell)
    → fields (change_body y x c)
      ≡ itoa (pos y) ∷ itoa (pos x) ∷ itoa c.fg ∷ itoa c.bg ∷ itoa (pos c.char) ∷ []
unfolding change_body
fields-change_body y x c =
    fields-itoa (pos y) _
    ∙ ap (cons_field (itoa (pos y))) (
        fields-itoa (pos x) _
        ∙ ap (cons_field (itoa (pos x))) (
            fields-itoa c.fg _
            ∙ ap (cons_field (itoa c.fg))
                (fields-itoa c.bg _ ∙ ap (cons_field (itoa c.bg)) (fields-itoa_last (pos c.char)))))

-- A change inside the grid, at a place not seen before, is read back.
pub parse_change-change_body :
    (d : DeltaDecoder) (seen : List ℕ) (y x : ℕ) (c : Cell)
    → y < d.h
    → x < d.w
    → y ≤ 1_000_000
    → x ≤ 1_000_000
    → IsCell d.mode c
    → contains seen (y * d.w + x) ≡ false
    → parse_change d seen (change_body y x c) ≡ ok (y, x, c)
unfolding parse_change
parse_change-change_body d seen y x c hy hx by bx v new =
    rw (fields-change_body y x c, parse_int-itoa_pos y by, parse_int-itoa_pos x bx)
      (ground (arith, parse_cell_fields-itoa c d.mode v))

-- The lines of the changes of one row, and of all rows.
unfoldable pub row_lines : ℕ → ℕ → Row → Row → List Bytes
row_lines y x [] ps = []
row_lines y x (c ∷ cs) [] = []
row_lines y x (c ∷ cs) (p ∷ ps) =
    let rest = row_lines y (x + 1) cs ps in if cell_eq c p then rest else change_body y x c ∷ rest

unfoldable pub grid_lines : ℕ → Grid → Grid → List Bytes
grid_lines y [] prs = []
grid_lines y (r ∷ rs) [] = []
grid_lines y (r ∷ rs) (pr ∷ prs) = row_lines y 0 r pr ++ grid_lines (y + 1) rs prs

abbrev announced : List Bytes → Option (Bytes × ℕ)
announced ls = some (terminated ls, length ls)

delta_row-lines :
    (y x : ℕ) (cs ps : Row)
    → length cs ≡ length ps
    → delta_row y x cs ps ≡ announced (row_lines y x cs ps)
unfolding delta_row row_lines terminated
delta_row-lines y x [] ps h = refl
delta_row-lines y x (c ∷ cs) [] h = absurd (omega arith)
delta_row-lines y x (c ∷ cs) (p ∷ ps) h =
    rw (delta_row-lines y (x + 1) cs ps (omega arith))
      (ground (arith, change_line-eq y x c (terminated (row_lines y (x + 1) cs ps))))

terminated-append : (ks ls : List Bytes) → terminated (ks ++ ls) ≡ terminated ks ++ terminated ls
unfolding terminated
terminated-append [] ls = refl
terminated-append (k ∷ ks) ls = simp (terminated-append ks ls, append_assoc)

-- Rows and grids of the same shape.
abbrev pub SameShape : Grid → Grid → Type 0
SameShape [] [] = Unit {0}
SameShape [] (p ∷ ps) = ⊥
SameShape (r ∷ rs) [] = ⊥
SameShape (r ∷ rs) (p ∷ ps) = (length r ≡ length p) × SameShape rs ps

pub delta_rows-lines :
    (y : ℕ) (rs prs : Grid)
    → SameShape rs prs
    → delta_rows y rs prs ≡ announced (grid_lines y rs prs)
unfolding delta_rows grid_lines
delta_rows-lines y [] [] h = unfold terminated in refl
delta_rows-lines y [] (p ∷ ps) h = absurd h
delta_rows-lines y (r ∷ rs) [] h = absurd h
delta_rows-lines y (r ∷ rs) (pr ∷ prs) h = rw (
  delta_row-lines y 0 r pr h.0,
  delta_rows,
  delta_rows-lines (y + 1) rs prs h.1,
  terminated-append (row_lines y 0 r pr) (grid_lines (y + 1) rs prs),
  length-append (row_lines y 0 r pr) (grid_lines (y + 1) rs prs),
)
