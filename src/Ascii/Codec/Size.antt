-- ===== src/Ascii/Codec/Size.antt =====
-- internal/ascii/delta.go: the size of an encoded frame against the limit.
use termcall.Prelude.{
  ℕ, ◌+◌, ◌*◌, ◌/◌, ◌≤◌, ◌≡◌, inl, inr, true, List, [], ◌∷◌, ◌++◌, arith, ℤ, pos, negsuc, All,
  All-append, length, length-append, Bool-cases,
}
use termcall.Text.{Bytes}
use termcall.Text.Decimal.{itoa, length-itoa_pos, length-itoa_colour}
use termcall.Text.Lines.{terminated}
use termcall.Ascii.Cell.{Cell, Row, Grid, RenderMode, cell_eq, width}
use termcall.Ascii.Frame.{valid_mode}
use termcall.Ascii.Frame.Valid.{IsCell, IsRow, IsGrid, width-eq}
use termcall.Ascii.Encoder.{key_cell, key_rest, key_row, key_rows, encode_keyframe, frame_header}
use termcall.Ascii.Codec.Changes.{change_body, row_lines, grid_lines}

char_small : (mode : RenderMode) (c : Cell) → IsCell mode c → c.char ≤ 126
char_small mode c v = ground arith

length-key_cell : (mode : RenderMode) (c : Cell) → IsCell mode c → length (key_cell c) ≤ 11
unfolding key_cell
length-key_cell mode c v = omega (
  arith,
  length-append (itoa c.fg) (b',' ∷ (itoa c.bg ++ b',' ∷ itoa (pos c.char))),
  length-append (itoa c.bg) (b',' ∷ itoa (pos c.char)),
  length-itoa_colour c.fg v.fg_low v.fg_high,
  length-itoa_colour c.bg v.bg_low v.bg_high,
  length-itoa_pos 2 c.char (omega (arith, char_small mode c v)),
)

length-key_rest :
    (mode : RenderMode) (cs : Row) → All (IsCell mode) cs → length (key_rest cs) ≤ 12 * length cs
unfolding key_rest
length-key_rest mode [] v = omega arith
length-key_rest mode (c ∷ cs) v = omega (
  arith,
  length-append (key_cell c) (key_rest cs),
  length-key_cell mode c v.0,
  length-key_rest mode cs v.1,
)

length-key_row :
    (mode : RenderMode) (r : Row) → All (IsCell mode) r → length (key_row r) ≤ 12 * length r
unfolding key_row
length-key_row mode [] v = omega arith
length-key_row mode (c ∷ cs) v = omega (
  arith,
  length-append (key_cell c) (key_rest cs),
  length-key_cell mode c v.0,
  length-key_rest mode cs v.1,
)

length-key_rows :
    (mode : RenderMode) (w : ℕ) (rs : Grid)
    → w ≤ 100
    → All (IsRow mode w) rs
    → length (key_rows rs) ≤ 1201 * length rs
unfolding key_rows
length-key_rows mode w [] h v = omega arith
length-key_rows mode w (r ∷ rs) h v = omega (
  arith,
  length-append (key_row r) (b'\n' ∷ key_rows rs),
  length-key_row mode r v.0.1,
  v.0.0,
  length-key_rows mode w rs h v.1,
)

length-frame_header :
    (letter : ℕ) (a b c : ℤ) (k : ℕ)
    → length (itoa a) ≤ k
    → length (itoa b) ≤ k
    → length (itoa c) ≤ k
    → length (frame_header letter a b c) ≤ 5 + 3 * k
unfolding frame_header
length-frame_header letter a b c k ha hb hc = omega (
  arith,
  length-append (itoa a) (32 ∷ (itoa b ++ 32 ∷ (itoa c ++ b'\n' ∷ []))),
  length-append (itoa b) (32 ∷ (itoa c ++ b'\n' ∷ [])),
  length-append (itoa c) (b'\n' ∷ []),
)

length-itoa_side : (n : ℕ) → n ≤ 9999 → length (itoa (pos n)) ≤ 4
length-itoa_side n h = length-itoa_pos 3 n (omega arith)

length-itoa_mode : (mode : RenderMode) → valid_mode mode ≡ true → length (itoa mode) ≤ 4
unfolding valid_mode
length-itoa_mode (pos n) h = length-itoa_side n (ground arith)
length-itoa_mode (negsuc n) h = absurd (ground arith)

abbrev pub size_bound : ℕ
size_bound = 40_000

pub length-encode_keyframe :
    (mode : RenderMode) (w h : ℕ) (cells : Grid)
    → IsGrid mode w h cells
    → length (encode_keyframe mode cells) ≤ size_bound
unfolding encode_keyframe
length-encode_keyframe mode w h cells v = omega (
  arith,
  length-append (frame_header b'K' (pos (width cells)) (pos (length cells)) mode) (key_rows cells),
  length-frame_header b'K' (pos (width cells)) (pos (length cells)) mode 4
      (length-itoa_side (width cells) (omega (arith, width-eq mode w h cells v, v.narrow)))
      (length-itoa_side (length cells) (omega (arith, v.high, v.low)))
      (length-itoa_mode mode v.known_mode),
  length-key_rows mode w cells v.narrow v.rows,
  v.high,
  v.low,
)

length-change_body :
    (mode : RenderMode) (y x : ℕ) (c : Cell)
    → y ≤ 100
    → x ≤ 100
    → IsCell mode c
    → length (change_body y x c) ≤ 19
unfolding change_body
length-change_body mode y x c hy hx v = omega (
  arith,
  length-append (itoa (pos y))
      (32 ∷ (itoa (pos x) ++ 32 ∷ (itoa c.fg ++ 32 ∷ (itoa c.bg ++ 32 ∷ itoa (pos c.char))))),
  length-append (itoa (pos x)) (32 ∷ (itoa c.fg ++ 32 ∷ (itoa c.bg ++ 32 ∷ itoa (pos c.char)))),
  length-append (itoa c.fg) (32 ∷ (itoa c.bg ++ 32 ∷ itoa (pos c.char))),
  length-append (itoa c.bg) (32 ∷ itoa (pos c.char)),
  length-itoa_pos 2 y (omega arith),
  length-itoa_pos 2 x (omega arith),
  length-itoa_colour c.fg v.fg_low v.fg_high,
  length-itoa_colour c.bg v.bg_low v.bg_high,
  length-itoa_pos 2 c.char (omega (arith, char_small mode c v)),
)

abbrev Short : Bytes → Type 0
Short l = length l ≤ 19

row_lines-Short :
    (mode : RenderMode) (y x : ℕ) (cs ps : Row)
    → y ≤ 100
    → x + length cs ≤ 100
    → All (IsCell mode) cs
    → All Short (row_lines y x cs ps)
unfolding row_lines
row_lines-Short mode y x [] ps hy hx v = tt
row_lines-Short mode y x (c ∷ cs) [] hy hx v = tt
row_lines-Short mode y x (c ∷ cs) (p ∷ ps) hy hx v =
    let rest = row_lines-Short mode y (x + 1) cs ps hy (omega arith) v.1 in
    elim (Bool-cases (cell_eq c p)) [
      | inl same ↦ rw same rest
      | inr new ↦ rw new (length-change_body mode y x c hy (omega arith) v.0, rest)
    ]

grid_lines-Short :
    (mode : RenderMode) (w y : ℕ) (rs prs : Grid)
    → w ≤ 100
    → y + length rs ≤ 100
    → All (IsRow mode w) rs
    → All Short (grid_lines y rs prs)
unfolding grid_lines
grid_lines-Short mode w y [] prs hw hy v = tt
grid_lines-Short mode w y (r ∷ rs) [] hw hy v = tt
grid_lines-Short mode w y (r ∷ rs) (pr ∷ prs) hw hy v =
    All-append Short (row_lines y 0 r pr) _
      (row_lines-Short mode y 0 r pr (omega arith) (omega (arith, v.0.0)) v.0.1)
      (grid_lines-Short mode w (y + 1) rs prs hw (omega arith) v.1)

length-terminated : (ls : List Bytes) → All Short ls → length (terminated ls) ≤ 20 * length ls
unfolding terminated
length-terminated [] h = omega arith
length-terminated (l ∷ ls) h =
    omega (arith, length-append l (b'\n' ∷ terminated ls), h.0, length-terminated ls h.1)

pub length-delta :
    (mode : RenderMode) (w h : ℕ) (cells prev : Grid)
    → IsGrid mode w h cells
    → length (grid_lines 0 cells prev) ≤ w * h / 2
    → length (
        frame_header b'D' (pos w) (pos h) (pos (length (grid_lines 0 cells prev)))
        ++ terminated (grid_lines 0 cells prev))
      ≤ size_bound
length-delta mode w h cells prev v few =
    let ls = grid_lines 0 cells prev in
    let area : w * h ≤ 100 * 30 = grind (arith, v.narrow, v.low) in
    omega (
      arith,
      length-append (frame_header b'D' (pos w) (pos h) (pos (length ls))) (terminated ls),
      length-frame_header b'D' (pos w) (pos h) (pos (length ls)) 4
          (length-itoa_side w (omega (arith, v.narrow))) (length-itoa_side h (omega (arith, v.low)))
          (length-itoa_side (length ls) (omega (arith, area, few))),
      length-terminated ls
          (grid_lines-Short mode w 0 cells prev v.narrow (omega (arith, v.high, v.low)) v.rows),
      few,
      area,
    )
