-- ===== src/Ascii/Serialise.antt =====
-- internal/ascii: `serialiseASCII` of ascii.go, `serialiseColor256` of color256.go,
-- `serialiseHalfBlock` of halfblock.go and `SerialiseMode` of renderer.go.
--
-- A serialiser gives its writes in order, and `text_of_writes` the text that they make. `none` is a
-- run-time panic, on a row that is shorter than the first one.
pub mod Drawn
pub mod Terminal
pub mod Whole
mod Tests
use Prim.Native.String.{String}
use termcall.Prelude.{
  ℕ, zero, suc, ◌&&◌, not, List, [], ◌∷◌, ◌++◌, Option, none, some, ◌==◌, if◌then◌else◌, ℤ, pos,
  negsuc, eqb_ℤ,
}
use termcall.Text.{Bytes, codes}
use termcall.Text.Decimal.{itoa}
use termcall.Text.Utf8.{encode_rune}
use termcall.Ascii.Cell.{
  Cell, Row, Grid, RenderMode, mode_ascii, mode_color256, mode_half_block, width,
}

pub data Write : Type 0 where
  clear line_break : Write
  foreground background : ℤ → Write
  -- A byte, and the half block.
  char : ℕ → Write
  half_block : Write

abbrev pub unset : ℤ
unset = negsuc 0

unfoldable pub text_of_write : Write → Bytes
text_of_write clear = 27 ∷ codes "[0m"
text_of_write line_break = b'\n' ∷ []
text_of_write (foreground n) = 27 ∷ (codes "[38;5;" ++ (itoa n ++ codes "m"))
text_of_write (background n) = 27 ∷ (codes "[48;5;" ++ (itoa n ++ codes "m"))
text_of_write (char c) = c ∷ []
text_of_write half_block = encode_rune 0x2584

unfoldable pub text_of_writes : List Write → Bytes
unfolding text_of_write
text_of_writes [] = []
text_of_writes (w ∷ ws) = text_of_write w ++ text_of_writes ws

-- `cells[y][x]` for the columns of the first row.
take_row : ℕ → Row → Option Row
take_row zero r = some []
take_row (suc w) [] = none
take_row (suc w) (c ∷ r) = elim (take_row w r) [ none ↦ none | some rest ↦ some (c ∷ rest) ]

unfoldable pub ascii_row : Row → List Write
ascii_row [] = []
ascii_row (c ∷ cs) = char c.char ∷ ascii_row cs

clear_unless : ℤ → List Write
clear_unless last = if eqb_ℤ last unset then [] else clear ∷ []

-- `last` is the foreground written last.
unfoldable pub color256_row : ℤ → Row → List Write
unfolding clear_unless
color256_row last [] = []
color256_row last (c ∷ cs) =
    let blank = color256_row unset cs in
    let coloured = color256_row c.fg cs in
    if c.char == 32
    then clear_unless last ++ char 32 ∷ blank
    else (if eqb_ℤ c.fg last then [] else foreground c.fg ∷ []) ++ char c.char ∷ coloured

clear_unless_both : ℤ → ℤ → List Write
clear_unless_both last_bg last_fg =
    if eqb_ℤ last_bg unset && eqb_ℤ last_fg unset then [] else clear ∷ []

unfoldable pub half_block_row : ℤ → ℤ → Row → List Write
unfolding clear_unless_both
half_block_row last_bg last_fg [] = []
half_block_row last_bg last_fg (c ∷ cs) =
    let blank = half_block_row unset unset cs in
    let coloured = half_block_row c.bg c.fg cs in
    if c.char == 32
    then clear_unless_both last_bg last_fg ++ char 32 ∷ blank
    else (if eqb_ℤ c.bg last_bg then [] else background c.bg ∷ [])
      ++ ((if eqb_ℤ c.fg last_fg then [] else foreground c.fg ∷ []) ++ half_block ∷ coloured)

-- The rows, with `between` behind each but the last, and `behind` that one.
unfoldable pub join_rows :
    (Row → List Write) → List Write → List Write → ℕ → Grid → Option (List Write)
unfolding take_row
join_rows row between behind w [] = some []
join_rows row between behind w (r ∷ []) = elim (take_row w r) [
  | none ↦ none
  | some cells ↦ some (row cells ++ behind)
]
join_rows row between behind w (r ∷ s ∷ rs) = elim (take_row w r) [
  | none ↦ none
  | some cells ↦ elim (join_rows row between behind w (s ∷ rs)) [
    | none ↦ none
    | some rest ↦ some (row cells ++ (between ++ rest))
  ]
]

-- What each mode writes; an unknown one writes nothing.
unfoldable pub serialise_writes : Grid → RenderMode → Option (List Write)
serialise_writes cells mode =
    if eqb_ℤ mode mode_ascii
    then join_rows ascii_row (line_break ∷ []) [] (width cells) cells
    else if eqb_ℤ mode mode_color256
    then join_rows (color256_row unset) (clear ∷ line_break ∷ []) (clear ∷ []) (width cells) cells
    else if eqb_ℤ mode mode_half_block
    then join_rows (half_block_row unset unset) (clear ∷ line_break ∷ []) (clear ∷ []) (width cells)
        cells
    else some []

text_of_result : Option (List Write) → Option Bytes
text_of_result none = none
text_of_result (some ws) = some (text_of_writes ws)

unfoldable pub serialise_mode : Grid → RenderMode → Option Bytes
unfolding text_of_result
serialise_mode cells mode = text_of_result (serialise_writes cells mode)
