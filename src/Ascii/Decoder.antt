-- ===== src/Ascii/Decoder.antt =====
-- internal/ascii/delta.go: `DeltaDecoder`. An error leaves the decoder as it was: each function
-- returns the new decoder or the error.
use termcall.Prelude.{
  ℕ, ◌+◌, ◌*◌, Bool, true, false, not, ◌&&◌, ◌||◌, List, [], ◌∷◌, ltb, ◌==◌, if◌then◌else◌, ℤ, pos,
  pos_part, ltb_ℤ, Result, ok, err, ◌>>=◌, ◌>>◌, guard, length, set,
}
use termcall.Text.{Bytes}
use termcall.Text.Split.{split}
use termcall.Text.Fields.{fields}
use termcall.Ascii.Cell.{Cell, Row, Grid, RenderMode, mode_ascii}
use termcall.Ascii.Frame.{
  FrameError, frame_too_large, malformed_frame, unsupported_frame, missing_keyframe,
  invalid_frame_value, max_encoded_frame_bytes, valid_mode, validate_dimensions, parse_int,
  parse_cell, parse_cell_fields, split_frame, payload_lines,
}

pub record DeltaDecoder : Type 0 where
  pub grid : Grid
  pub w : ℕ
  pub h : ℕ
  pub mode : RenderMode
  pub has : Bool

unfoldable pub new_delta_decoder : DeltaDecoder
new_delta_decoder = record { grid = []; w = 0; h = 0; mode = mode_ascii; has = false }

-- The three numbers of a header that begins with `letter`.
header_fields : ℕ → List Bytes → Result FrameError (ℤ × ℤ × ℤ)
header_fields letter ((l ∷ []) ∷ a ∷ b ∷ c ∷ []) = do
  guard (l == letter) malformed_frame
  w ← parse_int a
  h ← parse_int b
  n ← parse_int c
  ok (w, h, n)
header_fields letter _ = err malformed_frame

unfoldable pub parse_header : ℕ → Bytes → Result FrameError (ℤ × ℤ × ℤ)
unfolding header_fields
parse_header letter header = header_fields letter (fields header)

unfoldable pub decode_row : RenderMode → List Bytes → Result FrameError Row
decode_row mode [] = ok []
decode_row mode (encoded ∷ rest) = do
  cell ← parse_cell encoded mode
  row ← decode_row mode rest
  ok (cell ∷ row)

unfoldable pub decode_rows : ℕ → RenderMode → List Bytes → Result FrameError Grid
decode_rows w mode [] = ok []
decode_rows w mode (line ∷ lines) = do
  let encoded = split b';' line
  guard (length encoded == w) malformed_frame
  row ← decode_row mode encoded
  grid ← decode_rows w mode lines
  ok (row ∷ grid)

unfoldable pub decode_keyframe : Bytes → Result FrameError DeltaDecoder
decode_keyframe text = do
  (header, body) ← split_frame text
  (w, h, mode) ← parse_header b'K' header
  validate_dimensions w h
  guard (valid_mode mode) invalid_frame_value
  let lines = payload_lines body
  guard (length lines == pos_part h) malformed_frame
  grid ← decode_rows (pos_part w) mode lines
  ok (record { grid = grid; w = pos_part w; h = pos_part h; mode = mode; has = true })

-- `seen`, the indices of the cells changed so far.
unfoldable pub contains : List ℕ → ℕ → Bool
contains [] i = false
contains (j ∷ js) i = j == i || contains js i

-- `grid[row][col] = cell`, done only at a position that was checked.
unfoldable pub set_cell : Grid → ℕ → ℕ → Cell → Grid
set_cell [] y x c = []
set_cell (r ∷ rs) ℕ.zero x c = set r x c ∷ rs
set_cell (r ∷ rs) (ℕ.suc y) x c = r ∷ set_cell rs y x c

abbrev pub is_inside : DeltaDecoder → ℤ → ℤ → Bool
is_inside d row col =
    not (ltb_ℤ row (pos 0)) && ltb_ℤ row (pos d.h) && not (ltb_ℤ col (pos 0)) && ltb_ℤ col (pos d.w)

abbrev pub is_new : DeltaDecoder → List ℕ → ℤ → ℤ → Bool
is_new d seen row col = not (contains seen (pos_part row * d.w + pos_part col))

-- A change: its row, its column, and its cell.
unfoldable pub change_fields : DeltaDecoder → List ℕ → List Bytes → Result FrameError (ℕ × ℕ × Cell)
change_fields d seen (a ∷ b ∷ f ∷ g ∷ ch ∷ []) = do
  row ← parse_int a
  col ← parse_int b
  guard (is_inside d row col) invalid_frame_value
  guard (is_new d seen row col) malformed_frame
  cell ← parse_cell_fields f g ch d.mode
  ok (pos_part row, pos_part col, cell)
change_fields d seen _ = err malformed_frame

unfoldable pub parse_change : DeltaDecoder → List ℕ → Bytes → Result FrameError (ℕ × ℕ × Cell)
unfolding change_fields
parse_change d seen line = change_fields d seen (fields line)

-- The sides `w`, `h` of the header are those of the decoder, as was checked.
unfoldable pub apply_changes : DeltaDecoder → List ℕ → Grid → List Bytes → Result FrameError Grid
apply_changes d seen grid [] = ok grid
apply_changes d seen grid (line ∷ lines) = do
  (row, col, cell) ← parse_change d seen line
  apply_changes d ((row * d.w + col) ∷ seen) (set_cell grid row col cell) lines

-- With no change announced, the one empty line of an empty body is none.
unfoldable pub change_lines : ℤ → List Bytes → List Bytes
change_lines (pos ℕ.zero) ([] ∷ []) = []
change_lines count lines = lines

unfoldable pub decode_delta : DeltaDecoder → Bytes → Result FrameError DeltaDecoder
unfolding change_lines
decode_delta d text = do
  (header, body) ← split_frame text
  (w, h, count) ← parse_header b'D' header
  validate_dimensions w h
  guard (not (ltb_ℤ count (pos 0)) && not (ltb_ℤ (pos (pos_part w * pos_part h)) count))
      invalid_frame_value
  guard (d.has && d.w == pos_part w && d.h == pos_part h && not (length d.grid == 0))
      missing_keyframe
  let lines = change_lines count (payload_lines body)
  guard (length lines == pos_part count) malformed_frame
  grid ← apply_changes d [] d.grid lines
  ok (record d { grid = grid })

unfoldable pub decode_kind : DeltaDecoder → Bytes → Result FrameError DeltaDecoder
decode_kind d [] = err malformed_frame
decode_kind d (c ∷ s) =
    if c == b'K'
    then decode_keyframe (c ∷ s)
    else if c == b'D'
    then decode_delta d (c ∷ s)
    else err unsupported_frame

-- The cells and the mode that are returned are those of the new decoder.
unfoldable pub decode_cells : DeltaDecoder → Bytes → Result FrameError DeltaDecoder
unfolding decode_kind
decode_cells d text = do
  guard (not (length text == 0)) malformed_frame
  guard (not (ltb max_encoded_frame_bytes (length text))) frame_too_large
  decode_kind d text
