-- ===== src/Ascii/Frame.antt =====
-- internal/ascii/delta.go: limits, errors, and what encoder and decoder share.
pub mod Valid
use termcall.Prelude.{
  ℕ, ◌+◌, ◌*◌, ◌%◌, ◌≡◌, refl, Bool, true, false, not, ◌&&◌, ◌||◌, List, [], ◌∷◌, Option, ltb, leb,
  ◌==◌, if◌then◌else◌, ℤ, pos, negsuc, pos_part, ltb_ℤ, eqb_ℤ, Result, ok, err, ◌>>=◌, ◌>>◌, guard,
  or_fail, length,
}
use termcall.Text.{Bytes}
use termcall.Text.Decimal.{itoa, atoi}
use termcall.Text.Split.{split, cut_byte, trim_newline}
use termcall.Ascii.Cell.{Cell, Row, Grid, RenderMode, mode_ascii, mode_half_block, width}

abbrev pub max_frame_width : ℕ
max_frame_width = 100

abbrev pub max_frame_height : ℕ
max_frame_height = 30

abbrev pub max_frame_cells : ℕ
max_frame_cells = max_frame_width * max_frame_height

abbrev pub max_encoded_frame_bytes : ℕ
max_encoded_frame_bytes = 128 * 1024

-- The message of a wrapped error is left out.
pub data FrameError : Type 0 where
  frame_too_large malformed_frame unsupported_frame missing_keyframe invalid_frame_value :
      FrameError

unfoldable pub valid_mode : RenderMode → Bool
valid_mode mode = not (ltb_ℤ mode mode_ascii) && not (ltb_ℤ mode_half_block mode)

-- `w*h` is computed only for sides within the bounds, so it does not overflow.
unfoldable pub validate_dimensions : ℤ → ℤ → Result FrameError (Unit {0})
validate_dimensions w h =
    let is_positive = ltb_ℤ (pos 0) w && ltb_ℤ (pos 0) h in
    let is_within_bounds =
      not (ltb_ℤ (pos max_frame_width) w) && not (ltb_ℤ (pos max_frame_height) h) in
    if not is_positive || not is_within_bounds || ltb max_frame_cells (pos_part w * pos_part h)
    then err frame_too_large
    else ok tt

unfoldable pub parse_int : Bytes → Result FrameError ℤ
parse_int value = or_fail malformed_frame (atoi value)

-- The tests on the three parsed numbers; `byte(charInt)` keeps the low eight bits.
unfoldable pub check_cell : ℤ → ℤ → ℤ → RenderMode → Result FrameError Cell
check_cell fg bg char_int mode =
    if ltb_ℤ fg (negsuc 0) || ltb_ℤ (pos 255) fg || ltb_ℤ bg (negsuc 0) || ltb_ℤ (pos 255) bg
    then err invalid_frame_value
    else if ltb_ℤ char_int (pos 0) || ltb_ℤ (pos 126) char_int
    then err invalid_frame_value
    else if not (eqb_ℤ char_int (pos 0)) && ltb_ℤ char_int (pos 32)
    then err invalid_frame_value
    else if eqb_ℤ char_int (pos 0) && not (eqb_ℤ mode mode_half_block)
    then err invalid_frame_value
    else ok (record { char = pos_part char_int % 256; fg = fg; bg = bg })

unfoldable pub parse_cell_fields : Bytes → Bytes → Bytes → RenderMode → Result FrameError Cell
parse_cell_fields fg_value bg_value char_value mode = do
  fg ← parse_int fg_value
  bg ← parse_int bg_value
  char_int ← parse_int char_value
  check_cell fg bg char_int mode

unfoldable pub three_fields : List Bytes → RenderMode → Result FrameError Cell
three_fields (a ∷ b ∷ c ∷ []) mode = parse_cell_fields a b c mode
three_fields _ mode = err malformed_frame

unfoldable pub parse_cell : Bytes → RenderMode → Result FrameError Cell
unfolding three_fields
parse_cell encoded mode = three_fields (split b',' encoded) mode

unfoldable pub split_frame : Bytes → Result FrameError (Bytes × Bytes)
split_frame text = or_fail malformed_frame (cut_byte b'\n' text)

unfoldable pub payload_lines : Bytes → List Bytes
payload_lines body = split b'\n' (trim_newline body)

-- The two loops of `validateGrid`: each cell is printed and parsed again.
unfoldable pub validate_row : Row → RenderMode → Result FrameError (Unit {0})
validate_row [] mode = ok tt
validate_row (c ∷ cs) mode = do
  d ← parse_cell_fields (itoa c.fg) (itoa c.bg) (itoa (pos c.char)) mode
  validate_row cs mode

unfoldable pub validate_rows : ℕ → Grid → RenderMode → Result FrameError (Unit {0})
validate_rows w [] mode = ok tt
validate_rows w (r ∷ rs) mode = do
  guard (length r == w) malformed_frame
  validate_row r mode
  validate_rows w rs mode

-- The width and the height of an acceptable grid.
unfoldable pub validate_grid : Grid → RenderMode → Result FrameError (ℕ × ℕ)
validate_grid cells mode = do
  guard (valid_mode mode) invalid_frame_value
  let h = length cells
  guard (not (h == 0)) invalid_frame_value
  let w = width cells
  validate_dimensions (pos w) (pos h)
  validate_rows w cells mode
  ok (w, h)
