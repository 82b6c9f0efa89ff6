-- ===== src/Ascii/Frame/Valid.antt =====
-- internal/ascii/delta.go: the grids that `validateGrid` accepts.
use termcall.Prelude.{
  ℕ, ◌*◌, ◌≤◌, ◌<◌, ◌≡◌, refl, ◌⊎◌, true, [], ◌∷◌, arith, ℤ, pos, negsuc, ◌≤ℤ◌, ok, guard,
  >>=-eq-ok, not, ◌==◌, length, All,
}
use termcall.Text.Decimal.{itoa, atoi-itoa, atoi-itoa_inv}
use termcall.Ascii.Cell.{Cell, Row, Grid, RenderMode, mode_half_block, width}
use termcall.Ascii.Frame.{
  malformed_frame, invalid_frame_value, max_frame_width, max_frame_height, valid_mode,
  validate_dimensions, parse_int, check_cell, parse_cell_fields, validate_row, validate_rows,
  validate_grid,
}

-- A colour is unset or one of the palette's; a character is printable, or 0 in half-block mode.
pub record IsCell (mode : RenderMode) (c : Cell) : Type 0 where
  pub fg_low : negsuc 0 ≤ℤ c.fg
  pub fg_high : c.fg ≤ℤ pos 255
  pub bg_low : negsuc 0 ≤ℤ c.bg
  pub bg_high : c.bg ≤ℤ pos 255
  pub shown : ((c.char ≡ 0) × (mode ≡ mode_half_block)) ⊎ ((32 ≤ c.char) × (c.char ≤ 126))

abbrev pub IsRow : RenderMode → ℕ → Row → Type 0
IsRow mode w r = (length r ≡ w) × All (IsCell mode) r

pub record IsGrid (mode : RenderMode) (w h : ℕ) (cells : Grid) : Type 0 where
  pub known_mode : valid_mode mode ≡ true
  pub wide : 0 < w
  pub narrow : w ≤ max_frame_width
  pub tall : 0 < h
  pub low : h ≤ max_frame_height
  pub high : length cells ≡ h
  pub rows : All (IsRow mode w) cells

pub check_cell-IsCell :
    (c d : Cell) (mode : RenderMode) → check_cell c.fg c.bg (pos c.char) mode ≡ ok d → IsCell mode c
unfolding check_cell
check_cell-IsCell c d mode h = ground arith

pub check_cell_complete :
    (c : Cell) (mode : RenderMode) → IsCell mode c → check_cell c.fg c.bg (pos c.char) mode ≡ ok c
unfolding check_cell
check_cell_complete c mode v = ground arith

parse_int-itoa : (z : ℤ) → negsuc 0 ≤ℤ z → z ≤ℤ pos 255 → parse_int (itoa z) ≡ ok z
unfolding parse_int
parse_int-itoa (pos n) a b = rw (atoi-itoa (pos n) (omega arith))
parse_int-itoa (negsuc n) a b = rw (atoi-itoa (negsuc n) (omega arith))

pub parse_int-itoa_pos : (n : ℕ) → n ≤ 1_000_000 → parse_int (itoa (pos n)) ≡ ok (pos n)
unfolding parse_int
parse_int-itoa_pos n h = rw (atoi-itoa (pos n) (omega arith))

parse_int-itoa_inv : (z y : ℤ) → parse_int (itoa z) ≡ ok y → y ≡ z
unfolding parse_int
parse_int-itoa_inv z y h = ground (arith, atoi-itoa_inv z y)

pub parse_cell_fields-itoa :
    (c : Cell) (mode : RenderMode)
    → IsCell mode c
    → parse_cell_fields (itoa c.fg) (itoa c.bg) (itoa (pos c.char)) mode ≡ ok c
unfolding parse_cell_fields
parse_cell_fields-itoa c mode v =
    rw
      (
        parse_int-itoa c.fg v.fg_low v.fg_high,
        parse_int-itoa c.bg v.bg_low v.bg_high,
        parse_int-itoa_pos c.char (ground arith),
      )
      (check_cell_complete c mode v)

pub parse_cell_fields-itoa_inv :
    (c d : Cell) (mode : RenderMode)
    → parse_cell_fields (itoa c.fg) (itoa c.bg) (itoa (pos c.char)) mode ≡ ok d
    → IsCell mode c
unfolding parse_cell_fields
parse_cell_fields-itoa_inv c d mode h =
    let (fg, e1, h1) = >>=-eq-ok (parse_int (itoa c.fg)) _ h in
    let (bg, e2, h2) = >>=-eq-ok (parse_int (itoa c.bg)) _ h1 in
    let (ch, e3, h3) = >>=-eq-ok (parse_int (itoa (pos c.char))) _ h2 in
    check_cell-IsCell c d mode (
      rw
        (
          ← parse_int-itoa_inv c.fg fg e1,
          ← parse_int-itoa_inv c.bg bg e2,
          ← parse_int-itoa_inv (pos c.char) ch e3,
        )
        h3)

validate_row-IsRow :
    (r : Row) (mode : RenderMode) → validate_row r mode ≡ ok tt → All (IsCell mode) r
unfolding validate_row
validate_row-IsRow [] mode h = tt
validate_row-IsRow (c ∷ cs) mode h =
    let (d, e, h1) =
      >>=-eq-ok (parse_cell_fields (itoa c.fg) (itoa c.bg) (itoa (pos c.char)) mode) _ h in
    (parse_cell_fields-itoa_inv c d mode e, validate_row-IsRow cs mode h1)

validate_row_complete :
    (r : Row) (mode : RenderMode) → All (IsCell mode) r → validate_row r mode ≡ ok tt
unfolding validate_row
validate_row_complete [] mode h = refl
validate_row_complete (c ∷ cs) mode h =
    rw (parse_cell_fields-itoa c mode h.0) (validate_row_complete cs mode h.1)

validate_rows-IsRow :
    (w : ℕ) (rs : Grid) (mode : RenderMode)
    → validate_rows w rs mode ≡ ok tt
    → All (IsRow mode w) rs
unfolding validate_rows
validate_rows-IsRow w [] mode h = tt
validate_rows-IsRow w (r ∷ rs) mode h =
    let (_, e, h1) = >>=-eq-ok (guard (length r == w) malformed_frame) _ h in
    let (_, e1, h2) = >>=-eq-ok (validate_row r mode) _ h1 in
    ((ground arith, validate_row-IsRow r mode e1), validate_rows-IsRow w rs mode h2)

validate_rows_complete :
    (w : ℕ) (rs : Grid) (mode : RenderMode)
    → All (IsRow mode w) rs
    → validate_rows w rs mode ≡ ok tt
unfolding validate_rows
validate_rows_complete w [] mode h = refl
validate_rows_complete w (r ∷ rs) mode h =
    ground (arith, validate_row_complete r mode h.0.1, validate_rows_complete w rs mode h.1)

-- `validateGrid` accepts only such grids, and returns their sides.
pub validate_grid-IsGrid :
    (cells : Grid) (mode : RenderMode) (w h : ℕ)
    → validate_grid cells mode ≡ ok (w, h)
    → IsGrid mode w h cells
unfolding validate_grid validate_dimensions
validate_grid-IsGrid cells mode w h e =
    let (_, e1, h1) = >>=-eq-ok (guard (valid_mode mode) invalid_frame_value) _ e in
    let (_, e2, h2) = >>=-eq-ok (guard (not (length cells == 0)) invalid_frame_value) _ h1 in
    let (_, e3, h3) =
      >>=-eq-ok (validate_dimensions (pos (width cells)) (pos (length cells))) _ h2 in
    let (_, e4, h4) = >>=-eq-ok (validate_rows (width cells) cells mode) _ h3 in
    let rs = validate_rows-IsRow (width cells) cells mode e4 in
    let ew : width cells ≡ w = ground arith in
    record {
      known_mode = ground arith;
      wide = ground arith;
      narrow = ground arith;
      tall = ground arith;
      low = ground arith;
      high = ground arith;
      rows = rw ew at rs;
    }

pub width-eq :
    (mode : RenderMode) (w h : ℕ) (cells : Grid) → IsGrid mode w h cells → width cells ≡ w
width-eq mode w h [] v = ground arith
width-eq mode w h (r ∷ rs) v = v.rows.0.0

pub validate_dimensions_complete :
    (w h : ℕ)
    → 0 < w
    → w ≤ max_frame_width
    → 0 < h
    → h ≤ max_frame_height
    → validate_dimensions (pos w) (pos h) ≡ ok tt
unfolding validate_dimensions
validate_dimensions_complete w h a b c d =
    let area : w * h ≤ 100 * 30 = grind arith in ground (arith, area)

-- And every such grid is accepted.
pub validate_grid_complete :
    (cells : Grid) (mode : RenderMode) (w h : ℕ)
    → IsGrid mode w h cells
    → validate_grid cells mode ≡ ok (w, h)
unfolding validate_grid
validate_grid_complete cells mode w h v =
    rw (v.known_mode, v.high, width-eq mode w h cells v)
      (ground (
        arith,
        validate_dimensions_complete w h v.wide v.narrow v.tall v.low,
        validate_rows_complete w cells mode v.rows,
      ))
