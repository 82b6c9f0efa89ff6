-- ===== src/Ascii/Codec/Keyframe.antt =====
-- internal/ascii/delta.go: a keyframe, encoded and decoded.
use termcall.Prelude.{
  ℕ, suc, ◌<◌, ◌≡◌, refl, ap, ◌∙◌, ◌≢◌, ◌⊎◌, true, List, [], ◌∷◌, ◌++◌, map, append-nil, arith, pos,
  negsuc, ok, All, All-append, ==_refl, length,
}
use termcall.Text.{Bytes}
use termcall.Text.Decimal.{itoa}
use termcall.Text.Split.{Lacks, split, split-Lacks, split-append}
use termcall.Text.Numerals.{itoa-Lacks}
use termcall.Text.Lines.{terminated, split-terminated}
use termcall.Ascii.Cell.{Cell, Row, Grid, RenderMode}
use termcall.Ascii.Frame.{parse_cell, parse_int, payload_lines, valid_mode}
use termcall.Ascii.Frame.Valid.{
  IsCell, IsRow, IsGrid, parse_cell_fields-itoa, parse_int-itoa_pos, validate_dimensions_complete,
  width-eq,
}
use termcall.Ascii.Encoder.{key_cell, key_rest, key_row, key_rows, encode_keyframe}
use termcall.Ascii.Decoder.{DeltaDecoder, decode_row, decode_rows, decode_keyframe}
use termcall.Ascii.Codec.Header.{split_frame-header, parse_header_line}

pub key_cell-Lacks : (sep : ℕ) (c : Cell) → (sep < 44) ⊎ (57 < sep) → Lacks sep (key_cell c)
unfolding key_cell
key_cell-Lacks sep c h = All-append _ (itoa c.fg) _ (itoa-Lacks sep c.fg (omega arith)) (
  omega arith,
  All-append _ (itoa c.bg) _ (itoa-Lacks sep c.bg (omega arith))
      (omega arith, itoa-Lacks sep (pos c.char) (omega arith)),
)

parse_cell-key_cell :
    (c : Cell) (mode : RenderMode) → IsCell mode c → parse_cell (key_cell c) mode ≡ ok c
unfolding parse_cell key_cell
parse_cell-key_cell c mode v =
    rw
      (
        split-append b',' (itoa c.fg) (itoa c.bg ++ b',' ∷ itoa (pos c.char))
            (itoa-Lacks b',' c.fg (omega arith)),
        split-append b',' (itoa c.bg) (itoa (pos c.char)) (itoa-Lacks b',' c.bg (omega arith)),
        split-Lacks b',' (itoa (pos c.char)) (itoa-Lacks b',' (pos c.char) (omega arith)),
      )
      (parse_cell_fields-itoa c mode v)

module _ (sep : ℕ) (h : (sep < 44) ⊎ (57 < sep)) where
  key_rest-Lacks : b';' ≢ sep → (cs : Row) → Lacks sep (key_rest cs)
  unfolding key_rest
  key_rest-Lacks n [] = tt
  key_rest-Lacks n (c ∷ cs) =
      (n, All-append _ (key_cell c) _ (key_cell-Lacks sep c h) (key_rest-Lacks n cs))

key_row-Lacks : (r : Row) → Lacks b'\n' (key_row r)
unfolding key_row
key_row-Lacks [] = tt
key_row-Lacks (c ∷ cs) =
    All-append _ (key_cell c) _ (key_cell-Lacks b'\n' c (omega arith))
      (key_rest-Lacks b'\n' (omega arith) (omega arith) cs)

split-key_rest :
    (p : Bytes) (cs : Row) → Lacks b';' p → split b';' (p ++ key_rest cs) ≡ p ∷ map key_cell cs
unfolding key_rest
split-key_rest p [] h = rw append-nil (split-Lacks b';' p h)
split-key_rest p (c ∷ cs) h =
    split-append b';' p _ h
    ∙ ap (λ (ts : List Bytes). p ∷ ts)
        (split-key_rest (key_cell c) cs (key_cell-Lacks b';' c (omega arith)))

split-key_row : (c : Cell) (cs : Row) → split b';' (key_row (c ∷ cs)) ≡ map key_cell (c ∷ cs)
unfolding key_row
split-key_row c cs = split-key_rest (key_cell c) cs (key_cell-Lacks b';' c (omega arith))

decode_row-key_cells :
    (mode : RenderMode) (cs : Row)
    → All (IsCell mode) cs
    → decode_row mode (map key_cell cs) ≡ ok cs
unfolding decode_row
decode_row-key_cells mode [] v = refl
decode_row-key_cells mode (c ∷ cs) v =
    rw (parse_cell-key_cell c mode v.0, decode_row-key_cells mode cs v.1)

length-map {ℓ κ} :
    {A : Type ℓ} {B : Type κ} (f : A → B) (xs : List A) → length (map f xs) ≡ length xs
length-map f [] = refl
length-map f (x ∷ xs) = ap suc (length-map f xs)

decode_rows-key_rows :
    (mode : RenderMode) (w : ℕ) (rs : Grid)
    → 0 < w
    → All (IsRow mode w) rs
    → decode_rows w mode (map key_row rs) ≡ ok rs
unfolding decode_rows
decode_rows-key_rows mode w [] p v = refl
decode_rows-key_rows mode w ([] ∷ rs) p v = absurd (omega (arith, v.0.0))
decode_rows-key_rows mode w ((c ∷ cs) ∷ rs) p v = rw (
  split-key_row c cs,
  length-map key_cell (c ∷ cs),
  v.0.0,
  ==_refl w,
  decode_row-key_cells mode (c ∷ cs) v.0.1,
  decode_rows-key_rows mode w rs p v.1,
)

key_rows-terminated : (rs : Grid) → key_rows rs ≡ terminated (map key_row rs)
unfolding key_rows terminated
key_rows-terminated [] = refl
key_rows-terminated (r ∷ rs) = ap (λ (t : Bytes). key_row r ++ b'\n' ∷ t) (key_rows-terminated rs)

map-key_row-Lacks : (rs : Grid) → All (Lacks b'\n') (map key_row rs)
map-key_row-Lacks [] = tt
map-key_row-Lacks (r ∷ rs) = (key_row-Lacks r, map-key_row-Lacks rs)

payload_lines-key_rows :
    (r : Row) (rs : Grid) → payload_lines (key_rows (r ∷ rs)) ≡ map key_row (r ∷ rs)
unfolding payload_lines
payload_lines-key_rows r rs =
    rw (key_rows-terminated (r ∷ rs))
      (split-terminated (key_row r) (map key_row rs) (map-key_row-Lacks (r ∷ rs)))

-- The decoder that a keyframe leaves behind.
abbrev pub holding : RenderMode → ℕ → ℕ → Grid → DeltaDecoder
holding mode w h cells = record { grid = cells; w = w; h = h; mode = mode; has = true }

parse_mode : (mode : RenderMode) → valid_mode mode ≡ true → parse_int (itoa mode) ≡ ok mode
unfolding valid_mode
parse_mode (pos n) h = parse_int-itoa_pos n (ground arith)
parse_mode (negsuc n) h = absurd (ground arith)

pub decode_keyframe-encode_keyframe :
    (mode : RenderMode) (w h : ℕ) (cells : Grid)
    → IsGrid mode w h cells
    → decode_keyframe (encode_keyframe mode cells) ≡ ok (holding mode w h cells)
unfolding decode_keyframe encode_keyframe
decode_keyframe-encode_keyframe mode w h [] v = absurd (omega (arith, v.high, v.tall))
decode_keyframe-encode_keyframe mode w h (r ∷ rs) v = rw (
  width-eq mode w h (r ∷ rs) v,
  v.high,
  split_frame-header b'K' (pos w) (pos h) mode (key_rows (r ∷ rs)) (omega arith),
  parse_header_line b'K' (pos w) (pos h) mode (omega arith) (omega arith)
      (parse_int-itoa_pos w (omega (arith, v.narrow))) (parse_int-itoa_pos h (omega (arith, v.low)))
      (parse_mode mode v.known_mode),
  validate_dimensions_complete w h v.wide v.narrow v.tall v.low,
  v.known_mode,
  payload_lines-key_rows r rs,
  length-map key_row (r ∷ rs),
  v.high,
  ==_refl h,
  decode_rows-key_rows mode w (r ∷ rs) v.wide v.rows,
)
