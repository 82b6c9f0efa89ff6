-- ===== src/Ascii/Codec/Delta.antt =====
-- internal/ascii/delta.go: the lines of a delta against the previous grid and the new one.
use termcall.Prelude.{
  ℕ, ◌+◌, ◌*◌, ◌/◌, ◌≤◌, ◌<◌, ◌≡◌, refl, sym, ap, ◌∙◌, inl, inr, ltb, if◌then◌else◌, false, List,
  [], ◌∷◌, ◌++◌, append_assoc, some, arith, pos, ok, All, All-append, length, set, Bool-cases,
  length-append,
}
use termcall.Text.{Bytes}
use termcall.Text.Split.{Lacks, split, trim_newline}
use termcall.Text.Lines.{terminated, split-terminated}
use termcall.Ascii.Cell.{Cell, Row, Grid, RenderMode, cell_eq, cell_eq_sound}
use termcall.Ascii.Frame.{payload_lines}
use termcall.Ascii.Frame.Valid.{
  IsCell, IsRow, IsGrid, parse_int-itoa_pos, validate_dimensions_complete, width-eq,
}
use termcall.Ascii.Encoder.{encode_delta, frame_header}
use termcall.Ascii.Decoder.{
  DeltaDecoder, contains, set_cell, apply_changes, change_lines, decode_delta,
}
use termcall.Ascii.Codec.Keyframe.{holding}
use termcall.Ascii.Codec.Header.{split_frame-header, parse_header_line}
use termcall.Ascii.Codec.Changes.{
  change_body, change_body-Lacks, parse_change-change_body, row_lines, grid_lines, SameShape,
  delta_rows-lines,
}

contains_below : (n : ℕ) (seen : List ℕ) → All (λ j. j < n) seen → contains seen n ≡ false
unfolding contains
contains_below n [] h = refl
contains_below n (j ∷ js) h = ground (arith, contains_below n js h.1)

below_mono : (n m : ℕ) (seen : List ℕ) → n ≤ m → All (λ j. j < n) seen → All (λ j. j < m) seen
below_mono n m [] le h = tt
below_mono n m (j ∷ js) le h = (omega arith, below_mono n m js le h.1)

set_middle :
    (pre ps : Row) (p c : Cell) (x : ℕ) → length pre ≡ x → set (pre ++ p ∷ ps) x c ≡ pre ++ c ∷ ps
set_middle pre ps p c x e = ap (λ k. set (pre ++ p ∷ ps) k c) (sym e) ∙ at_length pre
  where
    at_length : (pre : Row) → set (pre ++ p ∷ ps) (length pre) c ≡ pre ++ c ∷ ps
    at_length [] = refl
    at_length (q ∷ pre) = ap (λ (r : Row). q ∷ r) (at_length pre)

set_cell-length :
    (above below : Grid) (r : Row) (x : ℕ) (c : Cell)
    → set_cell (above ++ r ∷ below) (length above) x c ≡ above ++ set r x c ∷ below
unfolding set_cell
set_cell-length [] below r x c = refl
set_cell-length (a ∷ above) below r x c =
    ap (λ (g : Grid). a ∷ g) (set_cell-length above below r x c)

set_cell_middle :
    (above below : Grid) (r : Row) (y x : ℕ) (c : Cell)
    → length above ≡ y
    → set_cell (above ++ r ∷ below) y x c ≡ above ++ set r x c ∷ below
set_cell_middle above below r y x c e =
    ap (λ k. set_cell (above ++ r ∷ below) k x c) (sym e) ∙ set_cell-length above below r x c

-- A decoder, and the row `y` on which changes fall: `above` it stand the rows done, `below` the rest.
module _ (d : DeltaDecoder) (h_ok : d.h ≤ 30) (w_ok : d.w ≤ 100) (above below : Grid) (y : ℕ)
    (at_row : length above ≡ y) (row_ok : y < d.h) where
  -- One row: `pre` is done already, `ps` is to become `cs`.
  row_step :
      (pre ps : Row) (p c : Cell) (x : ℕ) (seen : List ℕ) (rest : List Bytes)
      → length pre ≡ x
      → x < d.w
      → IsCell d.mode c
      → All (λ j. j < y * d.w + x) seen
      → apply_changes d seen (above ++ (pre ++ p ∷ ps) ∷ below) (change_body y x c ∷ rest)
        ≡ apply_changes d ((y * d.w + x) ∷ seen) (above ++ (pre ++ c ∷ ps) ∷ below) rest
  unfolding apply_changes
  row_step pre ps p c x seen rest ex hx v hs = rw (
    parse_change-change_body d seen y x c row_ok hx (omega arith) (omega arith) v
        (contains_below _ seen hs),
    set_cell_middle above below (pre ++ p ∷ ps) y x c at_row,
    set_middle pre ps p c x ex,
  )

  row_apply :
      (cs ps pre : Row) (x : ℕ) (seen : List ℕ) (rest : List Bytes)
      → length pre ≡ x
      → length cs ≡ length ps
      → x + length cs ≡ d.w
      → All (IsCell d.mode) cs
      → All (λ j. j < y * d.w + x) seen
      → (seen' : List ℕ) × All (λ j. j < y * d.w + d.w) seen'
        × (apply_changes d seen (above ++ (pre ++ ps) ∷ below) (row_lines y x cs ps ++ rest)
            ≡ apply_changes d seen' (above ++ (pre ++ cs) ∷ below) rest)
  unfolding row_lines
  row_apply [] [] pre x seen rest ex el ew v hs = (seen, below_mono _ _ seen (omega arith) hs, refl)
  row_apply [] (p ∷ ps) pre x seen rest ex el ew v hs = absurd (omega arith)
  row_apply (c ∷ cs) [] pre x seen rest ex el ew v hs = absurd (omega arith)
  row_apply (c ∷ cs) (p ∷ ps) pre x seen rest ex el ew v hs =
      let later = row_apply cs ps (pre ++ c ∷ []) (x + 1) in
      let ex' : length (pre ++ c ∷ []) ≡ x + 1 = omega (arith, length-append pre (c ∷ [])) in
      elim (Bool-cases (cell_eq c p)) [
        | inl same ↦
            let (seen', hs', e) =
              later seen rest ex' (omega arith) (omega arith) v.1
                (below_mono _ _ seen (omega arith) hs) in
            (
              seen',
              hs',
              rw (same, ← cell_eq_sound c p same)
                  (rw (append_assoc pre (c ∷ []) ps, append_assoc pre (c ∷ []) cs) at e),
            )
        | inr new ↦
            let (seen', hs', e) =
              later ((y * d.w + x) ∷ seen) rest ex' (omega arith) (omega arith) v.1
                (omega arith, below_mono _ _ seen (omega arith) hs) in
            (
              seen',
              hs',
              rw new (
                  row_step pre ps p c x seen (row_lines y (x + 1) cs ps ++ rest) ex (omega arith)
                    v.0 hs
                  ∙ (rw (append_assoc pre (c ∷ []) ps, append_assoc pre (c ∷ []) cs) at e)),
            )
      ]

grid_apply :
    (d : DeltaDecoder)
    → d.h ≤ 30
    → d.w ≤ 100
    → (rs prs above : Grid) (y : ℕ) (seen : List ℕ) → length above ≡ y
    → y + length rs ≡ d.h
    → SameShape rs prs
    → All (IsRow d.mode d.w) rs
    → All (λ j. j < y * d.w) seen
    → apply_changes d seen (above ++ prs) (grid_lines y rs prs) ≡ ok (above ++ rs)
unfolding grid_lines
grid_apply d hh hw [] [] above y seen ey eh sh v hs = unfold apply_changes in refl
grid_apply d hh hw [] (pr ∷ prs) above y seen ey eh sh v hs = absurd sh
grid_apply d hh hw (r ∷ rs) [] above y seen ey eh sh v hs = absurd sh
grid_apply d hh hw (r ∷ rs) (pr ∷ prs) above y seen ey eh sh v hs =
    let rest = grid_lines (y + 1) rs prs in
    let (seen', hs', e) =
      row_apply d hh hw above prs y ey (omega arith) r pr [] 0 seen rest refl sh.0
        (omega (arith, v.0.0)) v.0.1 (below_mono (y * d.w) _ seen (omega arith) hs) in
    let ih =
      grid_apply d hh hw rs prs (above ++ r ∷ []) (y + 1) seen'
        (omega (arith, length-append above (r ∷ []))) (omega arith) sh.1 v.1
        (below_mono _ _ seen' (omega arith) hs') in
    e ∙ (rw (append_assoc above (r ∷ []) prs, append_assoc above (r ∷ []) rs) at ih)

row_lines-Lacks : (y x : ℕ) (cs ps : Row) → All (Lacks b'\n') (row_lines y x cs ps)
unfolding row_lines
row_lines-Lacks y x [] ps = tt
row_lines-Lacks y x (c ∷ cs) [] = tt
row_lines-Lacks y x (c ∷ cs) (p ∷ ps) = elim (Bool-cases (cell_eq c p)) [
  | inl same ↦ rw same (row_lines-Lacks y (x + 1) cs ps)
  | inr new ↦ rw new (change_body-Lacks y x c, row_lines-Lacks y (x + 1) cs ps)
]

grid_lines-Lacks : (y : ℕ) (rs prs : Grid) → All (Lacks b'\n') (grid_lines y rs prs)
unfolding grid_lines
grid_lines-Lacks y [] prs = tt
grid_lines-Lacks y (r ∷ rs) [] = tt
grid_lines-Lacks y (r ∷ rs) (pr ∷ prs) =
    All-append _ (row_lines y 0 r pr) _ (row_lines-Lacks y 0 r pr) (grid_lines-Lacks (y + 1) rs prs)

change_lines-terminated :
    (ls : List Bytes)
    → All (Lacks b'\n') ls
    → change_lines (pos (length ls)) (payload_lines (terminated ls)) ≡ ls
unfolding change_lines payload_lines
change_lines-terminated [] h = unfold terminated trim_newline split in refl
change_lines-terminated (l ∷ ls) h = rw (split-terminated l ls h)

pub SameShape-of_rows :
    (mode : RenderMode) (w : ℕ) (rs prs : Grid)
    → length rs ≡ length prs
    → All (IsRow mode w) rs
    → All (IsRow mode w) prs
    → SameShape rs prs
SameShape-of_rows mode w [] [] e h k = tt
SameShape-of_rows mode w [] (p ∷ ps) e h k = absurd (omega arith)
SameShape-of_rows mode w (r ∷ rs) [] e h k = absurd (omega arith)
SameShape-of_rows mode w (r ∷ rs) (p ∷ ps) e h k =
    (h.0.0 ∙ sym k.0.0, SameShape-of_rows mode w rs ps (omega arith) h.1 k.1)

module _ (mode : RenderMode) (w h : ℕ) (cells prev : Grid) (v : IsGrid mode w h cells)
    (vp : IsGrid mode w h prev) where
  shape : SameShape cells prev
  shape = SameShape-of_rows mode w cells prev (v.high ∙ sym vp.high) v.rows vp.rows

  -- The delta of two grids of one shape: its text, unless more than half of the cells changed.
  pub encode_delta-eq :
      encode_delta prev cells
      ≡ some (
          if ltb (w * h / 2) (length (grid_lines 0 cells prev))
          then []
          else frame_header b'D' (pos w) (pos h) (pos (length (grid_lines 0 cells prev)))
            ++ terminated (grid_lines 0 cells prev))
  unfolding encode_delta
  encode_delta-eq =
      rw (delta_rows-lines 0 cells prev shape, encode_delta, width-eq mode w h cells v, v.high)

  area : w * h ≤ 3000
  area = let b : w * h ≤ 100 * 30 = grind (arith, v.narrow, v.low) in omega arith

  all_applied : apply_changes (holding mode w h prev) [] prev (grid_lines 0 cells prev) ≡ ok cells
  all_applied =
      grid_apply (holding mode w h prev) v.low v.narrow cells prev [] 0 [] refl
        (omega (arith, v.high)) shape v.rows tt

  -- It is decoded to the new grid by a decoder that holds the previous one.
  pub decode_delta-frame :
      length (grid_lines 0 cells prev) ≤ w * h / 2
      → decode_delta (holding mode w h prev) (
          frame_header b'D' (pos w) (pos h) (pos (length (grid_lines 0 cells prev)))
          ++ terminated (grid_lines 0 cells prev))
        ≡ ok (holding mode w h cells)
  unfolding decode_delta
  decode_delta-frame few =
      let ls = grid_lines 0 cells prev in
      rw
        (
          split_frame-header b'D' (pos w) (pos h) (pos (length ls)) (terminated ls) (omega arith),
          parse_header_line b'D' (pos w) (pos h) (pos (length ls)) (omega arith) (omega arith)
              (parse_int-itoa_pos w (omega (arith, v.narrow)))
              (parse_int-itoa_pos h (omega (arith, v.low)))
              (parse_int-itoa_pos (length ls) (omega (arith, area))),
          validate_dimensions_complete w h v.wide v.narrow v.tall v.low,
          change_lines-terminated ls (grid_lines-Lacks 0 cells prev),
        )
        (ground (arith, area, all_applied, vp.high, vp.tall))
