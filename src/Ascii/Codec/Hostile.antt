-- ===== src/Ascii/Codec/Hostile.antt =====
-- internal/ascii/delta.go: the decoder under arbitrary bytes.
use termcall.Prelude.{
  ℕ, zero, suc, ◌+◌, ◌*◌, ◌≤◌, ◌<◌, ◌≡◌, refl, ap, ◌∙◌, inl, inr, ltb, ◌==◌, not, ◌&&◌, Bool, true,
  false, List, [], ◌∷◌, arith, ℤ, pos, pos_part, ltb_ℤ, length, set, length-set, Bool-cases, Result,
  ok, err, All, guard, >>=-eq-ok,
}
use termcall.Text.{Bytes}
use termcall.Text.Split.{split}
use termcall.Ascii.Cell.{Cell, Row, Grid, RenderMode}
use termcall.Ascii.Frame.{
  FrameError, malformed_frame, missing_keyframe, frame_too_large, invalid_frame_value,
  max_encoded_frame_bytes, check_cell, parse_int, parse_cell, parse_cell_fields, three_fields,
  valid_mode, validate_dimensions, split_frame, payload_lines,
}
use termcall.Ascii.Frame.Valid.{IsCell, IsRow, IsGrid}
use termcall.Ascii.Decoder.{
  DeltaDecoder, new_delta_decoder, decode_row, decode_rows, decode_keyframe, decode_delta,
  decode_cells, decode_kind, parse_header, parse_change, change_fields, apply_changes, change_lines,
  set_cell, is_inside, is_new,
}
use termcall.Text.Fields.{fields}

check_cell_sound :
    (fg bg ch : ℤ) (mode : RenderMode) (c : Cell) → check_cell fg bg ch mode ≡ ok c → IsCell mode c
unfolding check_cell
check_cell_sound fg bg ch mode c h = ground arith

parse_cell_fields-IsCell :
    (a b s : Bytes) (mode : RenderMode) (c : Cell)
    → parse_cell_fields a b s mode ≡ ok c
    → IsCell mode c
unfolding parse_cell_fields
parse_cell_fields-IsCell a b s mode c h =
    let (fg, e1, h1) = >>=-eq-ok (parse_int a) _ h in
    let (bg, e2, h2) = >>=-eq-ok (parse_int b) _ h1 in
    let (ch, e3, h3) = >>=-eq-ok (parse_int s) _ h2 in check_cell_sound fg bg ch mode c h3

parse_cell-IsCell :
    (s : Bytes) (mode : RenderMode) (c : Cell) → parse_cell s mode ≡ ok c → IsCell mode c
unfolding parse_cell
parse_cell-IsCell s mode c h = from_parts (split b',' s) h
  where
    from_parts : (ps : List Bytes) → three_fields ps mode ≡ ok c → IsCell mode c
    from_parts [] h = absurd (cc)
    from_parts (a ∷ []) h = absurd (cc)
    from_parts (a ∷ b ∷ []) h = absurd (cc)
    from_parts (a ∷ b ∷ d ∷ []) h = parse_cell_fields-IsCell a b d mode c h
    from_parts (a ∷ b ∷ d ∷ e ∷ ps) h = absurd (cc)

decode_row-IsRow :
    (mode : RenderMode) (ws : List Bytes) (r : Row)
    → decode_row mode ws ≡ ok r
    → IsRow mode (length ws) r
unfolding decode_row
decode_row-IsRow mode [] r h = ground arith
decode_row-IsRow mode (s ∷ ws) r h =
    let (c, e1, h1) = >>=-eq-ok (parse_cell s mode) _ h in
    let (r', e2, h2) = >>=-eq-ok (decode_row mode ws) _ h1 in
    ground (arith, decode_row-IsRow mode ws r' e2, parse_cell-IsCell s mode c e1)

decode_rows-IsRow :
    (w : ℕ) (mode : RenderMode) (ls : List Bytes) (g : Grid)
    → decode_rows w mode ls ≡ ok g
    → (length g ≡ length ls) × All (IsRow mode w) g
unfolding decode_rows
decode_rows-IsRow w mode [] g h = ground arith
decode_rows-IsRow w mode (l ∷ ls) g h =
    let (_, e0, h0) = >>=-eq-ok (guard (length (split b';' l) == w) malformed_frame) _ h in
    let (r, e1, h1) = >>=-eq-ok (decode_row mode (split b';' l)) _ h0 in
    let (g', e2, h2) = >>=-eq-ok (decode_rows w mode ls) _ h1 in
    ground (arith, decode_row-IsRow mode (split b';' l) r e1, decode_rows-IsRow w mode ls g' e2)

-- What a decoder shows once it has had a keyframe.
abbrev pub Shows : DeltaDecoder → Bool → Type 0
Shows d false = Unit {0}
Shows d true = IsGrid d.mode d.w d.h d.grid

abbrev pub IsSafe : DeltaDecoder → Type 0
IsSafe d = Shows d d.has

abbrev pub IsShown : DeltaDecoder → Type 0
IsShown d = (d.has ≡ true) × IsGrid d.mode d.w d.h d.grid

validate_dimensions_sound :
    (w h : ℤ)
    → validate_dimensions w h ≡ ok tt
    → (0 < pos_part w) × (pos_part w ≤ 100) × (0 < pos_part h) × (pos_part h ≤ 30)
unfolding validate_dimensions
validate_dimensions_sound w h e = ground arith

decode_keyframe-IsShown :
    (text : Bytes) (d : DeltaDecoder) → decode_keyframe text ≡ ok d → IsShown d
unfolding decode_keyframe
decode_keyframe-IsShown text d e =
    let ((header, body), e1, h1) = >>=-eq-ok (split_frame text) _ e in
    let ((w, h, mode), e2, h2) = >>=-eq-ok (parse_header b'K' header) _ h1 in
    let (_, e3, h3) = >>=-eq-ok (validate_dimensions w h) _ h2 in
    let (_, e4, h4) = >>=-eq-ok (guard (valid_mode mode) invalid_frame_value) _ h3 in
    let (_, e5, h5) =
      >>=-eq-ok (guard (length (payload_lines body) == pos_part h) malformed_frame) _ h4 in
    let (g, e6, h6) = >>=-eq-ok (decode_rows (pos_part w) mode (payload_lines body)) _ h5 in
    ground (
      arith,
      validate_dimensions_sound w h e3,
      decode_rows-IsRow (pos_part w) mode (payload_lines body) g e6,
    )

set-All {ℓ κ} :
    {A : Type ℓ} (P : A → Type κ) (r : List A) (x : ℕ) (c : A) → P c → All P r → All P (set r x c)
set-All P [] x c pc h = tt
set-All P (a ∷ r) zero c pc h = (pc, h.1)
set-All P (a ∷ r) (suc x) c pc h = (h.0, set-All P r x c pc h.1)

set_cell-IsRow :
    (mode : RenderMode) (w : ℕ) (g : Grid) (y x : ℕ) (c : Cell)
    → IsCell mode c
    → All (IsRow mode w) g
    → (length (set_cell g y x c) ≡ length g) × All (IsRow mode w) (set_cell g y x c)
unfolding set_cell
set_cell-IsRow mode w [] y x c v h = (refl, tt)
set_cell-IsRow mode w (r ∷ g) zero x c v h =
    (refl, ((length-set r x c ∙ h.0.0, set-All (IsCell mode) r x c v h.0.1), h.1))
set_cell-IsRow mode w (r ∷ g) (suc y) x c v h =
    let (e, k) = set_cell-IsRow mode w g y x c v h.1 in (ap suc e, (h.0, k))

change_fields-IsCell :
    (d : DeltaDecoder) (seen : List ℕ) (ws : List Bytes) (y x : ℕ) (c : Cell)
    → change_fields d seen ws ≡ ok (y, x, c)
    → IsCell d.mode c
unfolding change_fields
change_fields-IsCell d seen (a ∷ b ∷ f ∷ g ∷ ch ∷ []) y x c h =
    let (row, e1, h1) = >>=-eq-ok (parse_int a) _ h in
    let (col, e2, h2) = >>=-eq-ok (parse_int b) _ h1 in
    let (_, e3, h3) = >>=-eq-ok (guard (is_inside d row col) invalid_frame_value) _ h2 in
    let (_, e4, h4) = >>=-eq-ok (guard (is_new d seen row col) malformed_frame) _ h3 in
    let (c', e5, h5) = >>=-eq-ok (parse_cell_fields f g ch d.mode) _ h4 in
    let e : c' ≡ c = ground arith in rw (← e) (parse_cell_fields-IsCell f g ch d.mode c' e5)
change_fields-IsCell d seen _ y x c h = absurd (cc)

parse_change-IsCell :
    (d : DeltaDecoder) (seen : List ℕ) (l : Bytes) (y x : ℕ) (c : Cell)
    → parse_change d seen l ≡ ok (y, x, c)
    → IsCell d.mode c
unfolding parse_change
parse_change-IsCell d seen l y x c h = change_fields-IsCell d seen (fields l) y x c h

apply_changes-IsRow :
    (d : DeltaDecoder) (seen : List ℕ) (g g' : Grid) (ls : List Bytes)
    → apply_changes d seen g ls ≡ ok g'
    → All (IsRow d.mode d.w) g
    → (length g' ≡ length g) × All (IsRow d.mode d.w) g'
unfolding apply_changes
apply_changes-IsRow d seen g g' [] h v = ground arith
apply_changes-IsRow d seen g g' (l ∷ ls) h v =
    let ((y, x, c), e1, h1) = >>=-eq-ok (parse_change d seen l) _ h in
    let (e2, v2) = set_cell-IsRow d.mode d.w g y x c (parse_change-IsCell d seen l y x c e1) v in
    let (e3, v3) = apply_changes-IsRow d ((y * d.w + x) ∷ seen) (set_cell g y x c) g' ls h1 v2 in
    (e3 ∙ e2, v3)

decode_delta-IsShown :
    (d d' : DeltaDecoder) (text : Bytes) → decode_delta d text ≡ ok d' → IsSafe d → IsShown d'
unfolding decode_delta
decode_delta-IsShown d d' text e s =
    let ((header, body), e1, h1) = >>=-eq-ok (split_frame text) _ e in
    let ((w, h, count), e2, h2) = >>=-eq-ok (parse_header b'D' header) _ h1 in
    let (_, e3, h3) = >>=-eq-ok (validate_dimensions w h) _ h2 in
    let (_, e4, h4) =
      >>=-eq-ok
        (guard (not (ltb_ℤ count (pos 0)) && not (ltb_ℤ (pos (pos_part w * pos_part h)) count))
          invalid_frame_value)
        _ h3 in
    let (_, e5, h5) =
      >>=-eq-ok
        (guard (d.has && d.w == pos_part w && d.h == pos_part h && not (length d.grid == 0))
          missing_keyframe)
        _ h4 in
    let ls = change_lines count (payload_lines body) in
    let (_, e6, h6) = >>=-eq-ok (guard (length ls == pos_part count) malformed_frame) _ h5 in
    let (g, e7, h7) = >>=-eq-ok (apply_changes d [] d.grid ls) _ h6 in
    let has : d.has ≡ true = ground arith in
    let v : IsGrid d.mode d.w d.h d.grid = rw has at s in
    ground (
      arith,
      has,
      apply_changes-IsRow d [] d.grid g ls e7 v.rows,
      v.known_mode,
      v.wide,
      v.narrow,
      v.tall,
      v.low,
      v.high,
    )

decode_kind-IsShown :
    (d d' : DeltaDecoder) (text : Bytes) → decode_kind d text ≡ ok d' → IsSafe d → IsShown d'
unfolding decode_kind
decode_kind-IsShown d d' [] e s = absurd (cc)
decode_kind-IsShown d d' (c ∷ t) e s = elim (Bool-cases (c == b'K')) [
  | inl key ↦ decode_keyframe-IsShown (c ∷ t) d' (rw key at e)
  | inr other ↦ elim (Bool-cases (c == b'D')) [
    | inl delta ↦ decode_delta-IsShown d d' (c ∷ t) (rw (other, delta) at e) s
    | inr bad ↦ absurd (ground arith)
  ]
]

-- A payload that is accepted leaves a grid on show: at most 100 by 30, rectangular, every colour in
-- the palette or unset, every character printable (or 0 in half-block mode).
pub decode_cells-IsShown :
    (d d' : DeltaDecoder) (text : Bytes) → IsSafe d → decode_cells d text ≡ ok d' → IsShown d'
unfolding decode_cells
decode_cells-IsShown d d' text s e =
    let (_, e1, h1) = >>=-eq-ok (guard (not (length text == 0)) malformed_frame) _ e in
    let (_, e2, h2) =
      >>=-eq-ok (guard (not (ltb max_encoded_frame_bytes (length text))) frame_too_large) _ h1 in
    decode_kind-IsShown d d' text h2 s

-- A receiver's decoder over a run of payloads: one that is refused changes nothing.
keep : DeltaDecoder → Result FrameError DeltaDecoder → DeltaDecoder
keep d (ok d') = d'
keep d (err e) = d

pub receive : DeltaDecoder → List Bytes → DeltaDecoder
unfolding keep
receive d [] = d
receive d (t ∷ ts) = receive (keep d (decode_cells d t)) ts

IsSafe-of_IsShown : (d : DeltaDecoder) → IsShown d → IsSafe d
IsSafe-of_IsShown d (has, v) = rw has v

keep-IsSafe :
    (d : DeltaDecoder) (t : Bytes) (r : Result FrameError DeltaDecoder)
    → decode_cells d t ≡ r
    → IsSafe d
    → IsSafe (keep d r)
unfolding keep
keep-IsSafe d t (ok d') e s = IsSafe-of_IsShown d' (decode_cells-IsShown d d' t s e)
keep-IsSafe d t (err _) e s = s

receive-IsSafe : (d : DeltaDecoder) (ts : List Bytes) → IsSafe d → IsSafe (receive d ts)
unfolding receive
receive-IsSafe d [] s = s
receive-IsSafe d (t ∷ ts) s =
    receive-IsSafe (keep d (decode_cells d t)) ts (keep-IsSafe d t (decode_cells d t) refl s)

-- A decoder that starts empty shows nothing or such a grid, after any sequence of payloads.
pub receive_new-IsSafe : (ts : List Bytes) → IsSafe (receive new_delta_decoder ts)
receive_new-IsSafe ts = receive-IsSafe new_delta_decoder ts (unfold new_delta_decoder in tt)
