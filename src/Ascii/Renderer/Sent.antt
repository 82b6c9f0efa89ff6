-- ===== src/Ascii/Renderer/Sent.antt =====
-- internal/ascii/renderer.go: what is shown at home, and what a peer decodes.
use mathlib.Core.Path.{subst}
use termcall.Prelude.{
  ℕ, suc, ◌≡◌, refl, sym, ap, ◌∙◌, [], ◌∷◌, Option, none, some, arith, ℤ, pos, ok, length, All,
}
use termcall.Text.{Bytes}
use termcall.Ascii.Cell.{Cell, Row, Grid, RenderMode, width}
use termcall.Ascii.Frame.Valid.{IsCell, IsRow, IsGrid, width-eq, validate_grid_complete}
use termcall.Ascii.Stabiliser.{new_stabiliser, reset as reset_stabiliser}
use termcall.Ascii.Stabiliser.Suppression.{NearRow, NearGrid, Rows, IsModerate, Moderate}
use termcall.Ascii.Stabiliser.Near.{Shaped, ModerateBaseline, stabilise-Steadied}
use termcall.Ascii.Stabiliser.Kept.{Cells, Baseline, stabilise-Cells}
use termcall.Ascii.Frame.{validate_grid}
use termcall.Ascii.Encoder.{new_delta_encoder, reset as reset_encoder}
use termcall.Ascii.Decoder.{DeltaDecoder, decode_cells}
use termcall.Ascii.Codec.RoundTrip.{InStep, encode-Delivered}
use termcall.Ascii.Renderer.{
  ColorRenderer, new_color_renderer, set_mode, convert_cells, stabilised, sent_cells,
}

near_length : (t : ℤ) (ns cs : Row) → NearRow t ns cs → length cs ≡ length ns
near_length t [] [] h = refl
near_length t (n ∷ ns) (c ∷ cs) h = ap suc (near_length t ns cs h.1)
near_length t [] (c ∷ cs) h = absurd h
near_length t (n ∷ ns) [] h = absurd h

near_sides :
    (t : ℤ) (w : ℕ) (ns cs : Grid)
    → NearGrid t ns cs
    → Rows w ns
    → Rows w cs × (length cs ≡ length ns)
near_sides t w [] [] h r = (tt, refl)
near_sides t w (n ∷ ns) (c ∷ cs) h r =
    let (rows, high) = near_sides t w ns cs h.1 r.1 in
    ((near_length t n c h.0 ∙ r.0, rows), ap suc high)
near_sides t w [] (c ∷ cs) h r = absurd h
near_sides t w (n ∷ ns) [] h r = absurd h

-- The renderer after its own frames, and a peer's decoder behind it.
pub record Ready (r : ColorRenderer) (d : DeltaDecoder) : Type 0 where
  pub shaped : Shaped r.stabiliser r.stabiliser.prev
  pub valid : Baseline (IsCell r.mode) r.stabiliser.prev
  pub one_step : r.stabiliser.threshold ≡ pos 1
  pub same_mode : r.delta.mode ≡ r.mode
  pub in_step : InStep r.delta d

-- What one frame does: it is shown, sent and decoded.
pub record Shown (r : ColorRenderer) (d : DeltaDecoder) (sampled : Grid) : Type 0 where
  pub cells : Grid
  pub text : Bytes
  pub after : ColorRenderer
  pub decoder : DeltaDecoder
  pub converted : convert_cells r sampled ≡ some (cells, text, after)
  pub decoded : decode_cells d text ≡ ok decoder
  pub same : decoder.grid ≡ cells
  pub same_mode : decoder.mode ≡ r.mode
  pub near : NearGrid (pos 1) sampled cells
  pub ready : Ready after decoder

split_grid :
    (mode : RenderMode) (w : ℕ) (g : Grid) → All (IsRow mode w) g → Rows w g × Cells (IsCell mode) g
split_grid mode w [] h = (tt, tt)
split_grid mode w (r ∷ g) h = let (a, b) = split_grid mode w g h.1 in ((h.0.0, a), (h.0.1, b))

join_grid :
    (mode : RenderMode) (w : ℕ) (g : Grid) → Rows w g → Cells (IsCell mode) g → All (IsRow mode w) g
join_grid mode w [] a b = tt
join_grid mode w (r ∷ g) a b = ((a.0, b.0), join_grid mode w g a.1 b.1)

cell-IsModerate : (mode : RenderMode) (c : Cell) → IsCell mode c → IsModerate c
cell-IsModerate mode c h =
    let low = h.fg_low in
    let high = h.fg_high in let bg_low = h.bg_low in let bg_high = h.bg_high in ground arith

row-IsModerate : (mode : RenderMode) (r : Row) → All (IsCell mode) r → All IsModerate r
row-IsModerate mode [] h = tt
row-IsModerate mode (c ∷ r) h = (cell-IsModerate mode c h.0, row-IsModerate mode r h.1)

moderate : (mode : RenderMode) (g : Grid) → Cells (IsCell mode) g → Moderate g
moderate mode [] h = tt
moderate mode (r ∷ g) h = (row-IsModerate mode r h.0, moderate mode g h.1)

moderate_baseline :
    (mode : RenderMode) (p : Option Grid) → Baseline (IsCell mode) p → ModerateBaseline p
moderate_baseline mode none h = tt
moderate_baseline mode (some g) h = moderate mode g h

-- For a renderer that is ready and a peer's decoder behind it, an acceptable grid of sampled cells
-- is converted; the text that is sent is decoded to the very grid and mode that is shown at home,
-- in which every cell is the sampled one or has its character and colours within one step of it;
-- and both are ready for the next frame.
pub convert_cells-Shown :
    (r : ColorRenderer) (d : DeltaDecoder) (sampled : Grid) (w h : ℕ)
    → Ready r d
    → IsGrid r.mode w h sampled
    → Shown r d sampled
unfolding convert_cells stabilised sent_cells
convert_cells-Shown r d sampled w h ready v =
    let (rows, cells) = split_grid r.mode w sampled v.rows in
    let sides : Rows (width sampled) sampled =
      subst (λ k. Rows k sampled) (sym (width-eq r.mode w h sampled v)) rows in
    let s =
      stabilise-Steadied r.stabiliser sampled ready.shaped sides (moderate r.mode sampled cells)
        (moderate_baseline r.mode r.stabiliser.prev ready.valid) in
    let (out_rows, out_high) = near_sides r.stabiliser.threshold w sampled s.out s.near rows in
    let out_cells : Cells (IsCell r.mode) s.out =
      stabilise-Cells (IsCell r.mode) r.stabiliser s.after sampled s.out cells ready.valid
        s.answered in
    let out_grid : IsGrid r.mode w h s.out = record {
      known_mode = v.known_mode;
      wide = v.wide;
      narrow = v.narrow;
      tall = v.tall;
      low = v.low;
      high = out_high ∙ v.high;
      rows = join_grid r.mode w s.out out_rows out_cells;
    } in
    let accepted =
      subst (λ m. validate_grid s.out m ≡ ok (w, h)) (sym ready.same_mode)
        (validate_grid_complete s.out r.mode w h out_grid) in
    let sent = encode-Delivered r.delta d s.out w h ready.in_step accepted in
    record {
      cells = s.out;
      text = sent.text;
      after = record r { stabiliser = s.after; delta = sent.encoder };
      decoder = sent.decoder;
      converted = rw (s.answered, sent.encoded);
      decoded = sent.decoded;
      same = sent.shown;
      same_mode = sent.shown_mode ∙ ready.same_mode;
      near = subst (λ t. NearGrid t sampled s.out) ready.one_step s.near;
      ready = record {
        shaped = s.shaped;
        valid = subst (Baseline (IsCell r.mode)) (sym s.baseline) out_cells;
        one_step = s.same_threshold ∙ ready.one_step;
        same_mode = sent.same_mode ∙ ready.same_mode;
        in_step = sent.in_step;
      };
    }

-- A mode that is set, or a reset, makes the renderer ready for a decoder of any state.
pub set_mode-Ready :
    (r : ColorRenderer) (mode : RenderMode) (d : DeltaDecoder)
    → r.stabiliser.threshold ≡ pos 1
    → Ready (set_mode r mode) d
unfolding set_mode reset_stabiliser reset_encoder
set_mode-Ready r mode d h = record {
  shaped = tt;
  valid = tt;
  one_step = h;
  same_mode = refl;
  in_step = record { sound = tt; follows = tt };
}

pub new_color_renderer-Ready :
    (mode : RenderMode) (d : DeltaDecoder) → Ready (new_color_renderer mode) d
unfolding new_color_renderer new_stabiliser new_delta_encoder
new_color_renderer-Ready mode d = record {
  shaped = tt;
  valid = tt;
  one_step = refl;
  same_mode = refl;
  in_step = record { sound = tt; follows = tt };
}
