-- ===== src/Ascii/Renderer.antt =====
-- internal/ascii/renderer.go: `ColorRenderer`; internal/ascii/delta.go: `StatusFrame`.
--
-- `render_cells` stands for the sampling of an image, in floating point, in the renderer's mode. The
-- pointers of a renderer are not nil. `none` is a run-time panic.
pub mod Sent
pub mod Status
mod Tests
use termcall.Prelude.{
  ℕ, zero, suc, ◌+◌, ◌-◌, ◌/◌, ◌&&◌, List, [], ◌∷◌, ◌++◌, Option, none, some, ltb, leb,
  if◌then◌else◌, ℤ, pos, negsuc, length,
}
use Prim.Native.String.{String}
use termcall.Text.{Bytes, codes}
use termcall.Ascii.Cell.{Cell, Row, Grid, RenderMode, mode_ascii}
use termcall.Ascii.Stabiliser.{Stabiliser, new_stabiliser, stabilise, reset as reset_stabiliser}
use termcall.Ascii.Encoder.{DeltaEncoder, new_delta_encoder, encode, reset as reset_encoder}

pub record ColorRenderer : Type 0 where
  pub mode : RenderMode
  pub stabiliser : Stabiliser
  pub delta : DeltaEncoder

unfoldable pub new_color_renderer : RenderMode → ColorRenderer
new_color_renderer mode = record {
  mode = mode;
  stabiliser = new_stabiliser (pos 1);
  delta = new_delta_encoder mode (pos 30);
}

unfoldable pub set_mode : ColorRenderer → RenderMode → ColorRenderer
set_mode r mode = record {
  mode = mode;
  stabiliser = reset_stabiliser r.stabiliser;
  delta = reset_encoder (record r.delta { mode = mode });
}

unfoldable pub reset_renderer : ColorRenderer → ColorRenderer
reset_renderer r = record r {
  stabiliser = reset_stabiliser r.stabiliser;
  delta = reset_encoder r.delta;
}

sent_cells :
    ColorRenderer
    → Grid
    → Stabiliser
    → Option (Bytes × DeltaEncoder)
    → Option (Grid × Bytes × ColorRenderer)
sent_cells r cells stabiliser none = none
sent_cells r cells stabiliser (some (text, delta)) =
    some (cells, text, record r { stabiliser = stabiliser; delta = delta })

stabilised : ColorRenderer → Option (Grid × Stabiliser) → Option (Grid × Bytes × ColorRenderer)
unfolding sent_cells
stabilised r none = none
stabilised r (some (cells, stabiliser)) = sent_cells r cells stabiliser (encode r.delta cells)

-- `ConvertCells`, of the cells that are sampled: the cells to show, and the text to send.
unfoldable pub convert_cells : ColorRenderer → Grid → Option (Grid × Bytes × ColorRenderer)
unfolding stabilised
convert_cells r sampled = stabilised r (stabilise r.stabiliser sampled)

-- At most `room` of the printable characters.
printable : ℕ → Bytes → Bytes
printable room [] = []
printable zero (c ∷ s) = []
printable (suc room) (c ∷ s) =
    let keep = printable room s in
    let skip = printable (suc room) s in if leb 32 c && leb c 126 then c ∷ keep else skip

or_unavailable : Bytes → Bytes
or_unavailable [] = codes "Unavailable"
or_unavailable (c ∷ s) = c ∷ s

blank : ℕ → Row
blank zero = []
blank (suc n) = record { char = 32; fg = negsuc 0; bg = negsuc 0 } ∷ blank n

letters : Bytes → Row
letters [] = []
letters (c ∷ s) = record { char = c; fg = negsuc 0; bg = negsuc 0 } ∷ letters s

-- The text in the middle row of three, behind half of the blanks.
banner : ℕ → ℕ → Bytes → Grid
banner width start text =
    blank width
    ∷ (blank start ++ (letters text ++ blank (width - length text - start)))
    ∷ blank width
    ∷ []

status_width : Bytes → ℕ
status_width text = if ltb (length text + 4) 16 then 16 else length text + 4

unfoldable pub status_grid : Bytes → Grid
unfolding printable or_unavailable banner blank letters status_width
status_grid message =
    let text = or_unavailable (printable 40 message) in
    banner (status_width text) ((status_width text - length text) / 2) text

text_of : Option (Bytes × DeltaEncoder) → Option Bytes
text_of none = none
text_of (some (text, e)) = some text

unfoldable pub status_frame : Bytes → Option Bytes
unfolding text_of
status_frame message = text_of (encode (new_delta_encoder mode_ascii (pos 1)) (status_grid message))
