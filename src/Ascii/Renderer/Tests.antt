-- ===== src/Ascii/Renderer/Tests.antt =====
-- A frame that is converted and decoded, and a status.
use termcall.Prelude.{refl, arith, [], ◌∷◌, pos, negsuc}
use termcall.Ascii.Cell.{Grid, mode_ascii}
use termcall.Ascii.Frame.{valid_mode}
use termcall.Ascii.Frame.Valid.{IsGrid}
use termcall.Ascii.Decoder.{new_delta_decoder}
use termcall.Ascii.Renderer.{new_color_renderer}
use termcall.Ascii.Renderer.Sent.{Shown, new_color_renderer-Ready, convert_cells-Shown}
use termcall.Ascii.Renderer.Status.{StatusShown, status_frame-StatusShown}
use termcall.Text.{codes}

abbrev frame : Grid
frame =
    (record { char = b'a'; fg = negsuc 0; bg = negsuc 0 }
      ∷ record { char = b'b'; fg = pos 7; bg = negsuc 0 }
      ∷ [])
    ∷ []

frame-IsGrid : IsGrid mode_ascii 2 1 frame
unfolding valid_mode
frame-IsGrid = record {
  known_mode = refl;
  wide = omega arith;
  narrow = omega arith;
  tall = omega arith;
  low = omega arith;
  high = omega arith;
  rows = ground arith;
}

convert_cells-Shown_example : Shown (new_color_renderer mode_ascii) new_delta_decoder frame
unfolding new_color_renderer
convert_cells-Shown_example =
    convert_cells-Shown (new_color_renderer mode_ascii) new_delta_decoder frame 2 1
      (new_color_renderer-Ready mode_ascii new_delta_decoder) frame-IsGrid

status_frame-StatusShown_example : StatusShown (codes "Camera off") new_delta_decoder
status_frame-StatusShown_example = status_frame-StatusShown (codes "Camera off") new_delta_decoder
