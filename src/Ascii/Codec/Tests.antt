-- ===== src/Ascii/Codec/Tests.antt =====
-- Runs of the encoder and the decoder on small grids.
use termcall.Prelude.{true, ◌≡◌, refl, [], ◌∷◌, some, none, pos, negsuc, ◌≤◌, length, ok, err}
use termcall.Text.{codes, Bytes}
use termcall.Text.Decimal.{itoa, atoi}
use termcall.Text.Split.{split, cut_byte, trim_newline}
use termcall.Text.Fields.{fields}
use termcall.Ascii.Cell.{Cell, Grid, mode_ascii, cell_eq}
use termcall.Ascii.Frame.{
  validate_grid, validate_row, validate_rows, validate_dimensions, valid_mode, parse_int,
  parse_cell_fields, check_cell, split_frame, payload_lines, missing_keyframe,
}
use termcall.Ascii.Encoder.{
  DeltaEncoder, encode, encode_keyframe, encode_delta, key_cell, key_rest, key_row, key_rows,
  frame_header, change_line, delta_row, delta_rows,
}
use termcall.Ascii.Decoder.{
  DeltaDecoder, new_delta_decoder, decode_cells, decode_delta, parse_header, parse_change,
  apply_changes, contains, set_cell,
}
use termcall.Ascii.Frame.Valid.{IsGrid, validate_grid-IsGrid}
use termcall.Ascii.Codec.Size.{size_bound}
use termcall.Ascii.Codec.Outcome.{IsSound}
use termcall.Ascii.Codec.RoundTrip.{
  InStep, Delivered, encode-Delivered, transmit, transmit-eq, encode_total,
}
use termcall.Ascii.Codec.Hostile.{
  IsSafe, IsShown, decode_cells-IsShown, receive, receive_new-IsSafe,
}

abbrev pub one : Cell
one = record { char = b'@'; fg = pos 12; bg = negsuc 0 }

abbrev pub two : Cell
two = record { char = b'.'; fg = negsuc 0; bg = pos 255 }

abbrev pub first_grid : Grid
first_grid = (one ∷ two ∷ []) ∷ (two ∷ two ∷ []) ∷ []

abbrev pub second_grid : Grid
second_grid = (one ∷ one ∷ []) ∷ (two ∷ two ∷ []) ∷ []

abbrev pub fresh : DeltaEncoder
fresh = record {
  prev = none;
  w = 0;
  h = 0;
  mode = mode_ascii;
  frame_count = 0;
  keyframe_every = 30;
}

abbrev pub after_first : DeltaEncoder
after_first = record fresh { prev = some first_grid; w = 2; h = 2 }

keyframe_text :
    encode fresh first_grid
    ≡ some (codes "K 2 2 0\n12,-1,64;-1,255,46\n-1,255,46;-1,255,46\n", after_first)
unfolding encode encode_keyframe encode_delta key_cell key_rest key_row key_rows frame_header
    validate_grid validate_rows validate_row validate_dimensions valid_mode parse_cell_fields
    parse_int check_cell itoa atoi
keyframe_text = refl

delta_text :
    encode after_first second_grid
    ≡ some (
      codes "D 2 2 1\n0 1 12 -1 64\n",
      record after_first { prev = some second_grid; frame_count = 1 },
    )
unfolding encode encode_keyframe encode_delta key_cell key_rest key_row key_rows frame_header
    validate_grid validate_rows validate_row validate_dimensions valid_mode parse_cell_fields
    parse_int check_cell itoa atoi change_line delta_row delta_rows cell_eq
delta_text = refl

pub reader : DeltaDecoder
reader = record { grid = first_grid; w = 2; h = 2; mode = mode_ascii; has = true }

delta_read :
    decode_cells reader (codes "D 2 2 1\n0 1 12 -1 64\n")
    ≡ ok (record reader { grid = second_grid })
unfolding reader decode_cells decode_delta split_frame payload_lines parse_header parse_change
    apply_changes contains set_cell parse_int parse_cell_fields check_cell atoi cut_byte split
    trim_newline fields validate_dimensions
delta_read = refl

no_keyframe : decode_cells new_delta_decoder (codes "D 2 2 0\n") ≡ err missing_keyframe
unfolding new_delta_decoder decode_cells decode_delta split_frame payload_lines parse_header
    parse_change apply_changes contains set_cell parse_int parse_cell_fields check_cell atoi
    cut_byte split trim_newline fields validate_dimensions
no_keyframe = refl

first_valid : validate_grid first_grid mode_ascii ≡ ok (2, 2)
unfolding validate_grid validate_rows validate_row validate_dimensions valid_mode parse_cell_fields
    parse_int check_cell itoa atoi
first_valid = refl

second_valid : validate_grid second_grid mode_ascii ≡ ok (2, 2)
unfolding validate_grid validate_rows validate_row validate_dimensions valid_mode parse_cell_fields
    parse_int check_cell itoa atoi
second_valid = refl

fresh-InStep : InStep fresh new_delta_decoder
fresh-InStep = record { sound = tt; follows = tt }

first_grid-IsGrid : IsGrid mode_ascii 2 2 first_grid
first_grid-IsGrid = validate_grid-IsGrid first_grid mode_ascii 2 2 first_valid

reader-IsSafe : IsSafe reader
unfolding reader
reader-IsSafe = first_grid-IsGrid

transmit-eq_example :
    transmit (first_grid ∷ second_grid ∷ []) fresh new_delta_decoder
    ≡ some (first_grid ∷ second_grid ∷ [])
transmit-eq_example =
    transmit-eq (first_grid ∷ second_grid ∷ []) fresh new_delta_decoder fresh-InStep
      ((2, 2, first_valid), ((2, 2, second_valid), tt))

encode-Delivered_example : Delivered fresh new_delta_decoder first_grid
encode-Delivered_example =
    encode-Delivered fresh new_delta_decoder first_grid 2 2 fresh-InStep first_valid

encode_total_example :
    (text : Bytes) × (e' : DeltaEncoder) × (encode fresh second_grid ≡ some (text, e'))
    × IsSound e'
    × (length text ≤ size_bound)
encode_total_example = encode_total fresh second_grid tt

decode_cells-IsShown_example : IsShown (record reader { grid = second_grid })
decode_cells-IsShown_example =
    decode_cells-IsShown reader (record reader { grid = second_grid })
      (codes "D 2 2 1\n0 1 12 -1 64\n") reader-IsSafe delta_read

receive_new-IsSafe_example :
    IsSafe (receive new_delta_decoder (codes "K 1 1 0\n1,1,64\n" ∷ codes "D 1 1 9\n" ∷ []))
receive_new-IsSafe_example = receive_new-IsSafe (codes "K 1 1 0\n1,1,64\n" ∷ codes "D 1 1 9\n" ∷ [])
