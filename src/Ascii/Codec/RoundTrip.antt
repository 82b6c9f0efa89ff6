-- ===== src/Ascii/Codec/RoundTrip.antt =====
-- internal/ascii/delta.go: streams of frames between the encoder and the decoder.
use termcall.Prelude.{
  ℕ, ◌*◌, ◌/◌, ◌≤◌, ◌≡◌, refl, ap, ◌∙◌, inl, inr, List, [], ◌∷◌, Option, none, some, arith, length,
  ok, err, Result-cases,
}
use termcall.Text.{Bytes}
use termcall.Ascii.Cell.{Grid, RenderMode}
use termcall.Ascii.Frame.{validate_grid, FrameError, max_encoded_frame_bytes}
use termcall.Ascii.Frame.Valid.{IsGrid, validate_grid-IsGrid}
use termcall.Ascii.Encoder.{DeltaEncoder, encode, encode_keyframe, frame_header}
use termcall.Ascii.Decoder.{DeltaDecoder, decode_cells, decode_keyframe, decode_delta}
use termcall.Ascii.Codec.Keyframe.{holding, decode_keyframe-encode_keyframe}
use termcall.Ascii.Codec.Changes.{grid_lines}
use termcall.Ascii.Codec.Delta.{decode_delta-frame}
use termcall.Ascii.Codec.Size.{size_bound, length-encode_keyframe, length-delta}
use termcall.Ascii.Codec.Outcome.{
  IsSound, SoundPrev, Outcome, KeyframeSent, DeltaSent, after_keyframe, after_delta, delta_text,
  encode-Outcome,
}

decode_cells_key :
    (d : DeltaDecoder) (s : Bytes)
    → length (b'K' ∷ s) ≤ max_encoded_frame_bytes
    → decode_cells d (b'K' ∷ s) ≡ decode_keyframe (b'K' ∷ s)
unfolding decode_cells
decode_cells_key d s h = ground arith

decode_cells_delta :
    (d : DeltaDecoder) (s : Bytes)
    → length (b'D' ∷ s) ≤ max_encoded_frame_bytes
    → decode_cells d (b'D' ∷ s) ≡ decode_delta d (b'D' ∷ s)
unfolding decode_cells
decode_cells_delta d s h = ground arith

-- Any decoder, whatever it missed, is brought in step by a keyframe.
pub decode_cells-encode_keyframe :
    (d : DeltaDecoder) (mode : RenderMode) (w h : ℕ) (cells : Grid)
    → IsGrid mode w h cells
    → decode_cells d (encode_keyframe mode cells) ≡ ok (holding mode w h cells)
unfolding encode_keyframe frame_header
decode_cells-encode_keyframe d mode w h cells v =
    decode_cells_key d _ (omega (arith, length-encode_keyframe mode w h cells v))
    ∙ decode_keyframe-encode_keyframe mode w h cells v

-- The decoder holds the encoder's previous grid, if there is one.
abbrev pub FollowsPrev : DeltaEncoder → Option Grid → DeltaDecoder → Type 0
FollowsPrev e none d = Unit {0}
FollowsPrev e (some g) d = d ≡ holding e.mode e.w e.h g

pub record InStep (e : DeltaEncoder) (d : DeltaDecoder) : Type 0 where
  pub sound : IsSound e
  pub follows : FollowsPrev e e.prev d

-- What one frame does at both ends: it is sent, and read as the grid that was encoded.
pub record Delivered (e : DeltaEncoder) (d : DeltaDecoder) (cells : Grid) : Type 0 where
  pub text : Bytes
  pub encoder : DeltaEncoder
  pub decoder : DeltaDecoder
  pub encoded : encode e cells ≡ some (text, encoder)
  pub decoded : decode_cells d text ≡ ok decoder
  pub shown : decoder.grid ≡ cells
  pub shown_mode : decoder.mode ≡ e.mode
  pub same_mode : encoder.mode ≡ e.mode
  pub in_step : InStep encoder decoder
  pub small : length text ≤ size_bound

keyframe_Delivered :
    (e : DeltaEncoder) (d : DeltaDecoder) (cells : Grid) (w h : ℕ)
    → IsGrid e.mode w h cells
    → KeyframeSent e cells w h (encode e cells)
    → Delivered e d cells
keyframe_Delivered e d cells w h v k = record {
  text = encode_keyframe e.mode cells;
  encoder = after_keyframe e cells w h;
  decoder = holding e.mode w h cells;
  encoded = k;
  decoded = decode_cells-encode_keyframe d e.mode w h cells v;
  shown = refl;
  shown_mode = refl;
  same_mode = refl;
  in_step = record { sound = v; follows = refl };
  small = length-encode_keyframe e.mode w h cells v;
}

decode_cells-delta_text :
    (mode : RenderMode) (w h : ℕ) (cells prev : Grid) (d : DeltaDecoder)
    → IsGrid mode w h cells
    → IsGrid mode w h prev
    → length (grid_lines 0 cells prev) ≤ w * h / 2
    → d ≡ holding mode w h prev
    → decode_cells d (delta_text w h cells prev) ≡ ok (holding mode w h cells)
unfolding frame_header
decode_cells-delta_text mode w h cells prev d v vp few e =
    decode_cells_delta d _ (omega (arith, length-delta mode w h cells prev v few))
    ∙ ap (λ k. decode_delta k (delta_text w h cells prev)) e
    ∙ decode_delta-frame mode w h cells prev v vp few

delta_Delivered :
    (e : DeltaEncoder) (d : DeltaDecoder) (prev cells : Grid) (w h : ℕ)
    → IsGrid e.mode w h cells
    → IsGrid e.mode e.w e.h prev
    → d ≡ holding e.mode e.w e.h prev
    → DeltaSent e prev cells w h (encode e cells)
    → Delivered e d cells
delta_Delivered e d prev cells w h v vp f s =
    let vp' : IsGrid e.mode w h prev = rw (s.same_w, s.same_h) at vp in
    let f' : d ≡ holding e.mode w h prev = rw (s.same_w, s.same_h) at f in
    record {
      text = delta_text w h cells prev;
      encoder = after_delta e cells;
      decoder = holding e.mode w h cells;
      encoded = s.sent;
      decoded = decode_cells-delta_text e.mode w h cells prev d v vp' s.few f';
      shown = refl;
      shown_mode = refl;
      same_mode = refl;
      in_step = record { sound = rw (s.same_w, s.same_h) v; follows = rw (s.same_w, s.same_h) };
      small = length-delta e.mode w h cells prev v s.few;
    }

Outcome-Delivered :
    (e : DeltaEncoder) (d : DeltaDecoder) (p : Option Grid) (cells : Grid) (w h : ℕ)
    → IsGrid e.mode w h cells
    → SoundPrev e p
    → FollowsPrev e p d
    → Outcome e p cells w h (encode e cells)
    → Delivered e d cells
Outcome-Delivered e d none cells w h v s f o = keyframe_Delivered e d cells w h v o
Outcome-Delivered e d (some prev) cells w h v s f (inl k) = keyframe_Delivered e d cells w h v k
Outcome-Delivered e d (some prev) cells w h v s f (inr o) =
    delta_Delivered e d prev cells w h v s f o

-- If the decoder holds what the encoder sent last, or the encoder has sent nothing since it was
-- reset, then every acceptable grid is sent as a text of at most `size_bound` bytes, the decoder
-- reads it as the very grid and mode, and both are in step again.
pub encode-Delivered :
    (e : DeltaEncoder) (d : DeltaDecoder) (cells : Grid) (w h : ℕ)
    → InStep e d
    → validate_grid cells e.mode ≡ ok (w, h)
    → Delivered e d cells
encode-Delivered e d cells w h i v =
    Outcome-Delivered e d e.prev cells w h (validate_grid-IsGrid cells e.mode w h v) i.sound
      i.follows (encode-Outcome e cells w h v i.sound)

-- A stream: each grid is encoded, its text decoded, and the decoder's grid shown.
-- `none` where the encoder fails or the decoder refuses.
show_rest : Grid → Option (List Grid) → Option (List Grid)
show_rest g none = none
show_rest g (some gs) = some (g ∷ gs)

pub transmit : List Grid → DeltaEncoder → DeltaDecoder → Option (List Grid)
transmit [] e d = some []
transmit (g ∷ gs) e d = elim (encode e g) [
  | none ↦ none
  | some (text, e') ↦ elim (decode_cells d text) [
    | err _ ↦ none
    | ok d' ↦ show_rest d'.grid (transmit gs e' d')
  ]
]

show_rest-some :
    (g g' : Grid) (gs : List Grid) (rest : Option (List Grid))
    → g' ≡ g
    → rest ≡ some gs
    → show_rest g' rest ≡ some (g ∷ gs)
unfolding show_rest
show_rest-some g g' gs rest eg er = rw (er, eg)

-- Every grid of the list can be sent in this mode.
abbrev pub AllValid : RenderMode → List Grid → Type 0
AllValid mode [] = Unit {0}
AllValid mode (g ∷ gs) = ((w : ℕ) × (h : ℕ) × (validate_grid g mode ≡ ok (w, h))) × AllValid mode gs

transmit_step :
    (e e' : DeltaEncoder) (d d' : DeltaDecoder) (g : Grid) (gs : List Grid) (text : Bytes)
    → encode e g ≡ some (text, e')
    → decode_cells d text ≡ ok d'
    → transmit (g ∷ gs) e d ≡ show_rest d'.grid (transmit gs e' d')
unfolding transmit
transmit_step e e' d d' g gs text h k = rw (h, transmit, k)

-- A stream of acceptable grids arrives whole: the receiver shows each grid as it was, through
-- keyframes, deltas, and changes of size.
pub transmit-eq :
    (gs : List Grid) (e : DeltaEncoder) (d : DeltaDecoder)
    → InStep e d
    → AllValid e.mode gs
    → transmit gs e d ≡ some gs
transmit-eq [] e d i v = unfold transmit in refl
transmit-eq (g ∷ gs) e d i ((w, h, vg), v) =
    let r = encode-Delivered e d g w h i vg in
    let ih = transmit-eq gs r.encoder r.decoder r.in_step (rw r.same_mode v) in
    transmit_step e r.encoder d r.decoder g gs r.text r.encoded r.decoded
    ∙ show_rest-some g r.decoder.grid gs (transmit gs r.encoder r.decoder) r.shown ih

encode_err :
    (e : DeltaEncoder) (cells : Grid) (error : FrameError)
    → validate_grid cells e.mode ≡ err error
    → encode e cells ≡ some ([], e)
unfolding encode
encode_err e cells error h = rw (h, encode)

following : (e : DeltaEncoder) (p : Option Grid) → (d : DeltaDecoder) × FollowsPrev e p d
following e none = (holding e.mode 0 0 [], tt)
following e (some g) = (holding e.mode e.w e.h g, refl)

-- An encoder that is sound never panics, whatever grid it is given: it returns a text within the
-- bound, empty for a grid that cannot be sent, and stays sound.
pub encode_total :
    (e : DeltaEncoder) (cells : Grid)
    → IsSound e
    → (text : Bytes) × (e' : DeltaEncoder) × (encode e cells ≡ some (text, e'))
      × IsSound e'
      × (length text ≤ size_bound)
encode_total e cells s = elim (Result-cases (validate_grid cells e.mode)) [
  | inl (error, bad) ↦ ([], e, encode_err e cells error bad, s, omega arith)
  | inr ((w, h), good) ↦
      let (d, f) = following e e.prev in
      let r = encode-Delivered e d cells w h (record { sound = s; follows = f }) good in
      (r.text, r.encoder, r.encoded, r.in_step.sound, r.small)
]
