-- ===== src/Ascii/Codec/Outcome.antt =====
-- internal/ascii/delta.go: what `Encode` does with an acceptable grid.
use termcall.Prelude.{
  ℕ, ◌+◌, ◌*◌, ◌/◌, ◌≤◌, ◌<◌, ◌≡◌, refl, ◌⊎◌, inl, inr, ltb, leb, ◌==◌, not, ◌||◌, ◌++◌, Option,
  none, some, arith, pos, length, Bool-cases, ok,
}
use termcall.Text.{Bytes}
use termcall.Text.Lines.{terminated}
use termcall.Ascii.Cell.{Grid}
use termcall.Ascii.Frame.{validate_grid}
use termcall.Ascii.Frame.Valid.{IsGrid, validate_grid-IsGrid}
use termcall.Ascii.Encoder.{DeltaEncoder, encode, encode_valid, encode_keyframe, frame_header}
use termcall.Ascii.Codec.Changes.{grid_lines}
use termcall.Ascii.Codec.Delta.{encode_delta-eq}

-- The previous grid of an encoder has the encoder's sides, and could be sent.
abbrev pub SoundPrev : DeltaEncoder → Option Grid → Type 0
SoundPrev e none = Unit {0}
SoundPrev e (some g) = IsGrid e.mode e.w e.h g

abbrev pub IsSound : DeltaEncoder → Type 0
IsSound e = SoundPrev e e.prev

abbrev pub after_keyframe : DeltaEncoder → Grid → ℕ → ℕ → DeltaEncoder
after_keyframe e cells w h = record e { prev = some cells; w = w; h = h; frame_count = 0 }

abbrev pub after_delta : DeltaEncoder → Grid → DeltaEncoder
after_delta e cells = record e { prev = some cells; frame_count = e.frame_count + 1 }

abbrev pub delta_text : ℕ → ℕ → Grid → Grid → Bytes
delta_text w h cells prev =
    frame_header b'D' (pos w) (pos h) (pos (length (grid_lines 0 cells prev)))
    ++ terminated (grid_lines 0 cells prev)

abbrev pub KeyframeSent : DeltaEncoder → Grid → ℕ → ℕ → Option (Bytes × DeltaEncoder) → Type 0
KeyframeSent e cells w h r = r ≡ some (encode_keyframe e.mode cells, after_keyframe e cells w h)

pub record DeltaSent (e : DeltaEncoder) (prev cells : Grid) (w h : ℕ)
    (r : Option (Bytes × DeltaEncoder)) : Type 0 where
  pub same_w : e.w ≡ w
  pub same_h : e.h ≡ h
  pub due : e.frame_count + 1 < e.keyframe_every
  pub few : length (grid_lines 0 cells prev) ≤ w * h / 2
  pub sent : r ≡ some (delta_text w h cells prev, after_delta e cells)

abbrev pub Outcome :
    DeltaEncoder → Option Grid → Grid → ℕ → ℕ → Option (Bytes × DeltaEncoder) → Type 0
Outcome e none cells w h r = KeyframeSent e cells w h r
Outcome e (some prev) cells w h r = KeyframeSent e cells w h r ⊎ DeltaSent e prev cells w h r

delta_Outcome :
    (e : DeltaEncoder) (prev cells : Grid) (w h : ℕ)
    → e.w ≡ w
    → e.h ≡ h
    → e.frame_count + 1 < e.keyframe_every
    → IsGrid e.mode w h cells
    → IsGrid e.mode w h prev
    → Outcome e (some prev) cells w h (encode_valid e (some prev) cells w h)
unfolding encode_valid frame_header
delta_Outcome e prev cells w h ew eh due v vp =
    let few = ltb (w * h / 2) (length (grid_lines 0 cells prev)) in
    elim (Bool-cases few) [
      | inl many ↦ inl (ground (arith, encode_delta-eq e.mode w h cells prev v vp))
      | inr ok_ ↦ inr (record {
        same_w = ew;
        same_h = eh;
        due = due;
        few = ground arith;
        sent = ground (arith, encode_delta-eq e.mode w h cells prev v vp);
      })
    ]

pub encode_valid-Outcome :
    (e : DeltaEncoder) (p : Option Grid) (cells : Grid) (w h : ℕ)
    → IsGrid e.mode w h cells
    → SoundPrev e p
    → Outcome e p cells w h (encode_valid e p cells w h)
unfolding encode_valid
encode_valid-Outcome e none cells w h v s = refl
encode_valid-Outcome e (some prev) cells w h v s =
    elim (Bool-cases
      (not (e.w == w) || not (e.h == h) || leb e.keyframe_every (e.frame_count + 1))) [
        | inl key ↦ inl (rw key)
        | inr delta ↦
            let ew : e.w ≡ w = ground arith in
            let eh : e.h ≡ h = ground arith in
            delta_Outcome e prev cells w h ew eh (ground arith) v (rw (ew, eh) at s)
      ]

encode_ok :
    (e : DeltaEncoder) (cells : Grid) (w h : ℕ)
    → validate_grid cells e.mode ≡ ok (w, h)
    → encode e cells ≡ encode_valid e e.prev cells w h
unfolding encode
encode_ok e cells w h v = rw (v, encode)

-- What a sound encoder does with an acceptable grid: with no grid before it sends a keyframe; else a
-- keyframe or, only at the same size, before the next keyframe is due and for at most half of the
-- cells, the delta; and its state is the one that belongs to what it has sent.
pub encode-Outcome :
    (e : DeltaEncoder) (cells : Grid) (w h : ℕ)
    → validate_grid cells e.mode ≡ ok (w, h)
    → IsSound e
    → Outcome e e.prev cells w h (encode e cells)
encode-Outcome e cells w h v s =
    rw (encode_ok e cells w h v)
      (encode_valid-Outcome e e.prev cells w h (validate_grid-IsGrid cells e.mode w h v) s)
