-- ===== src/Ascii/Renderer/Status.antt =====
-- internal/ascii/delta.go: `StatusFrame` and the decoder.
use termcall.Ascii.Frame.{valid_mode}
use termcall.Prelude.{
  ℕ, zero, suc, ◌+◌, ◌-◌, ◌/◌, ◌≤◌, ◌≡◌, refl, ap, inl, inr, ◌&&◌, [], ◌∷◌, ◌++◌, some, arith, leb,
  pos, ok, length, length-append, All, All-append, Bool-cases,
}
use termcall.Text.{Bytes}
use termcall.Ascii.Cell.{Row, mode_ascii}
use termcall.Ascii.Frame.Valid.{IsCell, IsRow, IsGrid, validate_grid_complete}
use termcall.Ascii.Encoder.{new_delta_encoder}
use termcall.Ascii.Decoder.{DeltaDecoder, decode_cells}
use termcall.Ascii.Codec.RoundTrip.{encode-Delivered}
use termcall.Ascii.Renderer.{
  printable, or_unavailable, blank, letters, banner, status_width, status_grid, text_of,
  status_frame,
}

abbrev Printable : ℕ → Type 0
Printable c = (32 ≤ c) × (c ≤ 126)

printable-Printable :
    (room : ℕ) (s : Bytes) → All Printable (printable room s) × (length (printable room s) ≤ room)
unfolding printable
printable-Printable room [] = (tt, omega arith)
printable-Printable zero (c ∷ s) = (tt, omega arith)
printable-Printable (suc room) (c ∷ s) = elim (Bool-cases (leb 32 c && leb c 126)) [
  | inl e ↦
      let (all, short) = printable-Printable room s in
      rw e ((ground arith, all), omega (arith, short))
  | inr e ↦ rw e (printable-Printable (suc room) s)
]

text-Printable :
    (s : Bytes)
    → All Printable s × (length s ≤ 40)
    → All Printable (or_unavailable s)
      × (1 ≤ length (or_unavailable s))
      × (length (or_unavailable s) ≤ 40)
unfolding or_unavailable
text-Printable [] h = (ground arith, omega arith, omega arith)
text-Printable (c ∷ s) h = (h.0, omega arith, h.1)

blank-IsRow : (n : ℕ) → IsRow mode_ascii n (blank n)
unfolding blank
blank-IsRow zero = (refl, tt)
blank-IsRow (suc n) = let (l, cells) = blank-IsRow n in (ap suc l, (ground arith, cells))

letters-IsRow : (s : Bytes) → All Printable s → IsRow mode_ascii (length s) (letters s)
unfolding letters
letters-IsRow [] h = (refl, tt)
letters-IsRow (c ∷ s) h =
    let (l, cells) = letters-IsRow s h.1 in (ap suc l, (ground (arith, h.0), cells))

append-IsRow :
    (m n : ℕ) (a b : Row)
    → IsRow mode_ascii m a
    → IsRow mode_ascii n b
    → IsRow mode_ascii (m + n) (a ++ b)
append-IsRow m n a b ha hb =
    (omega (arith, length-append a b, ha.0, hb.0), All-append (IsCell mode_ascii) a b ha.1 hb.1)

banner-IsGrid :
    (w start : ℕ) (s : Bytes)
    → All Printable s
    → 1 ≤ w
    → w ≤ 100
    → start + length s ≤ w
    → IsGrid mode_ascii w 3 (banner w start s)
unfolding banner valid_mode
banner-IsGrid w start s h low high fits =
    let inner =
      append-IsRow (length s) (w - length s - start) (letters s) (blank (w - length s - start))
        (letters-IsRow s h) (blank-IsRow (w - length s - start)) in
    let middle =
      append-IsRow start (length s + (w - length s - start)) (blank start)
        (letters s ++ blank (w - length s - start)) (blank-IsRow start) inner in
    record {
      known_mode = refl;
      wide = omega arith;
      narrow = omega arith;
      tall = omega arith;
      low = omega arith;
      high = omega arith;
      rows = (blank-IsRow w, ((omega (arith, middle.0, fits), middle.1), (blank-IsRow w, tt)));
    }

pub status_grid-IsGrid : (message : Bytes) → (w : ℕ) × IsGrid mode_ascii w 3 (status_grid message)
unfolding status_grid status_width
status_grid-IsGrid message =
    let (all, low, high) = text-Printable (printable 40 message) (printable-Printable 40 message) in
    let text : Bytes = or_unavailable (printable 40 message) in
    (
      status_width text,
      banner-IsGrid (status_width text) ((status_width text - length text) / 2) text all
          (ground arith) (ground arith) (ground arith),
    )

-- A status, sent and read.
pub record StatusShown (message : Bytes) (d : DeltaDecoder) : Type 0 where
  pub text : Bytes
  pub decoder : DeltaDecoder
  pub sent : status_frame message ≡ some text
  pub decoded : decode_cells d text ≡ ok decoder
  pub same : decoder.grid ≡ status_grid message

-- Every message gives a status frame, and a decoder in any state reads it as the grid of the
-- message.
pub status_frame-StatusShown : (message : Bytes) (d : DeltaDecoder) → StatusShown message d
unfolding status_frame text_of new_delta_encoder
status_frame-StatusShown message d =
    let (w, v) = status_grid-IsGrid message in
    let sent =
      encode-Delivered (new_delta_encoder mode_ascii (pos 1)) d (status_grid message) w 3
        (record { sound = tt; follows = tt })
        (validate_grid_complete (status_grid message) mode_ascii w 3 v) in
    record {
      text = sent.text;
      decoder = sent.decoder;
      sent = rw (sent.encoded);
      decoded = sent.decoded;
      same = sent.shown;
    }
