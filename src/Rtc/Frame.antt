-- ===== src/Rtc/Frame.antt =====
-- internal/rtc/mesh.go: the frames on the data channel, `BroadcastFrame` and `parseTaggedFrame`.
use termcall.Prelude.{
  ℕ, ◌+◌, ◌*◌, ◌%◌, ◌^◌, ◌≤◌, ◌<◌, ◌≡◌, ◌∙◌, inl, Bool, false, not, ◌&&◌, ◌||◌, List, [], ◌∷◌, ◌++◌,
  Option, none, some, arith, ltb, ◌==◌, if◌then◌else◌, pos, length, length-append, Text,
}
use termcall.Text.{Bytes}
use termcall.Text.Decimal.{
  format_uint, itoa, parse_uint64, length-format_uint, format_uint_cons, parse_uint64-format_uint,
}
use termcall.Text.Split.{cut_byte, cut_byte-append, Lacks}
use termcall.Text.Numerals.{itoa-Lacks}
use termcall.Ascii.Frame.{max_encoded_frame_bytes}

abbrev pub max_buffered_amount : ℕ
max_buffered_amount = 64 * 1024

unfoldable pub tag_frame : ℕ → Bytes → Bytes
tag_frame sequence frame = format_uint sequence ++ b'\n' ∷ frame

sized : Option ℕ → Bytes → Option (ℕ × Bytes)
sized none frame = none
sized (some sequence) frame =
    if sequence == 0 || length frame == 0 || ltb max_encoded_frame_bytes (length frame)
    then none
    else some (sequence, frame)

tagged : Option (Bytes × Bytes) → Option (ℕ × Bytes)
unfolding sized
tagged none = none
tagged (some (number, frame)) =
    if ltb (length number) 1 || ltb 20 (length number)
    then none
    else sized (parse_uint64 number) frame

unfoldable pub parse_tagged_frame : Bytes → Option (ℕ × Bytes)
unfolding tagged
parse_tagged_frame raw =
    if ltb (max_encoded_frame_bytes + 21) (length raw) then none else tagged (cut_byte b'\n' raw)

-- A peer's data channel, as `BroadcastFrame` sees it.
pub record Channel : Type 0 where
  pub is_open : Bool
  pub buffered_amount : ℕ

unfoldable pub takes_frame : Option Channel → Bool
takes_frame none = false
takes_frame (some c) = c.is_open && not (ltb max_buffered_amount c.buffered_amount)

unfoldable pub receivers : List (Text × Option Channel) → List Text
receivers [] = []
receivers ((id, c) ∷ peers) =
    let rest = receivers peers in if takes_frame c then id ∷ rest else rest

-- The new value of the sequence counter, and who is sent what.
unfoldable pub broadcast_frame : ℕ → List (Text × Option Channel) → Bytes → ℕ × List Text × Bytes
broadcast_frame frame_seq peers frame =
    if length frame == 0 || ltb max_encoded_frame_bytes (length frame)
    then (frame_seq, [], [])
    else ((frame_seq + 1) % 2 ^ 64, receivers peers, tag_frame ((frame_seq + 1) % 2 ^ 64) frame)

format_uint-Lacks : (n : ℕ) → Lacks b'\n' (format_uint n)
unfolding itoa
format_uint-Lacks n = itoa-Lacks b'\n' (pos n) (inl (omega arith))

format_uint-filled : (n : ℕ) → 0 < length (format_uint n)
format_uint-filled n = let (c, s, e, h, t) = format_uint_cons n in rw e (omega arith)

sized-some :
    (sequence : ℕ) (frame : Bytes)
    → 0 < sequence
    → 0 < length frame
    → length frame ≤ max_encoded_frame_bytes
    → sized (some sequence) frame ≡ some (sequence, frame)
unfolding sized
sized-some sequence frame a c d = ground arith

tagged-some :
    (sequence : ℕ) (number frame : Bytes)
    → 0 < length number
    → length number ≤ 20
    → parse_uint64 number ≡ some sequence
    → tagged (some (number, frame)) ≡ sized (some sequence) frame
unfolding tagged
tagged-some sequence number frame a b e = rw e (ground arith)

-- A frame that is neither empty nor too long, under a sequence number from 1 to 2^64 - 1, comes back
-- from its tagged text.
pub parse_tagged_frame-tag_frame :
    (sequence : ℕ) (frame : Bytes)
    → 0 < sequence
    → sequence < 2 ^ 64
    → 0 < length frame
    → length frame ≤ max_encoded_frame_bytes
    → parse_tagged_frame (tag_frame sequence frame) ≡ some (sequence, frame)
unfolding parse_tagged_frame tag_frame
parse_tagged_frame-tag_frame sequence frame a b c d =
    let short = length-format_uint 19 sequence (omega arith) in
    let filled = format_uint-filled sequence in
    rw
      (small short, cut_byte-append b'\n' (format_uint sequence) frame (format_uint-Lacks sequence))
      (tagged-some sequence (format_uint sequence) frame filled short
          (parse_uint64-format_uint sequence b)
        ∙ sized-some sequence frame a c d)
  where
    small :
        length (format_uint sequence) ≤ 20
        → ltb (max_encoded_frame_bytes + 21) (length (format_uint sequence ++ b'\n' ∷ frame))
          ≡ false
    small short = ground (arith, length-append (format_uint sequence) (b'\n' ∷ frame))
