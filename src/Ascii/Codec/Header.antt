-- ===== src/Ascii/Codec/Header.antt =====
-- The header line of a frame, written and read.
use termcall.Prelude.{
  ℕ, ◌≤◌, ◌<◌, ◌≡◌, ap, ◌∙◌, List, [], ◌∷◌, ◌++◌, append_assoc, arith, ℤ, ok, All-append, ==_refl,
}
use termcall.Text.{Bytes}
use termcall.Text.Decimal.{itoa}
use termcall.Text.Split.{Lacks, cut_byte-append}
use termcall.Text.Fields.{fields, fields_word}
use termcall.Text.Numerals.{itoa-Lacks, fields-itoa, fields-itoa_last}
use termcall.Ascii.Frame.{split_frame, parse_int}
use termcall.Ascii.Encoder.{frame_header}
use termcall.Ascii.Decoder.{parse_header}

-- The header without its newline.
pub header_line : ℕ → ℤ → ℤ → ℤ → Bytes
header_line letter a b c = (letter ∷ []) ++ 32 ∷ (itoa a ++ 32 ∷ (itoa b ++ 32 ∷ itoa c))

frame_header-eq :
    (letter : ℕ) (a b c : ℤ) (body : Bytes)
    → frame_header letter a b c ++ body ≡ header_line letter a b c ++ b'\n' ∷ body
unfolding frame_header header_line
frame_header-eq letter a b c body = simp append_assoc

header_line-Lacks : (letter : ℕ) (a b c : ℤ) → 32 < letter → Lacks b'\n' (header_line letter a b c)
unfolding header_line
header_line-Lacks letter a b c h = (
  omega arith,
  (
    omega arith,
    All-append _ (itoa a) _ (itoa-Lacks b'\n' a (omega arith)) (
      omega arith,
      All-append _ (itoa b) _ (itoa-Lacks b'\n' b (omega arith))
          (omega arith, itoa-Lacks b'\n' c (omega arith)),
    ),
  ),
)

pub split_frame-header :
    (letter : ℕ) (a b c : ℤ) (body : Bytes)
    → 32 < letter
    → split_frame (frame_header letter a b c ++ body) ≡ ok (header_line letter a b c, body)
unfolding split_frame
split_frame-header letter a b c body h = rw (
  frame_header-eq letter a b c body,
  cut_byte-append b'\n' (header_line letter a b c) body (header_line-Lacks letter a b c h),
)

fields-header :
    (letter : ℕ) (a b c : ℤ)
    → 32 < letter
    → letter ≤ 126
    → fields (header_line letter a b c) ≡ (letter ∷ []) ∷ itoa a ∷ itoa b ∷ itoa c ∷ []
unfolding header_line
fields-header letter a b c h k =
    fields_word letter [] _ (omega arith) tt
    ∙ ap (λ (ts : List Bytes). (letter ∷ []) ∷ ts)
        (fields-itoa a _
          ∙ ap (λ (ts : List Bytes). itoa a ∷ ts)
              (fields-itoa b _ ∙ ap (λ (ts : List Bytes). itoa b ∷ ts) (fields-itoa_last c)))

-- The numbers of a header are read back.
pub parse_header_line :
    (letter : ℕ) (a b c : ℤ)
    → 32 < letter
    → letter ≤ 126
    → parse_int (itoa a) ≡ ok a
    → parse_int (itoa b) ≡ ok b
    → parse_int (itoa c) ≡ ok c
    → parse_header letter (header_line letter a b c) ≡ ok (a, b, c)
unfolding parse_header
parse_header_line letter a b c h k ha hb hc =
    rw (fields-header letter a b c h k, ==_refl letter, ha, hb, hc)
