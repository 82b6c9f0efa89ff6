-- ===== src/Text/Fields.antt =====
-- `unicode.IsSpace` on UTF-8 bytes, `strings.Fields` and `strings.TrimSpace`.
--
-- Go decodes a rune at a time; a byte that starts none is one rune by itself. The lead bytes 0xC2,
-- 0xE1, 0xE2, 0xE3 of the spaces beyond ASCII are never continuation bytes, so a space starts
-- wherever its bytes stand.
use termcall.Prelude.{
  ℕ, zero, suc, ◌≤◌, ◌≡◌, refl, ap, ◌∙◌, Bool, ◌&&◌, ◌||◌, List, [], ◌∷◌, ◌++◌, arith, leb, ◌==◌,
  if◌then◌else◌, All, append_assoc, append-nil,
}
use termcall.Text.{Bytes, codes}

pub is_ascii_space : ℕ → Bool
is_ascii_space c = c == 32 || (leb 9 c && leb c 13)

-- U+2000 to U+200A, U+2028, U+2029, U+202F (E2 80 ..) and U+205F (E2 81 9F).
is_e2_space : ℕ → ℕ → Bool
is_e2_space d e =
    (d == 0x80 && ((leb 0x80 e && leb e 0x8a) || e == 0xa8 || e == 0xa9 || e == 0xaf))
    || (d == 0x81 && e == 0x9f)

-- U+1680 (E1 9A 80), the above, and U+3000 (E3 80 80).
is_wide_space : ℕ → ℕ → ℕ → Bool
unfolding is_e2_space
is_wide_space c d e =
    (c == 0xe1 && d == 0x9a && e == 0x80)
    || (c == 0xe2 && is_e2_space d e)
    || (c == 0xe3 && d == 0x80 && e == 0x80)

-- How many bytes after `c` belong to the space that starts there: `none`, or that number.
-- U+0085 and U+00A0 are 0xc2 with 0x85 and 0xa0.
pub data Space : Type 0 where
  other : Space
  space : ℕ → Space

space_at : ℕ → Bytes → Space
unfolding is_ascii_space is_wide_space
space_at c [] = if is_ascii_space c then space 0 else other
space_at c (d ∷ []) =
    if is_ascii_space c
    then space 0
    else if c == 0xc2 && (d == 0x85 || d == 0xa0)
    then space 1
    else other
space_at c (d ∷ e ∷ s) =
    if is_ascii_space c
    then space 0
    else if c == 0xc2 && (d == 0x85 || d == 0xa0)
    then space 1
    else if is_wide_space c d e
    then space 2
    else other

-- A field ends where a space starts; an empty field is not kept.
flush : Bytes → List Bytes → List Bytes
flush [] fs = fs
flush (c ∷ s) fs = (c ∷ s) ∷ fs

-- `skip` bytes of the last space are still to be passed over; `cur` is the field so far.
fields_from : ℕ → Bytes → Bytes → List Bytes
fields_from skip cur [] = flush cur []
fields_from (suc k) cur (c ∷ s) = fields_from k cur s
fields_from zero cur (c ∷ s) = elim (space_at c s) [
  | other ↦ fields_from zero (cur ++ c ∷ []) s
  | space k ↦ flush cur (fields_from k [] s)
]

unfoldable pub fields : Bytes → List Bytes
unfolding fields_from flush space_at
fields s = fields_from 0 [] s

-- Bytes of which a field can be made: printable ASCII but the space.
abbrev pub IsWord : ℕ → Type 0
IsWord c = (33 ≤ c) × (c ≤ 126)

space_at_word : (c : ℕ) (s : Bytes) → IsWord c → space_at c s ≡ other
unfolding space_at
space_at_word c [] h = ground arith
space_at_word c (d ∷ []) h = ground arith
space_at_word c (d ∷ e ∷ s) h = ground arith

space_at_blank : (s : Bytes) → space_at 32 s ≡ space 0
unfolding space_at
space_at_blank [] = refl
space_at_blank (d ∷ []) = refl
space_at_blank (d ∷ e ∷ s) = refl

fields_from_other :
    (c : ℕ) (cur s : Bytes)
    → space_at c s ≡ other
    → fields_from 0 cur (c ∷ s) ≡ fields_from 0 (cur ++ c ∷ []) s
unfolding fields_from
fields_from_other c cur s e = rw (e, fields_from)

fields_from_space :
    (k c : ℕ) (cur s : Bytes)
    → space_at c s ≡ space k
    → fields_from 0 cur (c ∷ s) ≡ flush cur (fields_from k [] s)
unfolding fields_from
fields_from_space k c cur s e = rw (e, fields_from)

fields_from-append :
    (w cur s : Bytes) → All IsWord w → fields_from 0 cur (w ++ s) ≡ fields_from 0 (cur ++ w) s
fields_from-append [] cur s h = rw append-nil
fields_from-append (c ∷ w) cur s h =
    fields_from_other c cur (w ++ s) (space_at_word c (w ++ s) h.0)
    ∙ fields_from-append w (cur ++ c ∷ []) s h.1
    ∙ ap (λ (t : Bytes). fields_from 0 t s) (append_assoc cur (c ∷ []) w)

-- A non-empty word before a blank comes off as a field.
pub fields_word :
    (c : ℕ) (w s : Bytes)
    → IsWord c
    → All IsWord w
    → fields ((c ∷ w) ++ 32 ∷ s) ≡ (c ∷ w) ∷ fields s
unfolding fields
fields_word c w s hc hw =
    fields_from-append (c ∷ w) [] (32 ∷ s) (hc, hw)
    ∙ fields_from_space 0 32 (c ∷ w) s (space_at_blank s)

pub fields_last : (c : ℕ) (w : Bytes) → IsWord c → All IsWord w → fields (c ∷ w) ≡ (c ∷ w) ∷ []
unfolding fields
fields_last c w hc hw =
    let e : fields_from 0 [] ((c ∷ w) ++ []) ≡ fields_from 0 (c ∷ w) [] =
      fields_from-append (c ∷ w) [] [] (hc, hw) in
    rw append-nil at e

fields_wide :
    fields (0xc2 ∷ 0xa0 ∷ codes "ab  c\t" ++ 0xe2 ∷ 0x80 ∷ 0x8a ∷ codes "d ")
    ≡ codes "ab" ∷ codes "c" ∷ codes "d" ∷ []
unfolding fields
fields_wide = refl
