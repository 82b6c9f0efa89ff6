-- ===== src/Text/Numerals.antt =====
-- Decimal numbers inside a longer text: they hold no separator, and come off as fields.
use termcall.Prelude.{ℕ, ◌<◌, ◌≡◌, ◌⊎◌, [], ◌∷◌, ◌++◌, arith, ℤ, All}
use termcall.Text.{Bytes}
use termcall.Text.Decimal.{itoa, itoa_cons, IsNumeral}
use termcall.Text.Split.{Lacks}
use termcall.Text.Fields.{fields, fields_word, fields_last, IsWord}

pub itoa-IsNumeral : (z : ℤ) → All IsNumeral (itoa z)
itoa-IsNumeral z = let (c, s, e, hc, hs) = itoa_cons z in rw e (hc, hs)

numerals-Lacks : (sep : ℕ) (s : Bytes) → (sep < 45) ⊎ (57 < sep) → All IsNumeral s → Lacks sep s
numerals-Lacks sep [] h a = tt
numerals-Lacks sep (c ∷ s) h a = (omega arith, numerals-Lacks sep s h a.1)

numerals-IsWord : (s : Bytes) → All IsNumeral s → All IsWord s
numerals-IsWord [] a = tt
numerals-IsWord (c ∷ s) a = (omega arith, numerals-IsWord s a.1)

pub itoa-Lacks : (sep : ℕ) (z : ℤ) → (sep < 45) ⊎ (57 < sep) → Lacks sep (itoa z)
itoa-Lacks sep z h = numerals-Lacks sep (itoa z) h (itoa-IsNumeral z)

-- A number before a blank is one field, and so is the number that ends a text.
pub fields-itoa : (z : ℤ) (s : Bytes) → fields (itoa z ++ 32 ∷ s) ≡ itoa z ∷ fields s
fields-itoa z s =
    let (c, t, e, hc, ht) = itoa_cons z in
    rw e (fields_word c t s (omega arith) (numerals-IsWord t ht))

pub fields-itoa_last : (z : ℤ) → fields (itoa z) ≡ itoa z ∷ []
fields-itoa_last z =
    let (c, t, e, hc, ht) = itoa_cons z in
    rw e (fields_last c t (omega arith) (numerals-IsWord t ht))
