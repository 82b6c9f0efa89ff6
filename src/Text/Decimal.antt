-- ===== src/Text/Decimal.antt =====
-- `strconv.Itoa` and `strconv.Atoi` on a 64-bit `int`.
use termcall.Prelude.{
  ℕ, zero, suc, ◌+◌, ◌-◌, ◌*◌, ◌/◌, ◌%◌, ◌^◌, ◌≤◌, ◌<◌, ◌≡◌, refl, sym, ap, ◌∙◌, Bool, true, false,
  ◌&&◌, [], ◌∷◌, ◌++◌, Option, none, some, arith, ltb, leb, ◌==◌, if◌then◌else◌, ℤ, pos, negsuc,
  ◌≤ℤ◌, length, length-append, All, All-append, inl, inr, Bool-cases,
}
use native.Mathlib.Nat.{pow-suc}
use termcall.Text.{Bytes}

abbrev pub int_mod : ℕ
int_mod = 2 ^ 63

-- The decimal digits of n; n rounds are more than enough.
digits_of : ℕ → ℕ → Bytes
digits_of zero n = (b'0' + n % 10) ∷ []
digits_of (suc f) n =
    let more = digits_of f (n / 10) ++ (b'0' + n % 10) ∷ [] in
    if ltb n 10 then (b'0' + n) ∷ [] else more

unfoldable pub format_uint : ℕ → Bytes
unfolding digits_of
format_uint n = digits_of n n

unfoldable pub itoa : ℤ → Bytes
unfolding format_uint
itoa (pos n) = format_uint n
itoa (negsuc n) = b'-' ∷ format_uint (suc n)

-- The value of digits behind `n`, refused at the first other byte. The range is checked at the end.
unfoldable pub scan : ℕ → Bytes → Option ℕ
scan n [] = some n
scan n (c ∷ s) =
    let rest = scan (n * 10 + (c - b'0')) s in if leb b'0' c && leb c b'9' then rest else none

pub digits_value : Bytes → Option ℕ
unfolding scan
digits_value [] = none
digits_value (c ∷ s) = scan 0 (c ∷ s)

signed : Bool → Option ℕ → Option ℤ
signed negative none = none
signed false (some n) = if ltb n int_mod then some (pos n) else none
signed true (some zero) = some (pos 0)
signed true (some (suc n)) = if ltb n int_mod then some (negsuc n) else none

unfoldable pub atoi : Bytes → Option ℤ
unfolding digits_value signed
atoi [] = none
atoi (c ∷ s) =
    if c == b'-'
    then signed true (digits_value s)
    else if c == b'+'
    then signed false (digits_value s)
    else signed false (digits_value (c ∷ s))

-- `strconv.ParseUint(s, 10, 64)`, which takes no sign.
unfoldable pub parse_uint64 : Bytes → Option ℕ
unfolding digits_value
parse_uint64 s = elim (digits_value s) [
  | none ↦ none
  | some n ↦ if ltb n (2 ^ 64) then some n else none
]

scan-append :
    (xs : Bytes) (n m : ℕ) (ys : Bytes) → scan n xs ≡ some m → scan n (xs ++ ys) ≡ scan m ys
unfolding scan
scan-append [] n m ys h = ground arith
scan-append (c ∷ xs) n m ys h = ground (arith, scan-append xs (n * 10 + (c - b'0')) m ys)

scan_one : (n d : ℕ) → d < 10 → scan n ((b'0' + d) ∷ []) ≡ some (n * 10 + d)
unfolding scan
scan_one n d h = ground arith

scan-digits_of : (f n : ℕ) → n ≤ f → scan 0 (digits_of f n) ≡ some n
unfolding digits_of
scan-digits_of zero n h = ground (arith, scan_one 0 (n % 10))
scan-digits_of (suc f) n h = ground (
  arith,
  scan_one 0 n,
  scan_one (n / 10) (n % 10),
  scan-digits_of f (n / 10),
  scan-append (digits_of f (n / 10)) 0 (n / 10) ((b'0' + n % 10) ∷ []),
)

abbrev pub IsDigit : ℕ → Type 0
IsDigit c = (b'0' ≤ c) × (c ≤ b'9')

digits_of-IsDigit : (f n : ℕ) → All IsDigit (digits_of f n)
unfolding digits_of
digits_of-IsDigit zero n = omega arith
digits_of-IsDigit (suc f) n = elim (Bool-cases (ltb n 10)) [
  | inl small ↦ rw small (ground arith, tt)
  | inr big ↦ rw big (
      All-append IsDigit (digits_of f (n / 10)) _ (digits_of-IsDigit f (n / 10)) (ground arith, tt))
]

-- A number written in decimal starts with a digit.
digits_of_cons : (f n : ℕ) → (c : ℕ) × (s : Bytes) × (digits_of f n ≡ c ∷ s)
unfolding digits_of
digits_of_cons zero n = (b'0' + n % 10, [], refl)
digits_of_cons (suc f) n = elim (Bool-cases (ltb n 10)) [
  | inl small ↦ (b'0' + n, [], rw small)
  | inr big ↦
      let (c, s, e) = digits_of_cons f (n / 10) in (c, s ++ (b'0' + n % 10) ∷ [], rw (big, e))
]

pub format_uint_cons :
    (n : ℕ) → (c : ℕ) × (s : Bytes) × (format_uint n ≡ c ∷ s) × IsDigit c × All IsDigit s
unfolding format_uint
format_uint_cons n =
    let (c, s, e) = digits_of_cons n n in
    let h = digits_of-IsDigit n n in
    let h' : All IsDigit (c ∷ s) = rw e at h in (c, s, e, h'.0, h'.1)

digits_value-scan : (t : Bytes) (c : ℕ) (s : Bytes) → t ≡ c ∷ s → digits_value t ≡ scan 0 t
unfolding digits_value
digits_value-scan [] c s e = cc
digits_value-scan (d ∷ t) c s e = refl

pub scan-format_uint : (n : ℕ) → scan 0 (format_uint n) ≡ some n
unfolding format_uint
scan-format_uint n = scan-digits_of n n (omega arith)

pub digits_value-format_uint : (n : ℕ) → digits_value (format_uint n) ≡ some n
digits_value-format_uint n =
    let (c, s, e, hc, hs) = format_uint_cons n in
    digits_value-scan (format_uint n) c s e ∙ scan-format_uint n

atoi_digits :
    (t : Bytes) (c : ℕ) (s : Bytes) → t ≡ c ∷ s → IsDigit c → atoi t ≡ signed false (digits_value t)
unfolding atoi
atoi_digits [] c s e h = cc
atoi_digits (d ∷ t) c s e h = ground arith

atoi_minus : (s : Bytes) → atoi (b'-' ∷ s) ≡ signed true (digits_value s)
unfolding atoi
atoi_minus s = refl

signed_pos : (n : ℕ) → n < int_mod → signed false (some n) ≡ some (pos n)
unfolding signed
signed_pos n h = ground arith

signed_neg : (n : ℕ) → n < int_mod → signed true (some (suc n)) ≡ some (negsuc n)
unfolding signed
signed_neg n h = ground arith

pub parse_uint64-format_uint : (n : ℕ) → n < 2 ^ 64 → parse_uint64 (format_uint n) ≡ some n
unfolding parse_uint64
parse_uint64-format_uint n h = rw (digits_value-format_uint n, parse_uint64) (ground arith)

abbrev pub InRange : ℤ → Type 0
InRange (pos n) = n < int_mod
InRange (negsuc n) = n < int_mod

-- Every 64-bit `int` is read back from its decimal form.
pub atoi-itoa : (z : ℤ) → InRange z → atoi (itoa z) ≡ some z
unfolding itoa
atoi-itoa (pos n) h =
    let (c, s, e, hc, hs) = format_uint_cons n in
    atoi_digits (format_uint n) c s e hc
    ∙ ap (signed false) (digits_value-format_uint n)
    ∙ signed_pos n h
atoi-itoa (negsuc n) h =
    atoi_minus (format_uint (suc n))
    ∙ ap (signed true) (digits_value-format_uint (suc n))
    ∙ signed_neg n h

signed_inv :
    (b : Bool) (n : ℕ) (z : ℤ)
    → signed b (some n) ≡ some z
    → z ≡ (if b then (elim n [ zero ↦ pos 0 | suc m ↦ negsuc m ]) else pos n)
unfolding signed
signed_inv false n z h = ground arith
signed_inv true zero z h = ground arith
signed_inv true (suc n) z h = ground arith

-- No other `int` is read from it, whatever the range.
pub atoi-itoa_inv : (z y : ℤ) → atoi (itoa z) ≡ some y → y ≡ z
unfolding itoa
atoi-itoa_inv (pos n) y h =
    let (c, s, e, hc, hs) = format_uint_cons n in
    signed_inv false n y (
      ap (signed false) (sym (digits_value-format_uint n))
      ∙ sym (atoi_digits (format_uint n) c s e hc)
      ∙ h)
atoi-itoa_inv (negsuc n) y h = signed_inv true (suc n) y (
    ap (signed true) (sym (digits_value-format_uint (suc n)))
    ∙ sym (atoi_minus (format_uint (suc n)))
    ∙ h)

-- What `itoa` writes is one word: digits, behind at most one sign.
abbrev pub IsNumeral : ℕ → Type 0
IsNumeral c = (45 ≤ c) × (c ≤ 57)

All-IsNumeral : (s : Bytes) → All IsDigit s → All IsNumeral s
All-IsNumeral [] h = tt
All-IsNumeral (c ∷ s) h = (omega arith, All-IsNumeral s h.1)

pub itoa_cons : (z : ℤ) → (c : ℕ) × (s : Bytes) × (itoa z ≡ c ∷ s) × IsNumeral c × All IsNumeral s
unfolding itoa
itoa_cons (pos n) =
    let (c, s, e, hc, hs) = format_uint_cons n in (c, s, e, omega arith, All-IsNumeral s hs)
itoa_cons (negsuc n) =
    let (c, s, e, hc, hs) = format_uint_cons (suc n) in
    (b'-', format_uint (suc n), refl, omega arith, rw e (omega arith, All-IsNumeral s hs))

length-digits_of : (k f n : ℕ) → n < 10 ^ suc k → length (digits_of f n) ≤ suc k
unfolding digits_of
length-digits_of k zero n h = omega arith
length-digits_of zero (suc f) n h = ground arith
length-digits_of (suc k) (suc f) n h =
    let h' : n < 10 ^ suc k * 10 = rw pow-suc at h in
    ground (
      arith,
      length-digits_of k f (n / 10),
      length-append (digits_of f (n / 10)) ((b'0' + n % 10) ∷ []),
    )

-- A number below 10 ^ (k + 1) has at most k + 1 digits.
pub length-format_uint : (k n : ℕ) → n < 10 ^ suc k → length (format_uint n) ≤ suc k
unfolding format_uint
length-format_uint k n h = length-digits_of k n n h

pub length-itoa_pos : (k n : ℕ) → n < 10 ^ suc k → length (itoa (pos n)) ≤ suc k
unfolding itoa
length-itoa_pos k n h = length-format_uint k n h

-- A colour index takes at most three bytes.
pub length-itoa_colour : (z : ℤ) → negsuc 0 ≤ℤ z → z ≤ℤ pos 255 → length (itoa z) ≤ 3
unfolding itoa
length-itoa_colour (pos n) a b = length-format_uint 2 n (omega arith)
length-itoa_colour (negsuc n) a b =
    let e : n ≡ 0 = omega arith in rw e (omega (arith, length-format_uint 0 1 (omega arith)))
