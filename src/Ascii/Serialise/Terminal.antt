-- ===== src/Ascii/Serialise/Terminal.antt =====
-- A terminal that reads bytes, and the writes that the bytes are made of.
use termcall.Prelude.{
  ℕ, ◌+◌, ◌-◌, ◌*◌, ◌≤◌, ◌≡◌, refl, ap, ◌∙◌, inl, inr, false, ◌&&◌, List, [], ◌∷◌, ◌++◌,
  append_assoc, Option, none, some, arith, leb, ◌==◌, if◌then◌else◌, ℤ, pos, negsuc, All,
  Bool-cases,
}
use termcall.Text.{Bytes, codes}
use termcall.Text.Decimal.{itoa, format_uint, scan, scan-format_uint}
use termcall.Text.Utf8.{encode_rune}
use termcall.Ascii.Serialise.{
  Write, clear, line_break, foreground, background, char, half_block, unset, text_of_write,
  text_of_writes,
}
use termcall.Ascii.Serialise.Drawn.{Screen, screen, first_look, palette, IsColour}

-- Where a terminal is: in text, behind ESC, in the parameters of a sequence (those before, the last
-- one first, and the one that is read), in a sequence that it ignores, or in the bytes E2 96 84.
pub data Reader : Type 0 where
  reading escape ignoring lead lead_half : Reader
  parameters : List ℕ → ℕ → Reader

pub data Turn : Type 0 where
  moves : Reader → Turn
  shows : Option ℕ → Turn
  breaks : Turn
  selects : List ℕ → Turn

turn : Reader → ℕ → Turn
turn reading c =
    if c == 27
    then moves escape
    else if c == b'\n'
    then breaks
    else if c == 226
    then moves lead
    else shows (some c)
turn escape c = if c == b'[' then moves (parameters [] 0) else moves reading
turn (parameters before n) c =
    if leb b'0' c && leb c b'9'
    then moves (parameters before (n * 10 + (c - b'0')))
    else if c == b';'
    then moves (parameters (n ∷ before) 0)
    else if c == b'm'
    then selects (n ∷ before)
    else if leb 64 c
    then moves reading
    else moves ignoring
turn ignoring c = if leb 64 c then moves reading else moves ignoring
turn lead c = if c == 150 then moves lead_half else moves reading
turn lead_half c = if c == 132 then shows none else moves reading

-- `0` resets the colours; `38;5;n` sets the foreground and `48;5;n` the background.
select : List ℕ → ℤ → ℤ → ℤ × ℤ
select (n ∷ []) fg bg = if n == 0 then (unset, unset) else (fg, bg)
select (n ∷ k ∷ t ∷ []) fg bg =
    if k == 5 && t == 38
    then (palette (pos n) fg, bg)
    else if k == 5 && t == 48
    then (fg, palette (pos n) bg)
    else (fg, bg)
select _ fg bg = (fg, bg)

unfoldable pub terminal : Reader → ℤ → ℤ → Bytes → Screen
unfolding turn select
terminal r fg bg [] = [] ∷ []
terminal r fg bg (c ∷ s) = elim (turn r c) [
  | moves q ↦ terminal q fg bg s
  | shows glyph ↦ first_look (record { glyph = glyph; fg = fg; bg = bg }) (terminal reading fg bg s)
  | breaks ↦ [] ∷ terminal reading fg bg s
  | selects ps ↦ terminal reading (select ps fg bg).0 (select ps fg bg).1 s
]

abbrev pub IsPlain : ℕ → Type 0
IsPlain c = (32 ≤ c) × (c ≤ 126)

-- A write that a terminal takes as it is meant.
abbrev pub IsSent : Write → Type 0
IsSent (foreground n) = IsColour n
IsSent (background n) = IsColour n
IsSent (char c) = IsPlain c
IsSent clear = Unit
IsSent line_break = Unit
IsSent half_block = Unit

parameters-digits :
    (ds rest : Bytes) (before : List ℕ) (n m : ℕ) (fg bg : ℤ)
    → scan n ds ≡ some m
    → terminal (parameters before n) fg bg (ds ++ rest) ≡ terminal (parameters before m) fg bg rest
unfolding terminal turn scan
parameters-digits [] rest before n m fg bg h =
    ap (λ k. terminal (parameters before k) fg bg rest) (same h)
  where
    same : some n ≡ some m → n ≡ m
    same h = cc
parameters-digits (c ∷ ds) rest before n m fg bg h = elim (Bool-cases (leb b'0' c && leb c b'9')) [
  | inl digit ↦
      rw (digit, terminal)
        (parameters-digits ds rest before (n * 10 + (c - b'0')) m fg bg (rw digit at h))
  | inr other ↦ absurd (no (rw other at h))
]
  where
    no : none ≡ some m → ⊥
    no e = cc

-- The number of a colour, `m`, and what follows.
colour-terminal :
    (before : List ℕ) (n : ℕ) (rest : Bytes) (fg bg : ℤ)
    → terminal (parameters before 0) fg bg ((format_uint n ++ codes "m") ++ rest)
      ≡ terminal reading (select (n ∷ before) fg bg).0 (select (n ∷ before) fg bg).1 rest
unfolding terminal turn
colour-terminal before n rest fg bg =
    ap (terminal (parameters before 0) fg bg) (append_assoc (format_uint n) (codes "m") rest)
    ∙ parameters-digits (format_uint n) (b'm' ∷ rest) before 0 n fg bg (scan-format_uint n)

-- The text of a write, read by a terminal.
text_of_write-terminal :
    (w : Write) (ws : List Write) (rest : Bytes) (fg bg : ℤ)
    → IsSent w
    → ((f b : ℤ) → terminal reading f b rest ≡ screen f b ws)
    → terminal reading fg bg (text_of_write w ++ rest) ≡ screen fg bg (w ∷ ws)
unfolding terminal turn select text_of_write screen itoa encode_rune
text_of_write-terminal clear ws rest fg bg h k = k unset unset
text_of_write-terminal line_break ws rest fg bg h k = ap (λ (s : Screen). [] ∷ s) (k fg bg)
text_of_write-terminal (foreground (pos n)) ws rest fg bg h k =
    colour-terminal (5 ∷ 38 ∷ []) n rest fg bg ∙ k (palette (pos n) fg) bg
text_of_write-terminal (background (pos n)) ws rest fg bg h k =
    colour-terminal (5 ∷ 48 ∷ []) n rest fg bg ∙ k fg (palette (pos n) bg)
text_of_write-terminal (foreground (negsuc n)) ws rest fg bg h k = absurd h
text_of_write-terminal (background (negsuc n)) ws rest fg bg h k = absurd h
text_of_write-terminal (char c) ws rest fg bg h k =
    let no_escape : (c == 27) ≡ false = ground arith in
    let no_break : (c == b'\n') ≡ false = ground arith in
    let no_lead : (c == 226) ≡ false = ground arith in
    rw (terminal, turn, no_escape, no_break, no_lead)
      (ap (first_look (record { glyph = some c; fg = fg; bg = bg })) (k fg bg))
text_of_write-terminal half_block ws rest fg bg h k =
    ap (first_look (record { glyph = none; fg = fg; bg = bg })) (k fg bg)

pub text_of_writes-terminal :
    (ws : List Write) (fg bg : ℤ)
    → All IsSent ws
    → terminal reading fg bg (text_of_writes ws) ≡ screen fg bg ws
unfolding text_of_writes terminal screen
text_of_writes-terminal [] fg bg h = refl
text_of_writes-terminal (w ∷ ws) fg bg h =
    text_of_write-terminal w ws (text_of_writes ws) fg bg h.0
      (λ f b. text_of_writes-terminal ws f b h.1)
