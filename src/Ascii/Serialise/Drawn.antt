-- ===== src/Ascii/Serialise/Drawn.antt =====
-- What a terminal shows of a serialised grid, against the cells one by one.
use mathlib.Core.List.{append_assoc}
use termcall.Prelude.{
  ℕ, ◌<◌, ◌≡◌, refl, sym, ap, ◌∙◌, inl, inr, false, ◌&&◌, List, [], ◌∷◌, ◌++◌, Option, none, some,
  arith, ltb, ◌==◌, if◌then◌else◌, ℤ, pos, negsuc, eqb_ℤ, eqb_ℤ_iff, All, Bool-cases,
}
use termcall.Ascii.Cell.{Cell, Row, Grid}
use termcall.Ascii.Serialise.{
  Write, clear, line_break, foreground, background, char, half_block, unset, ascii_row,
  clear_unless, color256_row, clear_unless_both, half_block_row,
}

-- A character on the screen: none is the half block.
pub record Look : Type 0 where
  pub glyph : Option ℕ
  pub fg : ℤ
  pub bg : ℤ

abbrev pub Screen : Type 0
Screen = List (List Look)

abbrev pub first_look : Look → Screen → Screen
first_look x [] = (x ∷ []) ∷ []
first_look x (row ∷ rows) = (x ∷ row) ∷ rows

-- A colour of the palette is taken; any other number is ignored.
abbrev pub palette : ℤ → ℤ → ℤ
palette (pos n) old = if ltb n 256 then pos n else old
palette (negsuc n) old = old

-- A terminal with its two colours.
unfoldable pub screen : ℤ → ℤ → List Write → Screen
screen fg bg [] = [] ∷ []
screen fg bg (clear ∷ ws) = screen unset unset ws
screen fg bg (line_break ∷ ws) = [] ∷ screen fg bg ws
screen fg bg (foreground n ∷ ws) = screen (palette n fg) bg ws
screen fg bg (background n ∷ ws) = screen fg (palette n bg) ws
screen fg bg (char c ∷ ws) =
    first_look (record { glyph = some c; fg = fg; bg = bg }) (screen fg bg ws)
screen fg bg (half_block ∷ ws) =
    first_look (record { glyph = none; fg = fg; bg = bg }) (screen fg bg ws)

-- How a cell looks in each mode.
abbrev pub ascii_look : Cell → Look
ascii_look c = record { glyph = some c.char; fg = unset; bg = unset }

abbrev pub color256_look : Cell → Look
color256_look c =
    if c.char == 32
    then record { glyph = some 32; fg = unset; bg = unset }
    else record { glyph = some c.char; fg = c.fg; bg = unset }

abbrev pub half_block_look : Cell → Look
half_block_look c =
    if c.char == 32
    then record { glyph = some 32; fg = unset; bg = unset }
    else record { glyph = none; fg = c.fg; bg = c.bg }

abbrev pub looks : (Cell → Look) → Row → List Look
looks look [] = []
looks look (c ∷ cs) = look c ∷ looks look cs

abbrev pub screen_of : (Cell → Look) → Grid → Screen
screen_of look [] = []
screen_of look (r ∷ rs) = looks look r ∷ screen_of look rs

abbrev pub IsColour : ℤ → Type 0
IsColour (pos n) = n < 256
IsColour (negsuc n) = ⊥

palette-colour : (n old : ℤ) → IsColour n → palette n old ≡ n
palette-colour (pos n) old h = ground arith
palette-colour (negsuc n) old h = absurd h

-- The row before what follows on the same line.
abbrev pub before : List Look → Screen → Screen
before [] rows = rows
before (x ∷ xs) rows = first_look x (before xs rows)

pub before_empty : (xs : List Look) (rows : Screen) → before xs ([] ∷ rows) ≡ xs ∷ rows
before_empty [] rows = refl
before_empty (x ∷ xs) rows = ap (first_look x) (before_empty xs rows)

clear_unless-screen :
    (last : ℤ) (ws : List Write)
    → screen last unset (clear_unless last ++ ws) ≡ screen unset unset ws
unfolding clear_unless screen
clear_unless-screen last ws = elim (Bool-cases (eqb_ℤ last unset)) [
  | inl e ↦ rw e (ap (λ n. screen n unset ws) ((eqb_ℤ_iff last unset).0 e))
  | inr e ↦ rw e
]

foreground-screen :
    (n last bg : ℤ) (ws : List Write)
    → IsColour n
    → screen last bg ((if eqb_ℤ n last then [] else foreground n ∷ []) ++ ws) ≡ screen n bg ws
unfolding screen
foreground-screen n last bg ws h = elim (Bool-cases (eqb_ℤ n last)) [
  | inl e ↦ rw e (ap (λ k. screen k bg ws) (sym ((eqb_ℤ_iff n last).0 e)))
  | inr e ↦ rw e (ap (λ k. screen k bg ws) (palette-colour n last h))
]

background-screen :
    (n fg last : ℤ) (ws : List Write)
    → IsColour n
    → screen fg last ((if eqb_ℤ n last then [] else background n ∷ []) ++ ws) ≡ screen fg n ws
unfolding screen
background-screen n fg last ws h = elim (Bool-cases (eqb_ℤ n last)) [
  | inl e ↦ rw e (ap (λ k. screen fg k ws) (sym ((eqb_ℤ_iff n last).0 e)))
  | inr e ↦ rw e (ap (λ k. screen fg k ws) (palette-colour n last h))
]

clear_unless_both-screen :
    (last_bg last_fg : ℤ) (ws : List Write)
    → screen last_fg last_bg (clear_unless_both last_bg last_fg ++ ws) ≡ screen unset unset ws
unfolding clear_unless_both screen
clear_unless_both-screen last_bg last_fg ws =
    elim (Bool-cases (eqb_ℤ last_bg unset && eqb_ℤ last_fg unset)) [
      | inl e ↦ rw e (
          ap (λ n. screen n last_bg ws) ((eqb_ℤ_iff last_fg unset).0 (ground arith))
          ∙ ap (λ n. screen unset n ws) ((eqb_ℤ_iff last_bg unset).0 (ground arith)))
      | inr e ↦ rw e
    ]

-- A cell whose colours a terminal can set: the one that is used, or both.
abbrev pub Foreground : Cell → Type 0
Foreground c = (c.char == 32) ≡ false → IsColour c.fg

abbrev pub Coloured : Cell → Type 0
Coloured c = (c.char == 32) ≡ false → IsColour c.fg × IsColour c.bg

-- A row, from the colours written last, and behind it a reset.
pub color256_row-screen :
    (last : ℤ) (r : Row) (rest : List Write)
    → All Foreground r
    → screen last unset (color256_row last r ++ clear ∷ rest)
      ≡ before (looks color256_look r) (screen unset unset rest)
unfolding color256_row screen
color256_row-screen last [] rest h = refl
color256_row-screen last (c ∷ cs) rest h = elim (Bool-cases (c.char == 32)) [
  | inl e ↦ rw e (
      ap (screen last unset)
        (append_assoc (clear_unless last) (char 32 ∷ color256_row unset cs) (clear ∷ rest))
      ∙ clear_unless-screen last (char 32 ∷ (color256_row unset cs ++ clear ∷ rest))
      ∙ ap (first_look (record { glyph = some 32; fg = unset; bg = unset }))
          (color256_row-screen unset cs rest h.1))
  | inr e ↦ rw e (
      ap (screen last unset) (
        append_assoc (if eqb_ℤ c.fg last then [] else foreground c.fg ∷ [])
          (char c.char ∷ color256_row c.fg cs) (clear ∷ rest))
      ∙ foreground-screen c.fg last unset (char c.char ∷ (color256_row c.fg cs ++ clear ∷ rest))
          (h.0 e)
      ∙ ap (first_look (record { glyph = some c.char; fg = c.fg; bg = unset }))
          (color256_row-screen c.fg cs rest h.1))
]

pub half_block_row-screen :
    (last_bg last_fg : ℤ) (r : Row) (rest : List Write)
    → All Coloured r
    → screen last_fg last_bg (half_block_row last_bg last_fg r ++ clear ∷ rest)
      ≡ before (looks half_block_look r) (screen unset unset rest)
unfolding half_block_row screen
half_block_row-screen last_bg last_fg [] rest h = refl
half_block_row-screen last_bg last_fg (c ∷ cs) rest h = elim (Bool-cases (c.char == 32)) [
  | inl e ↦ rw e (
      ap (screen last_fg last_bg) (
        append_assoc (clear_unless_both last_bg last_fg) (char 32 ∷ half_block_row unset unset cs)
          (clear ∷ rest))
      ∙ clear_unless_both-screen last_bg last_fg
          (char 32 ∷ (half_block_row unset unset cs ++ clear ∷ rest))
      ∙ ap (first_look (record { glyph = some 32; fg = unset; bg = unset }))
          (half_block_row-screen unset unset cs rest h.1))
  | inr e ↦ rw e (
      let back : List Write = if eqb_ℤ c.bg last_bg then [] else background c.bg ∷ [] in
      let front : List Write = if eqb_ℤ c.fg last_fg then [] else foreground c.fg ∷ [] in
      let tail : List Write = half_block_row c.bg c.fg cs in
      ap (screen last_fg last_bg) (append_assoc back (front ++ half_block ∷ tail) (clear ∷ rest))
      ∙ background-screen c.bg last_fg last_bg ((front ++ half_block ∷ tail) ++ clear ∷ rest)
          (h.0 e).1
      ∙ ap (screen last_fg c.bg) (append_assoc front (half_block ∷ tail) (clear ∷ rest))
      ∙ foreground-screen c.fg last_fg c.bg (half_block ∷ (tail ++ clear ∷ rest)) (h.0 e).0
      ∙ ap (first_look (record { glyph = none; fg = c.fg; bg = c.bg }))
          (half_block_row-screen c.bg c.fg cs rest h.1))
]

pub ascii_row-screen :
    (r : Row) (rest : List Write)
    → screen unset unset (ascii_row r ++ rest)
      ≡ before (looks ascii_look r) (screen unset unset rest)
unfolding ascii_row screen
ascii_row-screen [] rest = refl
ascii_row-screen (c ∷ cs) rest = ap (first_look (ascii_look c)) (ascii_row-screen cs rest)
