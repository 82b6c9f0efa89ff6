-- ===== src/Ascii/Serialise/Whole.antt =====
-- A whole grid on the screen.
use termcall.Prelude.{
  ℕ, zero, suc, ◌<◌, ◌≡◌, refl, ap, ◌∙◌, inl, inr, Bool, true, false, ◌&&◌, List, [], ◌∷◌, ◌++◌,
  Option, some, arith, ◌==◌, if◌then◌else◌, ℤ, pos, eqb_ℤ, length, All, All-append, Bool-cases,
}
use termcall.Text.{Bytes}
use termcall.Ascii.Cell.{Cell, Row, Grid}
use termcall.Ascii.Stabiliser.Suppression.{Rows}
use termcall.Ascii.Serialise.{
  Write, clear, line_break, foreground, background, unset, take_row, ascii_row, clear_unless,
  color256_row, clear_unless_both, half_block_row, join_rows, serialise_writes, text_of_writes,
  text_of_result, serialise_mode,
}
use termcall.Ascii.Serialise.Drawn.{
  Look, Screen, screen, ascii_look, color256_look, half_block_look, looks, screen_of, before,
  before_empty, Foreground, Coloured, ascii_row-screen, color256_row-screen, half_block_row-screen,
}
use termcall.Ascii.Serialise.Terminal.{terminal, reading, IsPlain, IsSent, text_of_writes-terminal}

take_row_all : (w : ℕ) (r : Row) → length r ≡ w → take_row w r ≡ some r
unfolding take_row
take_row_all zero [] h = refl
take_row_all zero (c ∷ r) h = absurd (omega arith)
take_row_all (suc w) [] h = absurd (omega arith)
take_row_all (suc w) (c ∷ r) h = rw (take_row_all w r (omega arith))

-- The writes are there, a terminal takes each as it is meant, and they show the cells as they look.
record IsWritten (look : Cell → Look) (cells : Grid) (result : Option (List Write)) : Type 0 where
  writes : List Write
  written : result ≡ some writes
  sent : All IsSent writes
  drawn : screen unset unset writes ≡ screen_of look cells

-- A way to write a row of such cells, between rows and behind the last one.
record IsWriter (Drawable : Cell → Type 0) (look : Cell → Look) (row : Row → List Write)
    (between behind : List Write) : Type 0 where
  line :
      (r : Row) (ws : List Write)
      → All Drawable r
      → screen unset unset (row r ++ (between ++ ws))
        ≡ before (looks look r) ([] ∷ screen unset unset ws)
  end :
      (r : Row)
      → All Drawable r
      → screen unset unset (row r ++ behind) ≡ before (looks look r) ([] ∷ [])
  row_sent : (r : Row) → All Drawable r → All IsSent (row r)
  between_sent : All IsSent between
  behind_sent : All IsSent behind

join_rows-IsWritten :
    (Drawable : Cell → Type 0) (look : Cell → Look) (row : Row → List Write)
    (between behind : List Write) (w : ℕ) (r : Row) (rs : Grid)
    → IsWriter Drawable look row between behind
    → Rows w (r ∷ rs)
    → All (λ (r : Row). All Drawable r) (r ∷ rs)
    → IsWritten look (r ∷ rs) (join_rows row between behind w (r ∷ rs))
unfolding join_rows
join_rows-IsWritten Drawable look row between behind w r [] h sides cells = record {
  writes = row r ++ behind;
  written = rw (join_rows, take_row_all w r sides.0);
  sent = All-append IsSent (row r) behind (h.row_sent r cells.0) h.behind_sent;
  drawn = h.end r cells.0 ∙ before_empty (looks look r) [];
}
join_rows-IsWritten Drawable look row between behind w r (s ∷ rs) h sides cells =
    let rest = join_rows-IsWritten Drawable look row between behind w s rs h sides.1 cells.1 in
    record {
      writes = row r ++ (between ++ rest.writes);
      written = rw (join_rows, take_row_all w r sides.0, rest.written);
      sent =
          All-append IsSent (row r) (between ++ rest.writes) (h.row_sent r cells.0)
            (All-append IsSent between rest.writes h.between_sent rest.sent);
      drawn =
          h.line r rest.writes cells.0
          ∙ before_empty (looks look r) (screen unset unset rest.writes)
          ∙ ap (λ (rows : Screen). looks look r ∷ rows) rest.drawn;
    }

-- What each mode can draw, and how it looks.
abbrev pub Drawable : ℕ → Cell → Type 0
Drawable zero c = IsPlain c.char
Drawable (suc zero) c = IsPlain c.char × Foreground c
Drawable (suc (suc zero)) c = Coloured c
Drawable (suc (suc (suc n))) c = ⊥

abbrev pub look_in : ℕ → Cell → Look
look_in zero = ascii_look
look_in (suc zero) = color256_look
look_in (suc (suc n)) = half_block_look

plain_row : (r : Row) → All (Drawable 1) r → All Foreground r
plain_row [] h = tt
plain_row (c ∷ r) h = (h.0.1, plain_row r h.1)

clear_unless-IsSent : (last : ℤ) → All IsSent (clear_unless last)
unfolding clear_unless
clear_unless-IsSent last = elim (Bool-cases (eqb_ℤ last unset)) [
  | inl e ↦ rw e tt
  | inr e ↦ rw e (tt, tt)
]

clear_unless_both-IsSent : (last_bg last_fg : ℤ) → All IsSent (clear_unless_both last_bg last_fg)
unfolding clear_unless_both
clear_unless_both-IsSent last_bg last_fg =
    elim (Bool-cases (eqb_ℤ last_bg unset && eqb_ℤ last_fg unset)) [
      | inl e ↦ rw e tt
      | inr e ↦ rw e (tt, tt)
    ]

unless-IsSent : (t : Bool) (w : Write) → IsSent w → All IsSent (if t then [] else w ∷ [])
unless-IsSent true w h = tt
unless-IsSent false w h = (h, tt)

ascii_row-IsSent : (r : Row) → All (Drawable 0) r → All IsSent (ascii_row r)
unfolding ascii_row
ascii_row-IsSent [] h = tt
ascii_row-IsSent (c ∷ cs) h = (h.0, ascii_row-IsSent cs h.1)

color256_row-IsSent : (last : ℤ) (r : Row) → All (Drawable 1) r → All IsSent (color256_row last r)
unfolding color256_row
color256_row-IsSent last [] h = tt
color256_row-IsSent last (c ∷ cs) h = elim (Bool-cases (c.char == 32)) [
  | inl e ↦ rw e (
      All-append IsSent (clear_unless last) _ (clear_unless-IsSent last)
        ((omega arith, omega arith), color256_row-IsSent unset cs h.1))
  | inr e ↦ rw e (
      All-append IsSent (if eqb_ℤ c.fg last then [] else foreground c.fg ∷ []) _
        (unless-IsSent (eqb_ℤ c.fg last) (foreground c.fg) (h.0.1 e))
        (h.0.0, color256_row-IsSent c.fg cs h.1))
]

half_block_row-IsSent :
    (last_bg last_fg : ℤ) (r : Row) → All Coloured r → All IsSent (half_block_row last_bg last_fg r)
unfolding half_block_row
half_block_row-IsSent last_bg last_fg [] h = tt
half_block_row-IsSent last_bg last_fg (c ∷ cs) h = elim (Bool-cases (c.char == 32)) [
  | inl e ↦ rw e (
      All-append IsSent (clear_unless_both last_bg last_fg) _
        (clear_unless_both-IsSent last_bg last_fg)
        ((omega arith, omega arith), half_block_row-IsSent unset unset cs h.1))
  | inr e ↦ rw e (
      All-append IsSent (if eqb_ℤ c.bg last_bg then [] else background c.bg ∷ []) _
        (unless-IsSent (eqb_ℤ c.bg last_bg) (background c.bg) (h.0 e).1)
        (All-append IsSent (if eqb_ℤ c.fg last_fg then [] else foreground c.fg ∷ []) _
          (unless-IsSent (eqb_ℤ c.fg last_fg) (foreground c.fg) (h.0 e).0)
          (tt, half_block_row-IsSent c.bg c.fg cs h.1)))
]

ascii-IsWriter : IsWriter (Drawable 0) ascii_look ascii_row (line_break ∷ []) []
unfolding screen
ascii-IsWriter = record {
  line = λ r ws h. ascii_row-screen r (line_break ∷ ws);
  end = λ r h. ascii_row-screen r [];
  row_sent = ascii_row-IsSent;
  between_sent = (tt, tt);
  behind_sent = tt;
}

color256-IsWriter :
    IsWriter (Drawable 1) color256_look (color256_row unset) (clear ∷ line_break ∷ []) (clear ∷ [])
unfolding screen
color256-IsWriter = record {
  line = λ r ws h. color256_row-screen unset r (line_break ∷ ws) (plain_row r h);
  end = λ r h. color256_row-screen unset r [] (plain_row r h);
  row_sent = color256_row-IsSent unset;
  between_sent = (tt, (tt, tt));
  behind_sent = (tt, tt);
}

half_block-IsWriter :
    IsWriter
      (Drawable 2)
      half_block_look
      (half_block_row unset unset)
      (clear ∷ line_break ∷ [])
      (clear ∷ [])
unfolding screen
half_block-IsWriter = record {
  line = λ r ws h. half_block_row-screen unset unset r (line_break ∷ ws) h;
  end = λ r h. half_block_row-screen unset unset r [] h;
  row_sent = half_block_row-IsSent unset unset;
  between_sent = (tt, (tt, tt));
  behind_sent = (tt, tt);
}

serialise_writes-IsWritten :
    (mode : ℕ) (r : Row) (rs : Grid)
    → mode < 3
    → Rows (length r) (r ∷ rs)
    → All (λ (r : Row). All (Drawable mode) r) (r ∷ rs)
    → IsWritten (look_in mode) (r ∷ rs) (serialise_writes (r ∷ rs) (pos mode))
unfolding serialise_writes
serialise_writes-IsWritten zero r rs m sides cells =
    join_rows-IsWritten (Drawable 0) ascii_look ascii_row (line_break ∷ []) [] (length r) r rs
      ascii-IsWriter sides cells
serialise_writes-IsWritten (suc zero) r rs m sides cells =
    join_rows-IsWritten (Drawable 1) color256_look (color256_row unset) (clear ∷ line_break ∷ [])
      (clear ∷ []) (length r) r rs color256-IsWriter sides cells
serialise_writes-IsWritten (suc (suc zero)) r rs m sides cells =
    join_rows-IsWritten (Drawable 2) half_block_look (half_block_row unset unset)
      (clear ∷ line_break ∷ []) (clear ∷ []) (length r) r rs half_block-IsWriter sides cells
serialise_writes-IsWritten (suc (suc (suc n))) r rs m sides cells = absurd (omega arith)

-- The text is there, and a terminal that reads it byte by byte shows the cells as they look.
pub record IsDrawn (look : Cell → Look) (cells : Grid) (result : Option Bytes) : Type 0 where
  pub text : Bytes
  pub answered : result ≡ some text
  pub shown : terminal reading unset unset text ≡ screen_of look cells

-- In each of the three modes, a grid of at least one row, with rows of one width, is written as a
-- text, and a terminal that reads it byte by byte, from unset colours, shows every cell with its
-- own look: in ASCII the character without colours, for printable characters; in 256 colours the
-- character in its foreground, for printable characters whose foreground is in the palette unless
-- they are spaces; in half blocks the block in both colours, for cells whose colours are both in
-- the palette unless they are spaces.
pub serialise_mode-IsDrawn :
    (mode : ℕ) (r : Row) (rs : Grid)
    → mode < 3
    → Rows (length r) (r ∷ rs)
    → All (λ (r : Row). All (Drawable mode) r) (r ∷ rs)
    → IsDrawn (look_in mode) (r ∷ rs) (serialise_mode (r ∷ rs) (pos mode))
unfolding serialise_mode text_of_result
serialise_mode-IsDrawn mode r rs m sides cells =
    let w = serialise_writes-IsWritten mode r rs m sides cells in
    record {
      text = text_of_writes w.writes;
      answered = rw w.written;
      shown = text_of_writes-terminal w.writes unset unset w.sent ∙ w.drawn;
    }
