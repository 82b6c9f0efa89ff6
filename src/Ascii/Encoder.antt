-- ===== src/Ascii/Encoder.antt =====
-- internal/ascii/delta.go: `DeltaEncoder`.
--
-- `none` is a run-time panic: an index out of range in the previous frame.
use termcall.Prelude.{
  ℕ, ◌+◌, ◌*◌, ◌/◌, not, ◌||◌, [], ◌∷◌, ◌++◌, Option, none, some, ltb, leb, ◌==◌, if◌then◌else◌, ℤ,
  pos, pos_part, ltb_ℤ, ok, err, length,
}
use termcall.Text.{Bytes}
use termcall.Text.Decimal.{itoa}
use termcall.Ascii.Cell.{Cell, Row, Grid, RenderMode, cell_eq, width}
use termcall.Ascii.Frame.{validate_grid}

pub record DeltaEncoder : Type 0 where
  pub prev : Option Grid
  pub w : ℕ
  pub h : ℕ
  pub mode : RenderMode
  pub frame_count : ℕ
  pub keyframe_every : ℕ

unfoldable pub new_delta_encoder : RenderMode → ℤ → DeltaEncoder
new_delta_encoder mode keyframe_interval = record {
  prev = none;
  w = 0;
  h = 0;
  mode = mode;
  frame_count = 0;
  keyframe_every = if ltb_ℤ keyframe_interval (pos 1) then 30 else pos_part keyframe_interval;
}

unfoldable pub reset : DeltaEncoder → DeltaEncoder
reset e = record e { prev = none; w = 0; h = 0; frame_count = 0 }

-- "%d,%d,%d"
unfoldable pub key_cell : Cell → Bytes
key_cell c = itoa c.fg ++ b',' ∷ (itoa c.bg ++ b',' ∷ itoa (pos c.char))

-- The cells of a row from the second on, each behind a semicolon.
unfoldable pub key_rest : Row → Bytes
key_rest [] = []
key_rest (c ∷ cs) = b';' ∷ (key_cell c ++ key_rest cs)

unfoldable pub key_row : Row → Bytes
key_row [] = []
key_row (c ∷ cs) = key_cell c ++ key_rest cs

unfoldable pub key_rows : Grid → Bytes
key_rows [] = []
key_rows (r ∷ rs) = key_row r ++ b'\n' ∷ key_rows rs

-- "<letter> %d %d %d\n"
unfoldable pub frame_header : ℕ → ℤ → ℤ → ℤ → Bytes
frame_header letter a b c =
    (letter ∷ []) ++ 32 ∷ (itoa a ++ 32 ∷ (itoa b ++ 32 ∷ (itoa c ++ b'\n' ∷ [])))

unfoldable pub encode_keyframe : RenderMode → Grid → Bytes
encode_keyframe mode cells =
    frame_header b'K' (pos (width cells)) (pos (length cells)) mode ++ key_rows cells

-- "%d %d %d %d %d\n"
unfoldable pub change_line : ℕ → ℕ → Cell → Bytes
change_line y x c =
    itoa (pos y)
    ++ 32
      ∷ (itoa (pos x)
          ++ 32 ∷ (itoa c.fg ++ 32 ∷ (itoa c.bg ++ 32 ∷ (itoa (pos c.char) ++ b'\n' ∷ []))))

add_change : ℕ → ℕ → Cell → Cell → Bytes × ℕ → Bytes × ℕ
add_change y x c p (text, count) =
    if cell_eq c p then (text, count) else (change_line y x c ++ text, count + 1)

-- The changes of row `y` from column `x` on: their lines, and how many there are.
unfoldable pub delta_row : ℕ → ℕ → Row → Row → Option (Bytes × ℕ)
unfolding add_change
delta_row y x [] ps = some ([], 0)
delta_row y x (c ∷ cs) [] = none
delta_row y x (c ∷ cs) (p ∷ ps) = elim (delta_row y (x + 1) cs ps) [
  | none ↦ none
  | some r ↦ some (add_change y x c p r)
]

both : Bytes × ℕ → Option (Bytes × ℕ) → Option (Bytes × ℕ)
both (text, count) none = none
both (text, count) (some (more, n)) = some (text ++ more, count + n)

unfoldable pub delta_rows : ℕ → Grid → Grid → Option (Bytes × ℕ)
unfolding both
delta_rows y [] prs = some ([], 0)
delta_rows y (r ∷ rs) [] = none
delta_rows y (r ∷ rs) (pr ∷ prs) =
    let rest = delta_rows (y + 1) rs prs in
    elim (delta_row y 0 r pr) [ none ↦ none | some changes ↦ both changes rest ]

-- The empty text where a keyframe is more appropriate.
unfoldable pub encode_delta : Grid → Grid → Option Bytes
encode_delta prev cells =
    let h = length cells in
    let w = width cells in
    elim (delta_rows 0 cells prev) [
      | none ↦ none
      | some (text, count) ↦ some (
          if ltb (w * h / 2) count
          then []
          else frame_header b'D' (pos w) (pos h) (pos count) ++ text)
    ]

send_keyframe : DeltaEncoder → Grid → ℕ → ℕ → Bytes × DeltaEncoder
send_keyframe e cells w h =
    (encode_keyframe e.mode cells, record e { prev = some cells; w = w; h = h; frame_count = 0 })

-- What is sent for a delta, at the frame count `count`: the delta, or the keyframe in its place.
send_delta : DeltaEncoder → Grid → ℕ → Bytes → Bytes × DeltaEncoder
send_delta e cells count [] =
    (encode_keyframe e.mode cells, record e { prev = some cells; frame_count = 0 })
send_delta e cells count (b ∷ bs) = (b ∷ bs, record e { prev = some cells; frame_count = count })

unfoldable pub encode_valid :
    DeltaEncoder → Option Grid → Grid → ℕ → ℕ → Option (Bytes × DeltaEncoder)
unfolding send_keyframe send_delta
encode_valid e none cells w h = some (send_keyframe e cells w h)
encode_valid e (some prev) cells w h =
    let count = e.frame_count + 1 in
    if not (e.w == w) || not (e.h == h) || leb e.keyframe_every count
    then some (send_keyframe e cells w h)
    else elim (encode_delta prev cells) [
      | none ↦ none
      | some text ↦ some (send_delta e cells count text)
    ]

-- A grid that is refused gives the empty text and leaves the encoder as it is.
unfoldable pub encode : DeltaEncoder → Grid → Option (Bytes × DeltaEncoder)
unfolding encode_valid
encode e cells = elim (validate_grid cells e.mode) [
  | err _ ↦ some ([], e)
  | ok (w, h) ↦ encode_valid e e.prev cells w h
]
