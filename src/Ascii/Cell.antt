-- ===== src/Ascii/Cell.antt =====
-- internal/ascii/stabiliser.go and renderer.go: `Cell`, grids of cells and `RenderMode`.
--
-- A grid is a value: `deepCopyCells`, and what is read through a copied slice, is the grid itself.
use termcall.Prelude.{
  ℕ, ◌≡◌, Bool, true, ◌&&◌, List, [], ◌∷◌, arith, ◌==◌, ℤ, pos, eqb_ℤ, length, eqb_ℤ_iff,
}

-- `char` is a Go `byte`, below 256.
pub record Cell : Type 0 where
  pub char : ℕ
  pub fg : ℤ
  pub bg : ℤ

abbrev pub Row : Type 0
Row = List Cell

abbrev pub Grid : Type 0
Grid = List Row

-- `RenderMode` is an `int` with three constants.
abbrev pub RenderMode : Type 0
RenderMode = ℤ

abbrev pub mode_ascii : RenderMode
mode_ascii = pos 0

abbrev pub mode_color256 : RenderMode
mode_color256 = pos 1

abbrev pub mode_half_block : RenderMode
mode_half_block = pos 2

-- `==` on the struct.
unfoldable pub cell_eq : Cell → Cell → Bool
cell_eq c d = c.char == d.char && eqb_ℤ c.fg d.fg && eqb_ℤ c.bg d.bg

-- `len(cells[0])`, read only where there is a row.
abbrev pub width : Grid → ℕ
width [] = 0
width (r ∷ rs) = length r

pub cell_eq_sound : (c d : Cell) → cell_eq c d ≡ true → c ≡ d
unfolding cell_eq
cell_eq_sound c d h = ground (arith, eqb_ℤ_iff c.fg d.fg, eqb_ℤ_iff c.bg d.bg)
