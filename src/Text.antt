-- ===== src/Text.antt =====
-- What the source uses of Go's `strings` and `strconv`, over lists of bytes.
pub mod Decimal
pub mod Utf8
pub mod Split
pub mod Fields
pub mod Numerals
pub mod Lines
use Prim.Native.Char.{code}
use Prim.Native.String.{String}
use termcall.Prelude.{ℕ, List, [], ◌∷◌}

abbrev pub Bytes : Type 0
Bytes = List ℕ

-- The bytes of an ASCII literal.
abbrev pub codes : String → Bytes
codes String.[] = []
codes (String.◌∷◌ c s) = code c ∷ codes s
