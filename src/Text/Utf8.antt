-- ===== src/Text/Utf8.antt =====
-- The UTF-8 bytes of a string, and the bytes in it that differ.
use termcall.Prelude.{
  ℕ, ◌+◌, ◌/◌, ◌%◌, Bool, false, ◌||◌, [], ◌∷◌, ◌++◌, ltb, ◌==◌, if◌then◌else◌, Text,
}
use termcall.Text.{Bytes}

unfoldable pub encode_rune : ℕ → Bytes
encode_rune c =
    if ltb c 0x80
    then c ∷ []
    else if ltb c 0x800
    then (0xc0 + c / 64) ∷ (0x80 + c % 64) ∷ []
    else if ltb c 0x10000
    then (0xe0 + c / 4096) ∷ (0x80 + c / 64 % 64) ∷ (0x80 + c % 64) ∷ []
    else (0xf0 + c / 262144) ∷ (0x80 + c / 4096 % 64) ∷ (0x80 + c / 64 % 64) ∷ (0x80 + c % 64) ∷ []

unfoldable pub utf8 : Text → Bytes
utf8 [] = []
utf8 (c ∷ s) = encode_rune c ++ utf8 s

unfoldable pub holds : ℕ → Bytes → Bool
holds b [] = false
holds b (c ∷ s) = c == b || holds b s

-- `len` of the map whose keys are the bytes.
unfoldable pub distinct_bytes : Bytes → ℕ
distinct_bytes [] = 0
distinct_bytes (b ∷ s) = let rest = distinct_bytes s in if holds b s then rest else rest + 1
