-- ===== src/Text/Split.antt =====
-- `strings.Split` at one byte, `strings.IndexByte`, `strings.TrimSuffix(s, "\n")`.
use termcall.Prelude.{
  ℕ, ◌≡◌, refl, ap, ◌≢◌, List, [], ◌∷◌, ◌++◌, Option, none, some, arith, ◌==◌, if◌then◌else◌, All,
  ==_refl,
}
use termcall.Text.{Bytes}

cons_head : ℕ → List Bytes → List Bytes
cons_head c [] = (c ∷ []) ∷ []
cons_head c (p ∷ ps) = (c ∷ p) ∷ ps

-- There is always at least one part.
unfoldable pub split : ℕ → Bytes → List Bytes
unfolding cons_head
split sep [] = [] ∷ []
split sep (c ∷ s) = let rest = split sep s in if c == sep then [] ∷ rest else cons_head c rest

-- `data[:i], data[i+1:]` at the first `sep`, if there is one.
unfoldable pub cut_byte : ℕ → Bytes → Option (Bytes × Bytes)
cut_byte sep [] = none
cut_byte sep (c ∷ s) =
    let rest = cut_byte sep s in
    if c == sep then some ([], s) else elim rest [ none ↦ none | some (a, b) ↦ some (c ∷ a, b) ]

unfoldable pub trim_newline : Bytes → Bytes
trim_newline [] = []
trim_newline (c ∷ []) = if c == b'\n' then [] else c ∷ []
trim_newline (c ∷ d ∷ s) = c ∷ trim_newline (d ∷ s)

abbrev pub Lacks : ℕ → Bytes → Type 0
Lacks sep = All (λ c. c ≢ sep)

pub split-Lacks : (sep : ℕ) (s : Bytes) → Lacks sep s → split sep s ≡ s ∷ []
unfolding split
split-Lacks sep [] h = refl
split-Lacks sep (c ∷ s) h = ground (arith, split-Lacks sep s h.1)

-- A part that lacks the separator comes off whole.
pub split-append :
    (sep : ℕ) (p s : Bytes) → Lacks sep p → split sep (p ++ sep ∷ s) ≡ p ∷ split sep s
unfolding split
split-append sep [] s h = rw (==_refl sep)
split-append sep (c ∷ p) s h = ground (arith, split-append sep p s h.1)

pub cut_byte-append :
    (sep : ℕ) (p s : Bytes) → Lacks sep p → cut_byte sep (p ++ sep ∷ s) ≡ some (p, s)
unfolding cut_byte
cut_byte-append sep [] s h = rw (==_refl sep)
cut_byte-append sep (c ∷ p) s h = ground (arith, cut_byte-append sep p s h.1)

pub trim_newline-append : (s : Bytes) → trim_newline (s ++ b'\n' ∷ []) ≡ s
unfolding trim_newline
trim_newline-append [] = refl
trim_newline-append (c ∷ []) = refl
trim_newline-append (c ∷ d ∷ s) = ap (λ (t : Bytes). c ∷ t) (trim_newline-append (d ∷ s))
