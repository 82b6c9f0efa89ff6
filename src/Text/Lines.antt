-- ===== src/Text/Lines.antt =====
-- Texts made of lines that each end in a newline.
use termcall.Prelude.{ℕ, ◌≡◌, refl, ap, ◌∙◌, List, [], ◌∷◌, ◌++◌, All}
use termcall.Text.{Bytes}
use termcall.Text.Split.{Lacks, split, split-Lacks, split-append, trim_newline, trim_newline-append}

unfoldable pub terminated : List Bytes → Bytes
terminated [] = []
terminated (l ∷ ls) = l ++ b'\n' ∷ terminated ls

trim_newline_later :
    (a : Bytes) (c d : ℕ) (s : Bytes)
    → trim_newline (a ++ c ∷ d ∷ s) ≡ a ++ c ∷ trim_newline (d ∷ s)
unfolding trim_newline
trim_newline_later [] c d s = refl
trim_newline_later (x ∷ []) c d s = refl
trim_newline_later (x ∷ y ∷ a) c d s = ap (λ (t : Bytes). x ∷ t) (trim_newline_later (y ∷ a) c d s)

terminated_cons :
    (l : Bytes) (ls : List Bytes) → (d : ℕ) × (s : Bytes) × (terminated (l ∷ ls) ≡ d ∷ s)
unfolding terminated
terminated_cons [] ls = (b'\n', terminated ls, refl)
terminated_cons (c ∷ l) ls = (c, l ++ b'\n' ∷ terminated ls, refl)

trim_line :
    (a l : Bytes) (ls : List Bytes)
    → trim_newline (a ++ b'\n' ∷ terminated (l ∷ ls))
      ≡ a ++ b'\n' ∷ trim_newline (terminated (l ∷ ls))
trim_line a l ls = let (d, s, e) = terminated_cons l ls in rw e (trim_newline_later a b'\n' d s)

-- One line or more: without the last newline, and cut at the others, the text gives its lines.
pub split-terminated :
    (l : Bytes) (ls : List Bytes)
    → All (Lacks b'\n') (l ∷ ls)
    → split b'\n' (trim_newline (terminated (l ∷ ls))) ≡ l ∷ ls
unfolding terminated
split-terminated l [] h = rw (trim_newline-append l) (split-Lacks b'\n' l h.0)
split-terminated l (m ∷ ls) h =
    ap (split b'\n') (trim_line l m ls)
    ∙ split-append b'\n' l (trim_newline (terminated (m ∷ ls))) h.0
    ∙ ap (λ (ts : List Bytes). l ∷ ts) (split-terminated m ls h.1)
