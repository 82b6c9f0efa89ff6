-- ===== src/Protocol/Validate/Trim.antt =====
-- Texts that `strings.TrimSpace` leaves as they are.
use termcall.Prelude.{ℕ, ◌≡◌, refl, ap, ◌∙◌, false, [], ◌∷◌, ◌++◌, All, Text}
use termcall.Protocol.Validate.{is_space, trim_left, trim_cons, trim_right, trim_space}

trim_left_front : (c : ℕ) (s : Text) → is_space c ≡ false → trim_left (c ∷ s) ≡ c ∷ s
unfolding trim_left
trim_left_front c s h = rw h

trim_right_end : (s : Text) (d : ℕ) → is_space d ≡ false → trim_right (s ++ d ∷ []) ≡ s ++ d ∷ []
unfolding trim_right trim_cons
trim_right_end [] d h = rw h
trim_right_end (c ∷ []) d h = ap (trim_cons c) (trim_right_end [] d h)
trim_right_end (c ∷ e ∷ s) d h = ap (trim_cons c) (trim_right_end (e ∷ s) d h)

-- Nothing is trimmed where both ends are not spaces.
pub trim_space_ends :
    (c : ℕ) (s : Text) (d : ℕ)
    → is_space c ≡ false
    → is_space d ≡ false
    → trim_space (c ∷ (s ++ d ∷ [])) ≡ c ∷ (s ++ d ∷ [])
unfolding trim_space
trim_space_ends c s d hc hd =
    ap trim_right (trim_left_front c (s ++ d ∷ []) hc) ∙ trim_right_end (c ∷ s) d hd

trim_right_solid : (s : Text) → All (λ c. is_space c ≡ false) s → trim_right s ≡ s
unfolding trim_right trim_cons
trim_right_solid [] h = refl
trim_right_solid (c ∷ []) h = rw (h.0)
trim_right_solid (c ∷ d ∷ s) h = ap (trim_cons c) (trim_right_solid (d ∷ s) h.1)

-- Nor where no rune is a space.
pub trim_space_solid : (s : Text) → All (λ c. is_space c ≡ false) s → trim_space s ≡ s
unfolding trim_space trim_right trim_left
trim_space_solid [] h = refl
trim_space_solid (c ∷ s) h = ap trim_right (trim_left_front c s h.0) ∙ trim_right_solid (c ∷ s) h
