-- ===== src/Protocol/Validate/Username.antt =====
-- What a normalized username is.
use termcall.Prelude.{
  ℕ, suc, ◌+◌, ◌≤◌, ◌≡◌, refl, ap, ◌∙◌, ◌≢◌, inl, inr, true, false, [], ◌∷◌, arith, ok, >>=-eq-ok,
  length, All, Text, Bool-cases,
}
use termcall.Protocol.Message.{max_username_runes}
use termcall.Protocol.Validate.{
  Runes, is_space, trim_left, trim_cons, trim_right, trim_space, printable_runes, not_empty,
  normalize_username,
}

-- A text that does not begin with a space.
abbrev Fronted : Text → Type 0
Fronted [] = Unit {0}
Fronted (c ∷ s) = is_space c ≡ false

trim_left-Fronted : (s : Text) → Fronted (trim_left s)
unfolding trim_left
trim_left-Fronted [] = tt
trim_left-Fronted (c ∷ s) = elim (Bool-cases (is_space c)) [
  | inl e ↦ rw e (trim_left-Fronted s)
  | inr e ↦ rw e e
]

trim_left_id : (s : Text) → Fronted s → trim_left s ≡ s
unfolding trim_left
trim_left_id [] h = refl
trim_left_id (c ∷ s) h = rw h

trim_right_cons :
    (c : ℕ) (s : Text) → is_space c ≡ false → (t : Text) × (trim_right (c ∷ s) ≡ c ∷ t)
unfolding trim_right trim_cons
trim_right_cons c s h = cons_of (trim_right s)
  where
    cons_of : (r : Text) → (t : Text) × (trim_cons c r ≡ c ∷ t)
    cons_of [] = ([], rw h)
    cons_of (d ∷ r) = (d ∷ r, refl)

trim_right-Fronted : (s : Text) → Fronted s → Fronted (trim_right s)
trim_right-Fronted [] h = unfold trim_right in tt
trim_right-Fronted (c ∷ s) h = let (t, e) = trim_right_cons c s h in rw e h

trim_cons_idem : (c : ℕ) (r : Text) → trim_right r ≡ r → trim_right (trim_cons c r) ≡ trim_cons c r
unfolding trim_right
trim_cons_idem c [] h = elim (Bool-cases (is_space c)) [ inl e ↦ rw e | inr e ↦ rw (e, e) ]
trim_cons_idem c (d ∷ r) h = ap (trim_cons c) h

trim_right_idem : (s : Text) → trim_right (trim_right s) ≡ trim_right s
unfolding trim_right
trim_right_idem [] = refl
trim_right_idem (c ∷ s) = trim_cons_idem c (trim_right s) (trim_right_idem s)

pub trim_space_idem : (s : Text) → trim_space (trim_space s) ≡ trim_space s
unfolding trim_space
trim_space_idem s =
    ap trim_right (
      trim_left_id (trim_right (trim_left s))
        (trim_right-Fronted (trim_left s) (trim_left-Fronted s)))
    ∙ trim_right_idem (trim_left s)

-- Trimming only leaves runes out.
module _ {κ} (P : ℕ → Type κ) where
  trim_left-All : (s : Text) → All P s → All P (trim_left s)
  unfolding trim_left
  trim_left-All [] h = tt
  trim_left-All (c ∷ s) h = elim (Bool-cases (is_space c)) [
    | inl e ↦ rw e (trim_left-All s h.1)
    | inr e ↦ rw e h
  ]

  trim_cons-All : (c : ℕ) (r : Text) → P c → All P r → All P (trim_cons c r)
  unfolding trim_cons
  trim_cons-All c [] h hs = elim (Bool-cases (is_space c)) [
    | inl e ↦ rw e tt
    | inr e ↦ rw e (h, tt)
  ]
  trim_cons-All c (d ∷ r) h hs = (h, hs)

  trim_right-All : (s : Text) → All P s → All P (trim_right s)
  unfolding trim_right
  trim_right-All [] h = tt
  trim_right-All (c ∷ s) h = trim_cons-All c (trim_right s) h.0 (trim_right-All s h.1)

  trim_space-All : (s : Text) → All P s → All P (trim_space s)
  unfolding trim_space
  trim_space-All s h = trim_right-All (trim_left s) (trim_left-All s h)

length-trim_left-le : (s : Text) → length (trim_left s) ≤ length s
unfolding trim_left
length-trim_left-le [] = omega arith
length-trim_left-le (c ∷ s) = ground (arith, length-trim_left-le s)

length-trim_cons-le : (c : ℕ) (r : Text) → length (trim_cons c r) ≤ suc (length r)
unfolding trim_cons
length-trim_cons-le c [] = ground arith
length-trim_cons-le c (d ∷ r) = omega arith

length-trim_right-le : (s : Text) → length (trim_right s) ≤ length s
unfolding trim_right
length-trim_right-le [] = omega arith
length-trim_right-le (c ∷ s) =
    omega (arith, length-trim_cons-le c (trim_right s), length-trim_right-le s)

length-trim_space-le : (s : Text) → length (trim_space s) ≤ length s
unfolding trim_space
length-trim_space-le s = omega (arith, length-trim_right-le (trim_left s), length-trim_left-le s)

module _ (u : Runes) where
  abbrev pub IsShown : ℕ → Type 0
  IsShown c = (u.is_control c ≡ false) × (u.is_print c ≡ true)

  printable_runes-All : (n : ℕ) (s : Text) → All IsShown (printable_runes u n s)
  unfolding printable_runes
  printable_runes-All n [] = tt
  printable_runes-All n (c ∷ s) =
      ground (arith, printable_runes-All n s, printable_runes-All (n + 1) s)

  length-printable_runes : (n : ℕ) (s : Text) → n ≤ 32 → length (printable_runes u n s) + n ≤ 32
  unfolding printable_runes
  length-printable_runes n [] h = omega arith
  length-printable_runes n (c ∷ s) h =
      ground (arith, length-printable_runes n s h, length-printable_runes (n + 1) s)

  printable_runes_all :
      (n : ℕ) (s : Text) → All IsShown s → length s + n ≤ 32 → printable_runes u n s ≡ s
  unfolding printable_runes
  printable_runes_all n [] h k = refl
  printable_runes_all n (c ∷ s) h k = ground (arith, printable_runes_all (n + 1) s h.1)

  not_empty-ok : (s t : Text) → not_empty u s ≡ ok t → (s ≡ t) × (t ≢ [])
  unfolding not_empty
  not_empty-ok [] t h = absurd (cc)
  not_empty-ok (c ∷ s) t h = (ground arith, ground arith)

  not_empty_cons : (s : Text) → s ≢ [] → not_empty u s ≡ ok s
  unfolding not_empty
  not_empty_cons [] h = absurd (h refl)
  not_empty_cons (c ∷ s) h = refl

  pub record IsUsername (name : Text) : Type 0 where
    pub filled : name ≢ []
    pub short : length name ≤ max_username_runes
    pub shown : All IsShown name
    pub trimmed : trim_space name ≡ name

  -- A normalized username is not empty, has at most 32 runes, all printable and none a control
  -- character, and no space at either end.
  pub normalize_username-IsUsername :
      (value name : Text) → normalize_username u value ≡ ok name → IsUsername name
  unfolding normalize_username
  normalize_username-IsUsername value name h =
      let (trimmed, e1, h1) = >>=-eq-ok (not_empty u (trim_space value)) _ h in
      let written = printable_runes u 0 trimmed in
      let (e2, ne) = not_empty-ok (trim_space written) name h1 in
      record {
        filled = ne;
        short = omega (
          arith,
          length-trim_space-le written,
          length-printable_runes 0 trimmed (omega arith),
          ap length e2,
        );
        shown = rw (← e2) (trim_space-All IsShown written (printable_runes-All 0 trimmed));
        trimmed = rw (← e2) (trim_space_idem written);
      }

  -- Such a name is its own normal form, so normalizing twice changes nothing: the name that a client
  -- sends normalized is the name that the server announces and that the peers show.
  pub normalize_username_idem :
      (value name : Text)
      → normalize_username u value ≡ ok name
      → normalize_username u name ≡ ok name
  unfolding normalize_username
  normalize_username_idem value name h =
      let v = normalize_username-IsUsername value name h in
      rw
        (
          v.trimmed,
          not_empty_cons name v.filled,
          printable_runes_all 0 name v.shown (omega (arith, v.short)),
          v.trimmed,
        )
        (not_empty_cons name v.filled)
