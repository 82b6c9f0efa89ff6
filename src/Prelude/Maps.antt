-- ===== src/Prelude/Maps.antt =====
-- Strings as lists of runes, and Go maps with string keys as association lists. What is read in map
-- order is read in the list's order; Go leaves that order open.
use Prim.Native.Nat.{ℕ, ◌+◌, ◌≤◌}
use mathlib.Core.Path.{◌≡◌, refl}
use mathlib.Core.Logic.{◌↔◌, inl, inr}
use mathlib.Core.Bool.{Bool, true, false, ◌&&◌}
use mathlib.Core.Option.{Option, none, some}
use mathlib.Core.List.{List, [], ◌∷◌}
use native.Mathlib.Omega.{arith}
use termcall.Prelude.Tests.{Bool-cases, ◌==◌, if◌then◌else◌}
use termcall.Prelude.Lists.{length}

-- A string, as its runes.
abbrev pub Text : Type 0
Text = List ℕ

unfoldable pub text_eq : Text → Text → Bool
text_eq [] [] = true
text_eq [] (d ∷ t) = false
text_eq (c ∷ s) [] = false
text_eq (c ∷ s) (d ∷ t) = c == d && text_eq s t

text_eq_sound : (s t : Text) → text_eq s t ≡ true → s ≡ t
unfolding text_eq
text_eq_sound [] [] h = refl
text_eq_sound [] (d ∷ t) h = absurd (ground arith)
text_eq_sound (c ∷ s) [] h = absurd (ground arith)
text_eq_sound (c ∷ s) (d ∷ t) h = ground (arith, text_eq_sound s t)

pub text_eq_refl : (s : Text) → text_eq s s ≡ true
unfolding text_eq
text_eq_refl [] = refl
text_eq_refl (c ∷ s) = ground (arith, text_eq_refl s)

pub text_eq_iff : (s t : Text) → (text_eq s t ≡ true) ↔ (s ≡ t)
text_eq_iff s t = (text_eq_sound s t, λ e. subst_refl s t e)
  where
    subst_refl : (s t : Text) → s ≡ t → text_eq s t ≡ true
    subst_refl s t e = rw (← e) (text_eq_refl s)

module _ {ℓ} {V : Type ℓ} where
  unfoldable pub lookup : Text → List (Text × V) → Option V
  lookup key [] = none
  lookup key ((name, here) ∷ rest) = if text_eq name key then some here else lookup key rest

  -- `m[key] = new`
  unfoldable pub insert : Text → V → List (Text × V) → List (Text × V)
  insert key new [] = (key, new) ∷ []
  insert key new ((name, here) ∷ rest) =
      if text_eq name key then (key, new) ∷ rest else (name, here) ∷ insert key new rest

  -- `delete(m, key)`
  unfoldable pub delete : Text → List (Text × V) → List (Text × V)
  delete key [] = []
  delete key ((name, here) ∷ rest) =
      let left = delete key rest in if text_eq name key then left else (name, here) ∷ left

  pub lookup-insert :
      (k j : Text) (v : V) (m : List (Text × V))
      → lookup j (insert k v m) ≡ (if text_eq k j then some v else lookup j m)
  unfolding lookup insert
  lookup-insert k j v [] = refl
  lookup-insert k j v ((i, w) ∷ m) =
      ground (arith, text_eq_iff k j, text_eq_iff i k, text_eq_iff i j, lookup-insert k j v m)

  pub lookup-delete :
      (k j : Text) (m : List (Text × V))
      → lookup j (delete k m) ≡ (if text_eq k j then none else lookup j m)
  unfolding lookup delete
  lookup-delete k j [] = ground arith
  lookup-delete k j ((i, w) ∷ m) =
      ground (arith, text_eq_iff k j, text_eq_iff i k, text_eq_iff i j, lookup-delete k j m)

  -- A key stands once.
  abbrev pub Keyed : List (Text × V) → Type ℓ
  Keyed [] = Unit
  Keyed ((j, w) ∷ m) = (lookup j m ≡ none) × Keyed m

  pub insert-Keyed : (k : Text) (v : V) (m : List (Text × V)) → Keyed m → Keyed (insert k v m)
  unfolding insert lookup
  insert-Keyed k v [] h = (refl, tt)
  insert-Keyed k v ((j, w) ∷ m) h =
      ground
        (arith, text_eq_iff j k, text_eq_iff k j, insert-Keyed k v m h.1, lookup-insert k j v m)

  pub delete-Keyed : (k : Text) (m : List (Text × V)) → Keyed m → Keyed (delete k m)
  unfolding delete
  delete-Keyed k [] h = tt
  delete-Keyed k ((j, w) ∷ m) h =
      ground (arith, delete-Keyed k m h.1, lookup-delete k j m, text_eq_iff j k, text_eq_iff k j)

  pub delete_missing : (k : Text) (m : List (Text × V)) → lookup k m ≡ none → delete k m ≡ m
  unfolding delete lookup
  delete_missing k [] h = refl
  delete_missing k ((j, w) ∷ m) h = ground (arith, delete_missing k m)

  pub length-insert_new :
      (k : Text) (v : V) (m : List (Text × V))
      → lookup k m ≡ none
      → length (insert k v m) ≡ length m + 1
  unfolding insert lookup
  length-insert_new k v [] h = omega arith
  length-insert_new k v ((j, w) ∷ m) h = ground (arith, length-insert_new k v m)

  pub length-insert_old :
      (k : Text) (v w : V) (m : List (Text × V))
      → lookup k m ≡ some w
      → length (insert k v m) ≡ length m
  unfolding insert lookup
  length-insert_old k v w [] h = absurd (cc)
  length-insert_old k v w ((j, u) ∷ m) h = ground (arith, length-insert_old k v w m)

  pub length-delete_old :
      (k : Text) (v : V) (m : List (Text × V))
      → Keyed m
      → lookup k m ≡ some v
      → length (delete k m) + 1 ≡ length m
  unfolding delete lookup
  length-delete_old k v [] hk h = absurd (cc)
  length-delete_old k v ((j, u) ∷ m) hk h =
      ground (arith, text_eq_iff j k, length-delete_old k v m hk.1, delete_missing k m)

  pub length-delete-le : (k : Text) (m : List (Text × V)) → length (delete k m) ≤ length m
  unfolding delete
  length-delete-le k [] = omega arith
  length-delete-le k ((j, w) ∷ m) = ground (arith, length-delete-le k m)

  pub delete-insert_new :
      (k : Text) (v : V) (m : List (Text × V)) → lookup k m ≡ none → delete k (insert k v m) ≡ m
  unfolding delete insert lookup
  delete-insert_new k v [] h = ground (arith, text_eq_refl k)
  delete-insert_new k v ((j, w) ∷ m) h = ground (arith, delete-insert_new k v m, delete_missing k m)

  pub insert-insert :
      (k : Text) (v w : V) (m : List (Text × V)) → insert k v (insert k w m) ≡ insert k v m
  unfolding insert
  insert-insert k v w [] = ground (arith, text_eq_refl k)
  insert-insert k v w ((j, u) ∷ m) = ground (arith, text_eq_refl k, insert-insert k v w m)

  -- Every entry, with its key.
  abbrev pub Entries {κ} : (Text → V → Type κ) → List (Text × V) → Type κ
  Entries P [] = Unit
  Entries P ((j, w) ∷ m) = P j w × Entries P m

  pub Entries-insert {κ} :
      (P : Text → V → Type κ) (k : Text) (v : V) (m : List (Text × V))
      → P k v
      → Entries P m
      → Entries P (insert k v m)
  unfolding insert
  Entries-insert P k v [] h hs = (h, tt)
  Entries-insert P k v ((j, w) ∷ m) h hs = elim (Bool-cases (text_eq j k)) [
    | inl e ↦ rw e (h, hs.1)
    | inr e ↦ rw e (hs.0, Entries-insert P k v m h hs.1)
  ]

  pub Entries-delete {κ} :
      (P : Text → V → Type κ) (k : Text) (m : List (Text × V))
      → Entries P m
      → Entries P (delete k m)
  unfolding delete
  Entries-delete P k [] hs = tt
  Entries-delete P k ((j, w) ∷ m) hs = elim (Bool-cases (text_eq j k)) [
    | inl e ↦ rw e (Entries-delete P k m hs.1)
    | inr e ↦ rw e (hs.0, Entries-delete P k m hs.1)
  ]

  same_value : (v w : V) → some v ≡ some w → v ≡ w
  same_value v w h = cc

  pub Entries-lookup {κ} :
      (P : Text → V → Type κ) (k : Text) (v : V) (m : List (Text × V))
      → Entries P m
      → lookup k m ≡ some v
      → P k v
  unfolding lookup
  Entries-lookup P k v [] hs h = absurd (cc)
  Entries-lookup P k v ((j, w) ∷ m) hs h = elim (Bool-cases (text_eq j k)) [
    | inl e ↦ found (text_eq_sound j k e) (same_value w v (rw e at h))
    | inr e ↦ Entries-lookup P k v m hs.1 (rw e at h)
  ]
    where
      found : j ≡ k → w ≡ v → P k v
      found ej ew = rw (← ej, ← ew) hs.0
