-- ===== src/Tui/App/Cases.antt =====
-- The cases of the screens, and what is relied on of the form.
use termcall.Prelude.{
  ℕ, ◌+◌, ◌≡◌, ◌⊎◌, refl, inl, inr, Bool, true, false, ◌&&◌, Option, none, some, ltb, if◌then◌else◌,
  sym,
}
use mathlib.Core.Path.{subst}
use termcall.Tui.Model.{window_size}
use termcall.Tui.App.{
  Screen, screen_home, screen_connecting, screen_call, AppMessage, in_call, FormLibrary, AppCommand,
  idle, quit_program, next_tick, init_call, form_command, call_command, start_call, field_index,
  at_screen, maybe,
}

pub and-right : (a b : Bool) → (a && b) ≡ true → b ≡ true
and-right true b h = h
and-right false b h = absurd (cc)

pub missing_some {ℓ} : {A : Type ℓ} {o : Option A} {a : A} → o ≡ none → o ≡ some a → ⊥
missing_some n e = absurd (cc)

pub not_both : {t : Bool} → t ≡ true → t ≡ false → ⊥
not_both h k = absurd (cc)

pub screen_cases : (s : Screen) → (s ≡ screen_home) ⊎ ((s ≡ screen_connecting) ⊎ (s ≡ screen_call))
screen_cases screen_home = inl refl
screen_cases screen_connecting = inr (inl refl)
screen_cases screen_call = inr (inr refl)

pub at_screen-all {ℓ κ} :
    {X : Type ℓ} (P : X → Type κ) (s : Screen) (x y z : X)
    → (s ≡ screen_home → P x)
    → (s ≡ screen_connecting → P y)
    → (s ≡ screen_call → P z)
    → P (at_screen s x y z)
unfolding at_screen
at_screen-all P screen_home x y z h c k = h refl
at_screen-all P screen_connecting x y z h c k = c refl
at_screen-all P screen_call x y z h c k = k refl

pub at_screen_home {ℓ κ} :
    {X : Type ℓ} (P : X → Type κ) (s : Screen) (x y z : X)
    → s ≡ screen_home
    → P x
    → P (at_screen s x y z)
unfolding at_screen
at_screen_home P s x y z e p = subst (λ t. P (at_screen t x y z)) (sym e) p

pub maybe-all {ℓ κ} :
    {A X : Type ℓ} (P : X → Type κ) (o : Option A) (x : X) (f : A → X)
    → (o ≡ none → P x)
    → ((a : A) → o ≡ some a → P (f a))
    → P (maybe o x f)
unfolding maybe
maybe-all P none x f h k = h refl
maybe-all P (some a) x f h k = k a refl

pub maybe_some {ℓ κ} :
    {A X : Type ℓ} (P : X → Type κ) (o : Option A) (a : A) (x : X) (f : A → X)
    → o ≡ some a
    → P (f a)
    → P (maybe o x f)
unfolding maybe
maybe_some P o a x f e p = subst (λ q. P (maybe q x f)) (sym e) p

pub branch-all {ℓ κ} :
    {X : Type ℓ} (P : X → Type κ) (t : Bool) (x y : X)
    → (t ≡ true → P x)
    → (t ≡ false → P y)
    → P (if t then x else y)
branch-all P true x y h k = h refl
branch-all P false x y h k = k refl

-- The starts of a call, with those of a command.
abbrev pub counted : {FormCommand : Type 0} → AppCommand FormCommand → ℕ → ℕ
counted idle n = n
counted quit_program n = n
counted next_tick n = n
counted init_call n = n
counted (form_command c) n = n
counted (call_command c) n = n
counted (start_call r) n = n + 1

-- What the form library is relied on for: a form of the three fields is not completed by a new
-- size, by moving back, or by moving on from a field that is not the last one.
pub record FormLaws {Stats Level Image Form FormMessage FormCommand : Type 0}
    (library : FormLibrary (AppMessage Stats Level Image FormMessage) Form FormCommand)
    : Type 0 where
  pub resized :
      (w h : ℕ) (f : Form)
      → library.is_completed f ≡ false
      → library.is_completed (library.update_form (in_call (window_size w h)) f).0 ≡ false
  pub back :
      (f : Form)
      → library.is_completed f ≡ false
      → library.is_completed (library.prev_field f).0 ≡ false
  pub on :
      (f : Form)
      → library.is_completed f ≡ false
      → ltb (field_index (library.focused_key f)) 2 ≡ true
      → library.is_completed (library.next_field f).0 ≡ false
