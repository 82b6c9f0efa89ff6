-- ===== src/Tui/App/Home.antt =====
-- The invariant of the screens, on the home screen.
use termcall.Prelude.{ℕ, ◌<◌, ◌≤◌, ◌≡◌, refl, arith, false, Option, none, some, Text, text_eq, sym}
use mathlib.Core.Path.{subst}
use termcall.Text.{codes}
use termcall.Protocol.Validate.{Runes}
use termcall.Ascii.Cell.{Grid, RenderMode}
use termcall.Tui.Model.{CallModel, Message, key}
use termcall.Tui.Call.{update}
use termcall.Tui.App.{
  Screen, screen_home, screen_connecting, screen_call, AppMessage, in_call, FormLibrary, AppCommand,
  HomeModel, AppModel, on_ready, at_screen, maybe, update_form_of, moved, home_key, settle_home,
}
use termcall.Tui.App.Cases.{and-right, at_screen_home, maybe_some, branch-all, counted, FormLaws}

module _ {Stats Level Image Form FormMessage FormCommand : Type 0} (u : Runes)
    (render_cells : RenderMode → Image → Grid)
    (library : FormLibrary (AppMessage Stats Level Image FormMessage) Form FormCommand) where
  -- The models on a screen, the starts so far, and those that have not come back.
  abbrev pub OnScreen :
      Screen → Option (HomeModel Form) → Option (CallModel Stats Level) → ℕ → ℕ → Type 0
  OnScreen screen_home home call calls flying =
      ((h : HomeModel Form) × (home ≡ some h) × (library.is_completed h.form ≡ false))
      × (call ≡ none)
      × (calls ≡ 0)
      × (flying ≡ 0)
  OnScreen screen_connecting home call calls flying =
      (home ≡ none) × (call ≡ none) × (calls ≡ 1) × (flying ≤ 1)
  OnScreen screen_call home call calls flying =
      (home ≡ none) × ((c : CallModel Stats Level) × (call ≡ some c)) × (calls ≡ 1) × (flying ≡ 0)

  abbrev pub IsShown : AppModel Stats Level Form → ℕ → ℕ → Type 0
  IsShown a calls flying =
      OnScreen a.current_screen a.home_model a.call_model calls flying × (a.spinner_frame < 10)

  pub moves :
      (s t : Screen) (home : Option (HomeModel Form)) (call : Option (CallModel Stats Level))
      (calls flying : ℕ)
      → s ≡ t
      → OnScreen s home call calls flying
      → OnScreen t home call calls flying
  moves s t home call calls flying e = subst (λ q. OnScreen q home call calls flying) e

  -- A panic is one of the call's own.
  abbrev pub After :
      Option (CallModel Stats Level)
      → ℕ
      → ℕ
      → Option (AppModel Stats Level Form × AppCommand FormCommand)
      → Type 0
  After call calls flying none =
      (m : Message Stats Level Image) × (c : CallModel Stats Level) × (call ≡ some c)
      × (update u render_cells m c ≡ none)
  After call calls flying (some r) = IsShown r.0 (counted r.1 calls) (counted r.1 flying)

  -- A home screen has its model, and a call's its call.
  pub at_home :
      (x : Option (AppModel Stats Level Form × AppCommand FormCommand))
      (f : HomeModel Form → Option (AppModel Stats Level Form × AppCommand FormCommand))
      (a : AppModel Stats Level Form) (calls flying : ℕ)
      → a.current_screen ≡ screen_home
      → IsShown a calls flying
      → ((h : HomeModel Form)
          → a.call_model ≡ none
          → library.is_completed h.form ≡ false
          → After none 0 0 (f h))
      → After a.call_model calls flying (maybe a.home_model x f)
  at_home x f a calls flying e shown k =
      let ((h, there, c), n, once, landed) =
        moves a.current_screen screen_home _ _ calls flying e shown.0 in
      maybe_some (After a.call_model calls flying) a.home_model h x f there (
        subst (λ (t : Option (CallModel Stats Level)). After t calls flying (f h)) (sym n)
          (subst (λ (t : ℕ). After none t flying (f h)) (sym once)
            (subst (λ (t : ℕ). After none 0 t (f h)) (sym landed) (k h n c))))

  pub home-After :
      (m : AppMessage Stats Level Image FormMessage) (h : HomeModel Form)
      (a : AppModel Stats Level Form)
      → a.current_screen ≡ screen_home
      → a.call_model ≡ none
      → a.spinner_frame < 10
      → After none 0 0
          (settle_home u render_cells library (update_form_of u render_cells library m h a))
  unfolding settle_home update_form_of on_ready at_screen
  home-After m h a e n s =
      branch-all (λ r. After none 0 0 (settle_home u render_cells library r)) _ _ _
        (λ c. ((refl, n, refl, omega arith), omega arith))
        (λ c. at_screen_home (After none 0 0) a.current_screen _ _ _ e (
          moves screen_home a.current_screen _ _ 0 0 (sym e)
              ((record h { form = (library.update_form m h.form).0 }, refl, c), n, refl, refl),
          s,
        ))

  moved-After :
      (h : HomeModel Form) (r : Form × FormCommand) (a : AppModel Stats Level Form)
      → a.current_screen ≡ screen_home
      → a.call_model ≡ none
      → a.spinner_frame < 10
      → library.is_completed r.0 ≡ false
      → After none 0 0 (settle_home u render_cells library (moved u render_cells library h r a))
  unfolding settle_home moved
  moved-After h r a e n s c = at_screen_home (After none 0 0) a.current_screen _ _ _ e (
    moves screen_home a.current_screen _ _ 0 0 (sym e)
        ((record h { form = r.0 }, refl, c), n, refl, refl),
    s,
  )

  pub home_key-After :
      FormLaws library
      → (k : Text) (h : HomeModel Form) (a : AppModel Stats Level Form)
      → a.current_screen ≡ screen_home
      → a.call_model ≡ none
      → a.spinner_frame < 10
      → library.is_completed h.form ≡ false
      → After none 0 0 (settle_home u render_cells library (home_key u render_cells library k h a))
  unfolding home_key
  home_key-After laws k h a e n s c =
      branch-all (λ r. After none 0 0 (settle_home u render_cells library r)) _ _ _
        (λ up. moved-After h (library.prev_field h.form) a e n s (laws.back h.form c))
        (λ rest.
          branch-all (λ r. After none 0 0 (settle_home u render_cells library r)) _ _ _
            (λ down. moved-After h (library.next_field h.form) a e n s (
              laws.on h.form c (
                and-right (library.is_normal h.form) _
                  (and-right (text_eq k (codes "down")) _ down))))
            (λ other_key. home-After (in_call (key k)) h a e n s))
