-- ===== src/Tui/App/InCall.antt =====
-- The invariant of the screens, on the keys and in a call.
use termcall.Prelude.{ℕ, ◌<◌, ◌≡◌, refl, inl, inr, Option, none, some, Text, text_eq, sym}
use mathlib.Core.Path.{subst}
use termcall.Text.{codes}
use termcall.Protocol.Validate.{Runes}
use termcall.Ascii.Cell.{Grid, RenderMode}
use termcall.Tui.Model.{CallModel, Message, key}
use termcall.Tui.Call.{update}
use termcall.Tui.App.{
  screen_home, screen_connecting, screen_call, AppMessage, FormLibrary, AppCommand, idle, AppModel,
  leaves_connecting, maybe, home_key, settle_home, update_call, to_call, on_key, resize_call,
}
use termcall.Tui.App.Cases.{
  missing_some, screen_cases, at_screen-all, maybe-all, maybe_some, branch-all, FormLaws,
}
use termcall.Tui.App.Home.{IsShown, moves, After, at_home, home_key-After}

module _ {Stats Level Image Form FormMessage FormCommand : Type 0} (u : Runes)
    (render_cells : RenderMode → Image → Grid)
    (library : FormLibrary (AppMessage Stats Level Image FormMessage) Form FormCommand) where
  update_call-After :
      (m : Message Stats Level Image) (c : CallModel Stats Level) (a : AppModel Stats Level Form)
      → a.current_screen ≡ screen_call
      → a.home_model ≡ none
      → a.call_model ≡ some c
      → a.spinner_frame < 10
      → After u render_cells library a.call_model 1 0 (update_call u render_cells library m c a)
  unfolding update_call
  update_call-After m c a e n k s =
      maybe-all (After u render_cells library a.call_model 1 0) (update u render_cells m c) _ _
        (λ panics. (m, c, k, panics))
        (λ r done. (
          moves u render_cells library screen_call a.current_screen _ _ 1 0 (sym e)
              (n, (r.0, refl), refl, refl),
          s,
        ))

  pub in_call-After :
      (m : Message Stats Level Image) (a : AppModel Stats Level Form) (calls flying : ℕ)
      → a.current_screen ≡ screen_call
      → IsShown u render_cells library a calls flying
      → After u render_cells library a.call_model calls flying (
          maybe a.call_model
            (some (a, idle))
            (λ (c : CallModel Stats Level). update_call u render_cells library m c a))
  in_call-After m a calls flying e shown =
      let (gone, (c, there), once, landed) =
        moves u render_cells library a.current_screen screen_call _ _ calls flying e shown.0 in
      maybe_some (After u render_cells library a.call_model calls flying) a.call_model c _ _ there (
        subst
          (λ (t : ℕ).
            After u render_cells library a.call_model t flying
              (update_call u render_cells library m c a))
          (sym once)
          (subst
            (λ (t : ℕ).
              After u render_cells library a.call_model 1 t
                (update_call u render_cells library m c a))
            (sym landed) (update_call-After m c a e gone there shown.1)))

  pub resize_call-After :
      (before : Option (CallModel Stats Level)) (w h : ℕ) (a : AppModel Stats Level Form)
      (calls flying : ℕ)
      → IsShown u render_cells library a calls flying
      → After u render_cells library before calls flying (resize_call u render_cells library w h a)
  unfolding resize_call update maybe
  resize_call-After before w h a calls flying shown =
      maybe-all (After u render_cells library before calls flying) a.call_model _ _
        (λ missing. shown)
        (λ c e. elim (screen_cases a.current_screen) [
          | inl home ↦ absurd (
              missing_some
                (moves u render_cells library a.current_screen screen_home _ _ calls flying home
                  shown.0).1
                e)
          | inr (inl connecting) ↦ absurd (
              missing_some
                (moves u render_cells library a.current_screen screen_connecting _ _ calls flying
                  connecting shown.0).1
                e)
          | inr (inr call) ↦
              let (gone, there, once, landed) =
                moves u render_cells library a.current_screen screen_call _ _ calls flying call
                  shown.0 in
              (
                moves u render_cells library screen_call a.current_screen _ _ calls flying
                    (sym call) (gone, (record c { width = w; height = h }, refl), once, landed),
                shown.1,
              )
        ])

  pub to_call-After :
      (m : Message Stats Level Image) (a : AppModel Stats Level Form) (calls flying : ℕ)
      → IsShown u render_cells library a calls flying
      → After u render_cells library a.call_model calls flying (to_call u render_cells library m a)
  unfolding to_call
  to_call-After m a calls flying shown =
      at_screen-all (After u render_cells library a.call_model calls flying) a.current_screen _ _ _
        (λ e. shown) (λ e. shown) (λ e. in_call-After m a calls flying e shown)

  pub on_key-After :
      FormLaws library
      → (k : Text) (a : AppModel Stats Level Form) (calls flying : ℕ)
      → IsShown u render_cells library a calls flying
      → After u render_cells library a.call_model calls flying (on_key u render_cells library k a)
  unfolding on_key
  on_key-After laws k a calls flying shown =
      at_screen-all (After u render_cells library a.call_model calls flying) a.current_screen _ _ _
        (λ e.
          branch-all (After u render_cells library a.call_model calls flying)
            (text_eq k (codes "ctrl+c")) _ _ (λ quits. shown)
            (λ stays.
              at_home u render_cells library none
                (λ h. settle_home u render_cells library (home_key u render_cells library k h a)) a
                calls flying e shown
                (λ h n c. home_key-After u render_cells library laws k h a e n shown.1 c)))
        (λ e.
          branch-all
            (λ (command : AppCommand FormCommand).
              After u render_cells library a.call_model calls flying (some (a, command)))
            (leaves_connecting k a.connect_error) _ _ (λ q. shown) (λ q. shown))
        (λ e. in_call-After (key k) a calls flying e shown)
