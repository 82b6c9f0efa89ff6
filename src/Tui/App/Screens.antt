-- ===== src/Tui/App/Screens.antt =====
-- The screens of the program, at every message.
use termcall.Prelude.{
  ℕ, ◌-◌, ◌<◌, ◌≡◌, refl, inl, inr, arith, ◌&&◌, Option, none, some, ltb, ok, err, sym,
}
use termcall.Protocol.Validate.{Runes}
use termcall.Ascii.Cell.{Grid, RenderMode}
use termcall.Tui.Model.{
  CallModel, Message, key, window_size, peer_join, peer_leave, peer_frame, camera_started,
  local_frame, microphone_started, failed, stats_tick, volume_tick,
}
use termcall.Tui.Call.{update}
use termcall.Tui.App.{
  screen_home, screen_connecting, screen_call, AppMessage, connect_tick, call_ready, in_call, other,
  FormLibrary, AppCommand, AppModel, is_empty, maybe, update_form_of, resize_call, on_window_size,
  on_call_message, on_connect_tick, on_ready_call, on_other, update_app,
}
use termcall.Tui.App.Cases.{
  missing_some, not_both, screen_cases, at_screen-all, maybe-all, branch-all, FormLaws,
}
use termcall.Tui.App.Home.{IsShown, moves, After, at_home, home-After}
use termcall.Tui.App.InCall.{resize_call-After, to_call-After, on_key-After}

module _ {Stats Level Image Form FormMessage FormCommand : Type 0} (u : Runes)
    (render_cells : RenderMode → Image → Grid)
    (library : FormLibrary (AppMessage Stats Level Image FormMessage) Form FormCommand) where
  on_window_size-After :
      FormLaws library
      → (w h : ℕ) (a : AppModel Stats Level Form) (calls flying : ℕ)
      → IsShown u render_cells library a calls flying
      → After u render_cells library a.call_model calls flying
          (on_window_size u render_cells library w h a)
  unfolding on_window_size update_form_of
  on_window_size-After laws w h a calls flying shown = elim (screen_cases a.current_screen) [
    | inl e ↦ at_home u render_cells library _ _ a calls flying e shown (λ home n c.
        branch-all
          (λ (r : AppModel Stats Level Form × AppCommand FormCommand).
            After u render_cells library none 0 0 (resize_call u render_cells library w h r.0))
          _ _ _ (λ done. absurd (not_both done (laws.resized w h home.form c)))
          (λ stays. resize_call-After u render_cells library none w h _ 0 0 (
            moves u render_cells library screen_home a.current_screen _ _ 0 0 (sym e) (
              (
                record home {
                  width = w;
                  height = h;
                  form = (library.update_form (in_call (window_size w h)) home.form).0;
                },
                refl,
                laws.resized w h home.form c,
              ),
              n,
              refl,
              refl,
            ),
            shown.1,
          )))
    | inr (inl e) ↦
        homeless
          (moves u render_cells library a.current_screen screen_connecting _ _ calls flying e
            shown.0).0
    | inr (inr e) ↦
        homeless
          (moves u render_cells library a.current_screen screen_call _ _ calls flying e shown.0).0
  ]
    where
      homeless :
          a.home_model ≡ none
          → After u render_cells library a.call_model calls flying
              (on_window_size u render_cells library w h a)
      homeless n =
          maybe-all (After u render_cells library a.call_model calls flying) a.home_model _ _
            (λ missing.
              resize_call-After u render_cells library a.call_model w h _ calls flying shown)
            (λ home there. absurd (missing_some n there))

  on_other-After :
      (m : FormMessage) (a : AppModel Stats Level Form) (calls flying : ℕ)
      → IsShown u render_cells library a calls flying
      → After u render_cells library a.call_model calls flying (on_other u render_cells library m a)
  unfolding on_other
  on_other-After m a calls flying shown =
      at_screen-all (After u render_cells library a.call_model calls flying) a.current_screen _ _ _
        (λ e.
          at_home u render_cells library _ _ a calls flying e shown
            (λ h n c. home-After u render_cells library (other m) h a e n shown.1))
        (λ e. shown) (λ e. shown)

  on_connect_tick-After :
      (a : AppModel Stats Level Form) (calls flying : ℕ)
      → IsShown u render_cells library a calls flying
      → After u render_cells library a.call_model calls flying
          (on_connect_tick u render_cells library a)
  unfolding on_connect_tick
  on_connect_tick-After a calls flying shown =
      at_screen-all (After u render_cells library a.call_model calls flying) a.current_screen _ _ _
        (λ e. shown)
        (λ e.
          branch-all (After u render_cells library a.call_model calls flying)
            (is_empty a.connect_error) _ _ (λ t. (shown.0, omega arith)) (λ t. shown))
        (λ e. shown)

  on_ready_call-After :
      (before : Option (CallModel Stats Level)) (c : CallModel Stats Level)
      (a : AppModel Stats Level Form)
      → a.home_model ≡ none
      → a.spinner_frame < 10
      → After u render_cells library before 1 0 (on_ready_call u render_cells library c a)
  unfolding on_ready_call resize_call update maybe
  on_ready_call-After before c a n s =
      let shown : (d : CallModel Stats Level)
          → IsShown u render_cells library
              (record a { current_screen = screen_call; call_model = some d }) 1 0 =
        λ d. ((n, (d, refl), refl, refl), s) in
      branch-all (After u render_cells library before 1 0) (ltb 0 a.width && ltb 0 a.height) _ _
        (λ t. shown (record c { width = a.width; height = a.height })) (λ t. shown c)

  on_call_message-After :
      FormLaws library
      → (m : Message Stats Level Image) (a : AppModel Stats Level Form) (calls flying : ℕ)
      → IsShown u render_cells library a calls flying
      → After u render_cells library a.call_model calls flying
          (on_call_message u render_cells library m a)
  unfolding on_call_message
  on_call_message-After laws (key k) a = on_key-After u render_cells library laws k a
  on_call_message-After laws (window_size w h) a = on_window_size-After laws w h a
  on_call_message-After laws (peer_join id name) a =
      to_call-After u render_cells library (peer_join id name) a
  on_call_message-After laws (peer_leave id) a =
      to_call-After u render_cells library (peer_leave id) a
  on_call_message-After laws (peer_frame id frame) a =
      to_call-After u render_cells library (peer_frame id frame) a
  on_call_message-After laws (camera_started r) a =
      to_call-After u render_cells library (camera_started r) a
  on_call_message-After laws (local_frame source closed image) a =
      to_call-After u render_cells library (local_frame source closed image) a
  on_call_message-After laws (microphone_started r) a =
      to_call-After u render_cells library (microphone_started r) a
  on_call_message-After laws (failed e) a = to_call-After u render_cells library (failed e) a
  on_call_message-After laws (stats_tick shown) a =
      to_call-After u render_cells library (stats_tick shown) a
  on_call_message-After laws (volume_tick shown) a =
      to_call-After u render_cells library (volume_tick shown) a

  -- The starts that have not come back, and those that can.
  abbrev pub landed : AppMessage Stats Level Image FormMessage → ℕ → ℕ
  landed connect_tick n = n
  landed (call_ready r) n = n - 1
  landed (in_call m) n = n
  landed (other m) n = n

  abbrev pub Arrives : AppMessage Stats Level Image FormMessage → ℕ → Type 0
  Arrives connect_tick n = Unit
  Arrives (call_ready r) n = 0 < n
  Arrives (in_call m) n = Unit
  Arrives (other m) n = Unit

  -- A start that comes back finds the connecting screen.
  connecting :
      (a : AppModel Stats Level Form) (calls flying : ℕ)
      → IsShown u render_cells library a calls flying
      → 0 < flying
      → (a.current_screen ≡ screen_connecting)
        × (calls ≡ 1)
        × (flying ≡ 1)
        × (a.home_model ≡ none)
        × (a.call_model ≡ none)
  connecting a calls flying shown some_flying = elim (screen_cases a.current_screen) [
    | inl e ↦
        let on =
          moves u render_cells library a.current_screen screen_home _ _ calls flying e shown.0 in
        let none_flying = on.3 in absurd (omega arith)
    | inr (inl e) ↦
        let on =
          moves u render_cells library a.current_screen screen_connecting _ _ calls flying e
            shown.0 in
        let few = on.3 in (e, on.2, omega arith, on.0, on.1)
    | inr (inr e) ↦
        let on =
          moves u render_cells library a.current_screen screen_call _ _ calls flying e shown.0 in
        let none_flying = on.3 in absurd (omega arith)
  ]

  -- Of a form library that completes no form by a new size, by moving back, or by moving on from a
  -- field before the last: whatever message arrives, the answer to a start only while one is out,
  -- each screen keeps its model and no other, a call is started once at most, no start is out but
  -- from the connecting screen, the spinner stays within its ten frames, and the program panics
  -- only where the call's own update does.
  pub update_app-IsShown :
      FormLaws library
      → (m : AppMessage Stats Level Image FormMessage) (a : AppModel Stats Level Form)
        (calls flying : ℕ)
      → IsShown u render_cells library a calls flying
      → Arrives m flying
      → After u render_cells library a.call_model calls
          (landed m flying)
          (update_app u render_cells library m a)
  unfolding update_app
  update_app-IsShown laws connect_tick a calls flying shown h =
      on_connect_tick-After a calls flying shown
  update_app-IsShown laws (call_ready (err e)) a calls flying shown h =
      let (on, once, one, gone, missing) = connecting a calls flying shown h in
      (
        moves u render_cells library screen_connecting a.current_screen _ _ calls (flying - 1)
            (sym on) (gone, missing, once, omega arith),
        shown.1,
      )
  update_app-IsShown laws (call_ready (ok c)) a calls flying shown h =
      let (on, once, one, gone, missing) = connecting a calls flying shown h in
      rw (once, one) (on_ready_call-After a.call_model c a gone shown.1)
  update_app-IsShown laws (in_call m) a calls flying shown h =
      on_call_message-After laws m a calls flying shown
  update_app-IsShown laws (other m) a calls flying shown h = on_other-After m a calls flying shown
