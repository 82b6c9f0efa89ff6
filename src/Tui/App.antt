-- ===== src/Tui/App.antt =====
-- internal/tui/app.go and the form of internal/tui/home.go: the screens around a call.
--
-- `library` is the form library: a form of the three fields, what it does with a message, and its
-- state. Starting a call runs elsewhere and comes back as a message. `none` is a run-time panic.
pub mod Cases
pub mod Home
pub mod InCall
pub mod Screens
mod Tests
use Prim.Native.String.{String}
use termcall.Prelude.{
  ℕ, zero, suc, ◌+◌, ◌%◌, Bool, true, false, ◌&&◌, ◌||◌, not, List, [], ◌∷◌, ◌++◌, Option, none,
  some, ltb, ◌==◌, if◌then◌else◌, Result, ok, err, Text, text_eq,
}
use termcall.Text.{codes}
use termcall.Protocol.Validate.{Runes}
use termcall.Ascii.Cell.{Grid, RenderMode}
use termcall.Tui.Model.{
  CallModel, Message, Command, key, window_size, peer_join, peer_leave, peer_frame, camera_started,
  local_frame, microphone_started, failed, stats_tick, volume_tick, present,
}
use termcall.Tui.Call.{update}

pub data Screen : Type 0 where
  screen_home screen_connecting screen_call : Screen

pub record JoinResult : Type 0 where
  pub room_id : Text
  pub username : Text
  pub server_url : Text

-- What arrives at the program: `other` is what only the form knows.
pub data AppMessage (Stats Level Image FormMessage : Type 0) : Type 0 where
  connect_tick : AppMessage Stats Level Image FormMessage
  call_ready : Result Text (CallModel Stats Level) → AppMessage Stats Level Image FormMessage
  in_call : Message Stats Level Image → AppMessage Stats Level Image FormMessage
  other : FormMessage → AppMessage Stats Level Image FormMessage

pub record FormLibrary (Input Form FormCommand : Type 0) : Type 0 where
  pub update_form : Input → Form → Form × FormCommand
  pub next_field : Form → Form × FormCommand
  pub prev_field : Form → Form × FormCommand
  pub focused_key : Form → Text
  pub is_normal : Form → Bool
  pub is_completed : Form → Bool
  pub get_string : Text → Form → Text

pub data AppCommand (FormCommand : Type 0) : Type 0 where
  idle quit_program next_tick init_call : AppCommand FormCommand
  form_command : FormCommand → AppCommand FormCommand
  call_command : Command → AppCommand FormCommand
  -- The start of a call, with the first tick of the spinner.
  start_call : JoinResult → AppCommand FormCommand

pub record HomeModel (Form : Type 0) : Type 0 where
  pub form : Form
  pub width : ℕ
  pub height : ℕ

pub record AppModel (Stats Level Form : Type 0) : Type 0 where
  pub current_screen : Screen
  pub home_model : Option (HomeModel Form)
  pub call_model : Option (CallModel Stats Level)
  pub connecting_label : Text
  pub connect_error : Text
  pub spinner_frame : ℕ
  pub width : ℕ
  pub height : ℕ

-- `NewAppModel` with the form.
unfoldable pub new_app_model : {Stats Level Form : Type 0} → Form → AppModel Stats Level Form
new_app_model form = record {
  current_screen = screen_home;
  home_model = some (record { form = form; width = 0; height = 0 });
  call_model = none;
  connecting_label = [];
  connect_error = [];
  spinner_frame = 0;
  width = 0;
  height = 0;
}

unfoldable pub field_index : Text → ℕ
field_index k =
    if text_eq k (codes "Room ID") then 1 else if text_eq k (codes "Server URL") then 2 else 0

unfoldable pub is_empty : Text → Bool
is_empty [] = true
is_empty (c ∷ s) = false

-- The keys that leave the connecting screen.
unfoldable pub leaves_connecting : Text → Text → Bool
leaves_connecting k error =
    text_eq k (codes "q")
    || text_eq k (codes "ctrl+c")
    || text_eq k (codes "esc")
    || (text_eq k (codes "enter") && not (is_empty error))

-- The cases on the current screen.
unfoldable pub at_screen {ℓ} : {X : Type ℓ} → Screen → X → X → X → X
at_screen screen_home home connecting call = home
at_screen screen_connecting home connecting call = connecting
at_screen screen_call home connecting call = call

-- A pointer that may be nil, or a result that may be a panic.
unfoldable pub maybe {ℓ κ} : {A : Type ℓ} {X : Type κ} → Option A → X → (A → X) → X
maybe none missing f = missing
maybe (some a) missing f = f a

module _ {Stats Level Image Form FormMessage FormCommand : Type 0} (u : Runes)
    (render_cells : RenderMode → Image → Grid)
    (library : FormLibrary (AppMessage Stats Level Image FormMessage) Form FormCommand) where
  abbrev pub App : Type 0
  App = AppModel Stats Level Form

  abbrev pub AppOutcome : Type 0
  AppOutcome = Option (App × AppCommand FormCommand)

  -- The callback of a form that is completed.
  unfoldable pub on_ready : JoinResult → App → App × AppCommand FormCommand
  on_ready result a = (
    record a {
      current_screen = screen_connecting;
      connecting_label = result.username ++ (codes " @ " ++ result.room_id);
      connect_error = [];
      spinner_frame = 0;
    },
    start_call result,
  )

  unfoldable pub join_result : Form → JoinResult
  join_result form = record {
    room_id = library.get_string (codes "Room ID") form;
    username = library.get_string (codes "Username") form;
    server_url = library.get_string (codes "Server URL") form;
  }

  -- The form takes the message; `a` has the home model already with its size.
  unfoldable pub update_form_of :
      AppMessage Stats Level Image FormMessage → HomeModel Form → App → App × AppCommand FormCommand
  update_form_of message h a =
      let updated = library.update_form message h.form in
      let kept = record a { home_model = some (record h { form = updated.0 }) } in
      if library.is_completed updated.0
      then on_ready (join_result updated.0) kept
      else (kept, form_command updated.1)

  unfoldable pub moved : HomeModel Form → Form × FormCommand → App → App × AppCommand FormCommand
  moved h r a = (record a { home_model = some (record h { form = r.0 }) }, form_command r.1)

  unfoldable pub home_key : Text → HomeModel Form → App → App × AppCommand FormCommand
  home_key k h a =
      if text_eq k (codes "up") && library.is_normal h.form
      then moved h (library.prev_field h.form) a
      else if text_eq k (codes "down")
          && (library.is_normal h.form && ltb (field_index (library.focused_key h.form)) 2)
      then moved h (library.next_field h.form) a
      else update_form_of (in_call (key k)) h a

  -- The home model is dropped when the form has just moved the program off its screen.
  unfoldable pub settle_home : App × AppCommand FormCommand → AppOutcome
  settle_home (a, command) =
      at_screen a.current_screen (some (a, command))
        (some (record a { home_model = none }, command))
        (some (record a { home_model = none }, command))

  unfoldable pub update_call : Message Stats Level Image → CallModel Stats Level → App → AppOutcome
  update_call m c a =
      maybe (update u render_cells m c) none
        (λ r. some (record a { call_model = some r.0 }, call_command r.2))

  unfoldable pub to_call : Message Stats Level Image → App → AppOutcome
  to_call m a =
      at_screen a.current_screen (some (a, idle)) (some (a, idle))
        (maybe a.call_model (some (a, idle)) (λ c. update_call m c a))

  unfoldable pub on_key : Text → App → AppOutcome
  on_key k a =
      at_screen a.current_screen
        (if text_eq k (codes "ctrl+c")
          then some (a, quit_program)
          else maybe a.home_model none (λ h. settle_home (home_key k h a)))
        (some (a, if leaves_connecting k a.connect_error then quit_program else idle))
        (maybe a.call_model (some (a, idle)) (λ c. update_call (key k) c a))

  unfoldable pub resize_call : ℕ → ℕ → App → AppOutcome
  resize_call w h a = maybe a.call_model (some (a, idle)) (λ c.
      maybe (update u render_cells (window_size w h) c) none
        (λ r. some (record a { call_model = some r.0 }, idle)))

  -- The commands of the models are dropped.
  unfoldable pub on_window_size : ℕ → ℕ → App → AppOutcome
  on_window_size w h a =
      let sized = record a { width = w; height = h } in
      maybe a.home_model (resize_call w h sized) (λ home.
        resize_call w h
          (update_form_of (in_call (window_size w h)) (record home { width = w; height = h })
            sized).0)

  unfoldable pub on_call_message : Message Stats Level Image → App → AppOutcome
  on_call_message (key k) a = on_key k a
  on_call_message (window_size w h) a = on_window_size w h a
  on_call_message (peer_join id name) a = to_call (peer_join id name) a
  on_call_message (peer_leave id) a = to_call (peer_leave id) a
  on_call_message (peer_frame id frame) a = to_call (peer_frame id frame) a
  on_call_message (camera_started r) a = to_call (camera_started r) a
  on_call_message (local_frame source closed image) a = to_call (local_frame source closed image) a
  on_call_message (microphone_started r) a = to_call (microphone_started r) a
  on_call_message (failed e) a = to_call (failed e) a
  on_call_message (stats_tick shown) a = to_call (stats_tick shown) a
  on_call_message (volume_tick shown) a = to_call (volume_tick shown) a

  unfoldable pub on_connect_tick : App → AppOutcome
  on_connect_tick a =
      at_screen a.current_screen (some (a, idle))
        (if is_empty a.connect_error
          then some (record a { spinner_frame = (a.spinner_frame + 1) % 10 }, next_tick)
          else some (a, idle))
        (some (a, idle))

  unfoldable pub on_ready_call : CallModel Stats Level → App → AppOutcome
  on_ready_call c a =
      let shown = record a { current_screen = screen_call; call_model = some c } in
      let sized = resize_call a.width a.height shown in
      if ltb 0 a.width && ltb 0 a.height
      then maybe sized none (λ r. some (r.0, init_call))
      else some (shown, init_call)

  unfoldable pub on_other : FormMessage → App → AppOutcome
  on_other m a =
      at_screen a.current_screen
        (maybe a.home_model none (λ h. settle_home (update_form_of (other m) h a))) (some (a, idle))
        (some (a, idle))

  unfoldable pub update_app : AppMessage Stats Level Image FormMessage → App → AppOutcome
  update_app connect_tick a = on_connect_tick a
  update_app (call_ready (err e)) a = some (record a { connect_error = e }, idle)
  update_app (call_ready (ok c)) a = on_ready_call c a
  update_app (in_call m) a = on_call_message m a
  update_app (other m) a = on_other m a
