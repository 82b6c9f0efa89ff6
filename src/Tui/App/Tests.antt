-- ===== src/Tui/App/Tests.antt =====
-- The program's screens, with a form that is completed at its third step.
use termcall.Prelude.{ℕ, ◌+◌, refl, arith, not, none, [], ◌==◌}
use termcall.Text.{codes}
use termcall.Protocol.Validate.Samples.{ascii}
use termcall.Ascii.Cell.{Grid, RenderMode}
use termcall.Tui.App.{
  AppMessage, connect_tick, call_ready, in_call, other, FormLibrary, AppModel, new_app_model,
  update_app,
}
use termcall.Tui.App.Cases.{FormLaws}
use termcall.Tui.App.Home.{After, IsShown}
use termcall.Tui.App.Screens.{update_app-IsShown}

abbrev sampler : RenderMode → ℕ → Grid
sampler mode image = []

abbrev advanced : AppMessage ℕ ℕ ℕ ℕ → ℕ → ℕ
advanced connect_tick f = f
advanced (call_ready r) f = f
advanced (in_call m) f = f
advanced (other m) f = f + m

abbrev form_library : FormLibrary (AppMessage ℕ ℕ ℕ ℕ) ℕ ℕ
form_library = record {
  update_form = λ m f. (advanced m f, 0);
  next_field = λ f. (f, 0);
  prev_field = λ f. (f, 0);
  focused_key = λ f. codes "Username";
  is_normal = λ f. not (f == 3);
  is_completed = λ f. f == 3;
  get_string = λ k f. k;
}

form_laws : FormLaws form_library
form_laws = record { resized = λ w h f c. c; back = λ f c. c; on = λ f c e. c }

abbrev entered : AppModel ℕ ℕ ℕ
entered = new_app_model 2

entered-IsShown : IsShown ascii sampler form_library entered 0 0
unfolding new_app_model
entered-IsShown =
    (((record { form = 2; width = 0; height = 0 }, refl, refl), refl, refl, refl), omega arith)

update_app-IsShown_example :
    After ascii sampler form_library none 0 0
      (update_app ascii sampler form_library (other 1) entered)
unfolding new_app_model
update_app-IsShown_example =
    update_app-IsShown ascii sampler form_library form_laws (other 1) entered 0 0 entered-IsShown tt
