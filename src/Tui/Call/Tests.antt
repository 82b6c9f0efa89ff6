-- ===== src/Tui/Call/Tests.antt =====
-- A call that a peer joins, and a microphone that is asked for.
use termcall.Prelude.{ℕ, ◌≡◌, refl, arith, true, false, [], ◌∷◌, some, ok, All, lookup, text_eq}
use termcall.Text.{codes}
use termcall.Protocol.Validate.Samples.{ascii}
use termcall.Ascii.Cell.{Grid, RenderMode}
use termcall.Tui.Model.{
  CallModel, new_call_model, set_local_audio_track, set_mute_audio, no_command, start_microphone,
  key, peer_join, microphone_started, has, present, key_of,
}
use termcall.Tui.Call.{update, handle_key, toggle_microphone}
use termcall.Tui.Call.Peers.{IsRoster, roster}
use termcall.Tui.Call.Update.{After, update-IsRoster}
use termcall.Tui.Call.Capture.{System, InFlight, Consents, Step, step, arrives, issued, landed}
use termcall.Tui.Call.Consent.{Step-InFlight, update-Consents}

abbrev sampler : RenderMode → ℕ → Grid
sampler mode image = []

abbrev fresh : CallModel ℕ ℕ
fresh = new_call_model ℕ ℕ

fresh-IsRoster : IsRoster (roster fresh)
unfolding new_call_model has present lookup
fresh-IsRoster = record {
  once = tt;
  named = λ j. refl;
  left = λ j h. refl;
  shown = λ j h. ground arith;
  moded = λ j. refl;
  decoded = λ j h. ground arith;
}

update-IsRoster_example :
    After
      (λ d. IsRoster (roster d))
      (update ascii sampler (peer_join (codes "b1") (codes "bob")) fresh)
update-IsRoster_example =
    update-IsRoster ascii sampler (peer_join (codes "b1") (codes "bob")) fresh fresh-IsRoster

abbrev quiet : System ℕ ℕ
quiet = record { call = fresh; starting_cameras = 0; starting_microphones = 0 }

quiet-InFlight : InFlight quiet
unfolding new_call_model present
quiet-InFlight = record {
  cameras = refl;
  microphones = refl;
  one_camera = refl;
  one_microphone = refl;
  streaming = refl;
}

abbrev asking : CallModel ℕ ℕ
asking = record fresh { mic_starting = true; call_error = [] }

abbrev waiting : System ℕ ℕ
waiting = record { call = asking; starting_cameras = 0; starting_microphones = 1 }

asked : update ascii sampler (key (codes "m")) fresh ≡ some (asking, [], start_microphone)
unfolding update handle_key key_of text_eq toggle_microphone new_call_model
asked = refl

asked_step : Step ascii sampler quiet waiting
unfolding arrives issued landed
asked_step = step (key (codes "m")) asking [] start_microphone refl asked

Step-InFlight_example : InFlight waiting
Step-InFlight_example = Step-InFlight ascii sampler quiet waiting asked_step quiet-InFlight

waiting-InFlight : InFlight waiting
unfolding new_call_model present
waiting-InFlight = record {
  cameras = refl;
  microphones = refl;
  one_camera = refl;
  one_microphone = refl;
  streaming = refl;
}

answered :
    update ascii sampler (microphone_started (ok 7)) asking
    ≡ some (
      record asking { mic_starting = false; mic_on = true },
      set_local_audio_track 7 ∷ set_mute_audio false ∷ [],
      no_command,
    )
unfolding update
answered = refl

update-Consents_example :
    All (Consents asking) (set_local_audio_track 7 ∷ set_mute_audio false ∷ [])
unfolding arrives
update-Consents_example =
    update-Consents ascii sampler (microphone_started (ok 7)) waiting
      (record asking { mic_starting = false; mic_on = true })
      (set_local_audio_track 7 ∷ set_mute_audio false ∷ []) no_command waiting-InFlight refl
      answered
