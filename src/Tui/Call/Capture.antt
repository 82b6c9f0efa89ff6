-- ===== src/Tui/Call/Capture.antt =====
-- The camera and the microphone: what is started, and what is sent.
--
-- A command that starts one is in flight until its message arrives.
use termcall.Prelude.{
  ℕ, ◌+◌, ◌-◌, ◌≡◌, refl, sym, ap, ◌∙◌, Bool, true, false, ◌&&◌, List, [], ◌∷◌, Option, none, some,
  arith, ltb, if◌then◌else◌, Text, All,
}
use termcall.Text.{Bytes}
use termcall.Protocol.Validate.{Runes}
use termcall.Ascii.Cell.{Grid, RenderMode}
use termcall.Ascii.Renderer.{ColorRenderer}
use termcall.Tui.Model.{
  CallModel, present, Effect, set_local_audio_track, set_mute_audio, broadcast_frame, close_camera,
  close_microphone, Command, start_camera, start_microphone, Message, Outcome, camera_started,
  microphone_started, camera_off,
}
use termcall.Tui.Call.{
  settled, set_error, switched_off, toggle_camera, toggle_microphone, converted, update,
}

pub record System (Stats Level : Type 0) : Type 0 where
  pub call : CallModel Stats Level
  pub starting_cameras : ℕ
  pub starting_microphones : ℕ

abbrev pub starts : Bool → ℕ
starts true = 1
starts false = 0

module _ {Stats Level : Type 0} where
  unfoldable pub issued : Command → System Stats Level → System Stats Level
  issued start_camera s = record s { starting_cameras = s.starting_cameras + 1 }
  issued start_microphone s = record s { starting_microphones = s.starting_microphones + 1 }
  issued _ s = s

  -- At most one start of each is in flight, none while it is on, and the camera is on exactly while
  -- there is a channel of frames.
  pub record InFlight (s : System Stats Level) : Type 0 where
    pub cameras : s.starting_cameras ≡ starts s.call.cam_starting
    pub microphones : s.starting_microphones ≡ starts s.call.mic_starting
    pub one_camera : (s.call.cam_starting && s.call.cam_on) ≡ false
    pub one_microphone : (s.call.mic_starting && s.call.mic_on) ≡ false
    pub streaming : s.call.cam_on ≡ present s.call.camera_frames

  -- A picture is sent only while the camera is on, and sound is let out only once it was asked for.
  abbrev pub Consents : CallModel Stats Level → Effect → Type 0
  Consents c (set_local_audio_track t) = c.mic_starting ≡ true
  Consents c (set_mute_audio true) = Unit
  Consents c (set_mute_audio false) = c.mic_starting ≡ true
  Consents c (broadcast_frame t) = c.cam_on ≡ true
  Consents c close_camera = Unit
  Consents c close_microphone = Unit

  module _ {Image : Type 0} where
    -- A start's message arrives only while it is in flight.
    unfoldable pub arrives : Message Stats Level Image → System Stats Level → Bool
    arrives (camera_started r) s = ltb 0 s.starting_cameras
    arrives (microphone_started r) s = ltb 0 s.starting_microphones
    arrives _ s = true

    unfoldable pub landed : Message Stats Level Image → System Stats Level → System Stats Level
    landed (camera_started r) s = record s { starting_cameras = s.starting_cameras - 1 }
    landed (microphone_started r) s = record s { starting_microphones = s.starting_microphones - 1 }
    landed _ s = s

    module _ (u : Runes) (render_cells : RenderMode → Image → Grid) where
      pub data Step (s : System Stats Level) : System Stats Level → Type 0 where
        step :
            (m : Message Stats Level Image) (c : CallModel Stats Level) (effects : List Effect)
            (command : Command)
            → arrives m s ≡ true
            → update u render_cells m s.call ≡ some (c, effects, command)
            → Step s (issued command (record (landed m s) { call = c }))

  -- What holds of an outcome, unless the program panics.
  abbrev pub Holds :
      (CallModel Stats Level → List Effect → Command → Type 0) → Outcome Stats Level → Type 0
  Holds P none = Unit
  Holds P (some (c, effects, command)) = P c effects command

  pub branch-Holds :
      (P : CallModel Stats Level → List Effect → Command → Type 0) (t : Bool)
      (a b : Outcome Stats Level)
      → (t ≡ true → Holds P a)
      → (t ≡ false → Holds P b)
      → Holds P (if t then a else b)
  branch-Holds P true a b ha hb = ha refl
  branch-Holds P false a b ha hb = hb refl

  -- After the outcome of a message of which `s` is what it leaves in flight.
  abbrev pub Good : System Stats Level → CallModel Stats Level → List Effect → Command → Type 0
  Good s c effects command =
      InFlight (issued command (record s { call = c })) × All (Consents s.call) effects

  switched_off-Good :
      (s : System Stats Level) (status : Option Bytes)
      → s.call.cam_starting ≡ false
      → s.call.cam_on ≡ true
      → InFlight s
      → Holds (Good s) (switched_off s.call status)
  unfolding switched_off present issued
  switched_off-Good s none idle on h = tt
  switched_off-Good s (some status) idle on h = (
    record {
      cameras = h.cameras;
      microphones = h.microphones;
      one_camera = ground arith;
      one_microphone = h.one_microphone;
      streaming = refl;
    },
    (tt, (on, tt)),
  )

  pub toggle_camera-Good :
      (s : System Stats Level) → InFlight s → Holds (Good s) (toggle_camera s.call)
  unfolding toggle_camera issued
  toggle_camera-Good s h =
      branch-Holds (Good s) s.call.cam_starting (settled s.call) _ (λ e. (h, tt))
        (λ idle.
          branch-Holds (Good s) s.call.cam_on (switched_off s.call camera_off) _
            (λ on. switched_off-Good s camera_off idle on h)
            (λ off. (
              record {
                cameras = ground (arith, h.cameras);
                microphones = h.microphones;
                one_camera = ground arith;
                one_microphone = h.one_microphone;
                streaming = h.streaming;
              },
              tt,
            )))

  pub toggle_microphone-Good :
      (s : System Stats Level) → InFlight s → Holds (Good s) (toggle_microphone s.call)
  unfolding toggle_microphone issued
  toggle_microphone-Good s h =
      branch-Holds (Good s) s.call.mic_starting (settled s.call) _ (λ e. (h, tt))
        (λ idle.
          branch-Holds (Good s) s.call.mic_on _ _
            (λ on. (
              record {
                cameras = h.cameras;
                microphones = h.microphones;
                one_camera = h.one_camera;
                one_microphone = ground arith;
                streaming = h.streaming;
              },
              (tt, (tt, tt)),
            ))
            (λ off. (
              record {
                cameras = h.cameras;
                microphones = ground (arith, h.microphones);
                one_camera = h.one_camera;
                one_microphone = ground arith;
                streaming = h.streaming;
              },
              tt,
            )))

  pub converted-Good :
      (s : System Stats Level) (r : Option (Grid × Bytes × ColorRenderer))
      → s.call.cam_on ≡ true
      → InFlight s
      → Holds (Good s) (converted s.call r)
  unfolding converted issued
  converted-Good s none on h = tt
  converted-Good s (some (cells, [], r)) on h = (same_flags h, tt)
    where
      same_flags : InFlight s → InFlight (record s { call = record s.call { renderer = r } })
      same_flags h = record {
        cameras = h.cameras;
        microphones = h.microphones;
        one_camera = h.one_camera;
        one_microphone = h.one_microphone;
        streaming = h.streaming;
      }
  converted-Good s (some (cells, b ∷ text, r)) on h = (
    record {
      cameras = h.cameras;
      microphones = h.microphones;
      one_camera = h.one_camera;
      one_microphone = h.one_microphone;
      streaming = h.streaming;
    },
    (on, tt),
  )

  -- The flags, and the channel.
  abbrev pub flags : CallModel Stats Level → Bool × Bool × Bool × Bool × Option ℕ
  flags c = (c.cam_starting, c.mic_starting, c.cam_on, c.mic_on, c.camera_frames)

  pub flags-InFlight :
      (s : System Stats Level) (d : CallModel Stats Level)
      → flags d ≡ flags s.call
      → InFlight s
      → InFlight (record s { call = d })
  flags-InFlight s d e h =
      let starting : d.cam_starting ≡ s.call.cam_starting =
        ap (λ (f : Bool × Bool × Bool × Bool × Option ℕ). f.0) e in
      let asking : d.mic_starting ≡ s.call.mic_starting =
        ap (λ (f : Bool × Bool × Bool × Bool × Option ℕ). f.1) e in
      let on : d.cam_on ≡ s.call.cam_on =
        ap (λ (f : Bool × Bool × Bool × Bool × Option ℕ). f.2) e in
      let out : d.mic_on ≡ s.call.mic_on =
        ap (λ (f : Bool × Bool × Bool × Bool × Option ℕ). f.3) e in
      let stream : d.camera_frames ≡ s.call.camera_frames =
        ap (λ (f : Bool × Bool × Bool × Bool × Option ℕ). f.4) e in
      record {
        cameras = h.cameras ∙ ap starts (sym starting);
        microphones = h.microphones ∙ ap starts (sym asking);
        one_camera = ground (arith, h.one_camera);
        one_microphone = ground (arith, h.one_microphone);
        streaming = on ∙ h.streaming ∙ ap present (sym stream);
      }

  pub set_error-flags :
      (u : Runes) (e : Option Text) (c : CallModel Stats Level) → flags (set_error u e c) ≡ flags c
  unfolding set_error
  set_error-flags u none c = refl
  set_error-flags u (some t) c = refl
