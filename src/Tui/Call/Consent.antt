-- ===== src/Tui/Call/Consent.antt =====
-- internal/tui/call.go: what is sent and started, against the flags of the call.
use mathlib.Core.Path.{subst}
use termcall.Prelude.{
  ℕ, ◌-◌, ◌≡◌, refl, ◌∙◌, Bool, true, false, not, List, Option, none, some, arith, ltb,
  if◌then◌else◌, Result, ok, err, Text, All,
}
use termcall.Text.{Bytes}
use termcall.Protocol.Validate.{Runes}
use termcall.Ascii.Cell.{Grid, RenderMode}
use termcall.Ascii.Renderer.{convert_cells}
use termcall.Tui.Model.{
  CallModel, has, present, Effect, Command, Message, key, window_size, peer_join, peer_leave,
  peer_frame, camera_started, local_frame, microphone_started, failed, stats_tick, volume_tick,
  is_removed, is_camera_off, same_channel, Key, key_of,
}
use termcall.Tui.Call.{
  settled, add_peer, remove_peer, meet, hide, show_frame, known_frame, decoder_of,
  handle_peer_frame, set_error, converted, stream_closed, local_image, handle_local_frame, press,
  handle_key, update,
}
use termcall.Ascii.Frame.{FrameError}
use termcall.Ascii.Decoder.{DeltaDecoder, decode_cells}
use termcall.Tui.Call.Capture.{
  System, starts, issued, InFlight, Consents, arrives, landed, Step, step, Holds, branch-Holds,
  Good, toggle_camera-Good, toggle_microphone-Good, converted-Good, flags, flags-InFlight,
  set_error-flags,
}

module _ {Stats Level : Type 0} where
  flags-branch :
      (t : Bool) (c a b : CallModel Stats Level)
      → flags a ≡ flags c
      → flags b ≡ flags c
      → flags (if t then a else b) ≡ flags c
  flags-branch true c a b ha hb = ha
  flags-branch false c a b ha hb = hb

  meet-flags : (id : Text) (c : CallModel Stats Level) → flags (meet id c) ≡ flags c
  unfolding meet
  meet-flags id c = flags-branch (has id c.peer_names) c c _ refl refl

  show_frame-flags :
      (id : Text) (c : CallModel Stats Level) (d : DeltaDecoder)
      (r : Result FrameError DeltaDecoder)
      → flags (show_frame id c d r) ≡ flags c
  unfolding show_frame
  show_frame-flags id c d (err e) = refl
  show_frame-flags id c d (ok after) = refl

  known_frame-flags :
      (id : Text) (frame : Bytes) (c : CallModel Stats Level)
      → flags (known_frame id frame c) ≡ flags c
  unfolding known_frame hide
  known_frame-flags id frame c =
      flags-branch (is_camera_off frame) c (hide id c) _ refl
        (show_frame-flags id c (decoder_of id c) (decode_cells (decoder_of id c) frame))

  peer_frame-flags :
      (id : Text) (frame : Bytes) (c : CallModel Stats Level)
      → flags (handle_peer_frame id frame c) ≡ flags c
  unfolding handle_peer_frame
  peer_frame-flags id frame c =
      flags-branch (is_removed id c.removed_peers) c c _ refl
        (known_frame-flags id frame (meet id c) ∙ meet-flags id c)

  module _ {Image : Type 0} (u : Runes) (render_cells : RenderMode → Image → Grid) where
    press-Good :
        (k : Key) (s : System Stats Level)
        → InFlight s
        → Holds (Good s) (press u render_cells k s.call)
    unfolding press issued
    press-Good Key.quit_key s h = (h, (tt, (tt, tt)))
    press-Good Key.video_key s h = toggle_camera-Good s h
    press-Good Key.microphone_key s h = toggle_microphone-Good s h
    press-Good Key.stats_key s h = (flags-InFlight s _ (refl) h, tt)
    press-Good Key.mode_key s h = (flags-InFlight s _ (refl) h, tt)
    press-Good Key.other_key s h = (h, tt)

    local_image-Good :
        (image : Option Image) (s : System Stats Level)
        → InFlight s
        → Holds (Good s) (local_image u render_cells image s.call)
    unfolding local_image issued
    local_image-Good none s h = (h, tt)
    local_image-Good (some image) s h =
        branch-Holds (Good s) s.call.cam_on
          (converted s.call
            (convert_cells s.call.renderer (render_cells s.call.renderer.mode image)))
          _ (λ on. converted-Good s _ on h) (λ off. (h, tt))

    local_frame-Good :
        (source : Option ℕ) (closed : Bool) (image : Option Image) (s : System Stats Level)
        → InFlight s
        → Holds (Good s) (handle_local_frame u render_cells source closed image s.call)
    unfolding handle_local_frame stream_closed issued present
    local_frame-Good source closed image s h =
        branch-Holds (Good s) (not (same_channel source s.call.camera_frames)) (settled s.call)
          (if closed
            then settled (stream_closed s.call)
            else local_image u render_cells image s.call)
          (λ other. (h, tt))
          (λ same.
            branch-Holds (Good s) closed (settled (stream_closed s.call))
              (local_image u render_cells image s.call)
              (λ e. (
                record {
                  cameras = h.cameras;
                  microphones = h.microphones;
                  one_camera = ground arith;
                  one_microphone = h.one_microphone;
                  streaming = refl;
                },
                tt,
              ))
              (λ e. local_image-Good image s h))

    camera_landed :
        (s : System Stats Level)
        → ltb 0 s.starting_cameras ≡ true
        → InFlight s
        → s.starting_cameras - 1 ≡ 0
    camera_landed s a h = counted s.call.cam_starting h.cameras
      where
        counted : (t : Bool) → s.starting_cameras ≡ starts t → s.starting_cameras - 1 ≡ 0
        counted true e = omega arith
        counted false e = omega arith

    microphone_landed :
        (s : System Stats Level)
        → ltb 0 s.starting_microphones ≡ true
        → InFlight s
        → s.starting_microphones - 1 ≡ 0
    microphone_landed s a h = counted s.call.mic_starting h.microphones
      where
        counted : (t : Bool) → s.starting_microphones ≡ starts t → s.starting_microphones - 1 ≡ 0
        counted true e = omega arith
        counted false e = omega arith

    asked :
        (s : System Stats Level)
        → ltb 0 s.starting_microphones ≡ true
        → InFlight s
        → s.call.mic_starting ≡ true
    asked s a h = ground (arith, h.microphones)

    -- What a message leaves in flight.
    abbrev Landing :
        Message Stats Level Image
        → System Stats Level
        → CallModel Stats Level
        → List Effect
        → Command
        → Type 0
    Landing m s c effects command =
        InFlight (issued command (record (landed m s) { call = c })) × All (Consents s.call) effects

    update-Landing :
        (m : Message Stats Level Image) (s : System Stats Level)
        → arrives m s ≡ true
        → InFlight s
        → Holds (Landing m s) (update u render_cells m s.call)
    unfolding update landed issued arrives handle_key add_peer remove_peer present set_error
    update-Landing (key k) s a h = press-Good (key_of k) s h
    update-Landing (window_size w r) s a h = (flags-InFlight s _ (refl) h, tt)
    update-Landing (peer_join id name) s a h = (flags-InFlight s _ (refl) h, tt)
    update-Landing (peer_leave id) s a h = (flags-InFlight s _ (refl) h, tt)
    update-Landing (peer_frame id frame) s a h =
        (flags-InFlight s _ (peer_frame-flags id frame s.call) h, tt)
    update-Landing (camera_started (err e)) s a h = (
      record {
        cameras = camera_landed s a h;
        microphones = h.microphones;
        one_camera = refl;
        one_microphone = h.one_microphone;
        streaming = h.streaming;
      },
      tt,
    )
    update-Landing (camera_started (ok frames)) s a h = (
      record {
        cameras = camera_landed s a h;
        microphones = h.microphones;
        one_camera = refl;
        one_microphone = h.one_microphone;
        streaming = refl;
      },
      tt,
    )
    update-Landing (local_frame source closed image) s a h =
        local_frame-Good source closed image s h
    update-Landing (microphone_started (err e)) s a h = (
      record {
        cameras = h.cameras;
        microphones = microphone_landed s a h;
        one_camera = h.one_camera;
        one_microphone = refl;
        streaming = h.streaming;
      },
      tt,
    )
    update-Landing (microphone_started (ok track)) s a h = (
      record {
        cameras = h.cameras;
        microphones = microphone_landed s a h;
        one_camera = h.one_camera;
        one_microphone = refl;
        streaming = h.streaming;
      },
      (asked s a h, (asked s a h, tt)),
    )
    update-Landing (failed e) s a h = (flags-InFlight s _ (set_error-flags u e s.call) h, tt)
    update-Landing (stats_tick shown) s a h = (flags-InFlight s _ (refl) h, tt)
    update-Landing (volume_tick shown) s a h = (flags-InFlight s _ (refl) h, tt)

    at_outcome :
        (m : Message Stats Level Image) (s : System Stats Level) {c : CallModel Stats Level}
        {effects : List Effect} {command : Command}
        → arrives m s ≡ true
        → InFlight s
        → update u render_cells m s.call ≡ some (c, effects, command)
        → Landing m s c effects command
    at_outcome m s a h e = subst (Holds (Landing m s)) e (update-Landing m s a h)

    -- A step of the call keeps its flags in agreement with what runs: at most one start of the
    -- camera and one of the microphone is in flight, exactly while the flag says so and never while
    -- it is on, and the camera is on exactly while there is a channel of frames.
    pub Step-InFlight :
        (s t : System Stats Level) → Step u render_cells s t → InFlight s → InFlight t
    Step-InFlight s t (step m c effects cmd a e) h = (at_outcome m s a h e).0

    -- Whatever message arrives at a call whose starts in flight agree with its flags, a start's
    -- only while it is in flight: a frame is broadcast only if the camera was on, and an audio
    -- track is set or unmuted only if the microphone had been asked for.
    pub update-Consents :
        (m : Message Stats Level Image) (s : System Stats Level) (c : CallModel Stats Level)
        (effects : List Effect) (command : Command)
        → InFlight s
        → arrives m s ≡ true
        → update u render_cells m s.call ≡ some (c, effects, command)
        → All (Consents s.call) effects
    update-Consents m s c effects cmd h a e = (at_outcome m s a h e).1
