-- ===== src/Tui/Call/Update.antt =====
-- The peers of a call, at every message.
use termcall.Prelude.{
  ◌≡◌, inl, inr, Bool, true, false, not, [], ◌∷◌, Option, none, some, if◌then◌else◌, ok, err, Text,
  Bool-cases,
}
use termcall.Text.{Bytes}
use termcall.Protocol.Validate.{Runes}
use termcall.Ascii.Cell.{Grid, RenderMode}
use termcall.Ascii.Decoder.{decode_cells}
use termcall.Ascii.Renderer.{ColorRenderer, convert_cells}
use termcall.Tui.Model.{
  CallModel, Message, Outcome, key, window_size, peer_join, peer_leave, peer_frame, camera_started,
  local_frame, microphone_started, failed, stats_tick, volume_tick, is_removed, is_camera_off,
  same_channel, camera_off, Key, key_of,
}
use termcall.Tui.Call.{
  settled, meet, known_frame, decoder_of, handle_peer_frame, set_error, switched_off, toggle_camera,
  toggle_microphone, converted, stream_closed, local_image, handle_local_frame, press, handle_key,
  update,
}
use termcall.Tui.Call.Peers.{
  IsRoster, roster, add_peer-IsRoster, remove_peer-IsRoster, meet-IsRoster, hide-IsRoster,
  show_frame-IsRoster,
}

-- What holds of the model that a message leaves, unless the program panics.
abbrev pub After :
    {Stats Level : Type 0} → (CallModel Stats Level → Type 0) → Outcome Stats Level → Type 0
After P none = Unit
After P (some r) = P r.0

module _ {Stats Level : Type 0} where
  pub branch-After :
      (P : CallModel Stats Level → Type 0) (t : Bool) (a b : Outcome Stats Level)
      → After P a
      → After P b
      → After P (if t then a else b)
  branch-After P true a b ha hb = ha
  branch-After P false a b ha hb = hb

  abbrev Ordered : CallModel Stats Level → Type 0
  Ordered c = IsRoster (roster c)

  known_frame-IsRoster :
      (id : Text) (frame : Bytes) (c : CallModel Stats Level)
      → is_removed id c.removed_peers ≡ false
      → Ordered c
      → Ordered (known_frame id frame (meet id c))
  unfolding known_frame
  known_frame-IsRoster id frame c here h =
      let (ordered, known) = meet-IsRoster id c here h in
      elim (Bool-cases (is_camera_off frame)) [
        | inl e ↦ rw e (hide-IsRoster id (meet id c) ordered)
        | inr e ↦ rw e (
            show_frame-IsRoster id (meet id c) (decoder_of id (meet id c))
              (decode_cells (decoder_of id (meet id c)) frame) known ordered)
      ]

  handle_peer_frame-IsRoster :
      (id : Text) (frame : Bytes) (c : CallModel Stats Level)
      → Ordered c
      → Ordered (handle_peer_frame id frame c)
  unfolding handle_peer_frame
  handle_peer_frame-IsRoster id frame c h = elim (Bool-cases (is_removed id c.removed_peers)) [
    | inl e ↦ rw e h
    | inr e ↦ rw e (known_frame-IsRoster id frame c e h)
  ]

  set_error-IsRoster :
      (u : Runes) (e : Option Text) (c : CallModel Stats Level)
      → Ordered c
      → Ordered (set_error u e c)
  unfolding set_error
  set_error-IsRoster u none c h = h
  set_error-IsRoster u (some t) c h = h

  switched_off-IsRoster :
      (c : CallModel Stats Level) (status : Option Bytes)
      → Ordered c
      → After Ordered (switched_off c status)
  unfolding switched_off
  switched_off-IsRoster c none h = tt
  switched_off-IsRoster c (some status) h = h

  toggle_camera-IsRoster : (c : CallModel Stats Level) → Ordered c → After Ordered (toggle_camera c)
  unfolding toggle_camera
  toggle_camera-IsRoster c h =
      branch-After Ordered c.cam_starting _ _ h
        (branch-After Ordered c.cam_on _ _ (switched_off-IsRoster c camera_off h) h)

  toggle_microphone-IsRoster :
      (c : CallModel Stats Level) → Ordered c → After Ordered (toggle_microphone c)
  unfolding toggle_microphone
  toggle_microphone-IsRoster c h =
      branch-After Ordered c.mic_starting _ _ h (branch-After Ordered c.mic_on _ _ h h)

  converted-IsRoster :
      (c : CallModel Stats Level) (r : Option (Grid × Bytes × ColorRenderer))
      → Ordered c
      → After Ordered (converted c r)
  unfolding converted
  converted-IsRoster c none h = tt
  converted-IsRoster c (some (cells, [], r)) h = h
  converted-IsRoster c (some (cells, b ∷ text, r)) h = h

  module _ {Image : Type 0} (u : Runes) (render_cells : RenderMode → Image → Grid) where
    local_image-IsRoster :
        (image : Option Image) (c : CallModel Stats Level)
        → Ordered c
        → After Ordered (local_image u render_cells image c)
    unfolding local_image
    local_image-IsRoster none c h = h
    local_image-IsRoster (some image) c h =
        branch-After Ordered c.cam_on _ _
          (converted-IsRoster c (convert_cells c.renderer (render_cells c.renderer.mode image)) h) h

    press-IsRoster :
        (k : Key) (c : CallModel Stats Level) → Ordered c → After Ordered (press u render_cells k c)
    unfolding press
    press-IsRoster Key.quit_key c h = h
    press-IsRoster Key.video_key c h = toggle_camera-IsRoster c h
    press-IsRoster Key.microphone_key c h = toggle_microphone-IsRoster c h
    press-IsRoster Key.stats_key c h = h
    press-IsRoster Key.mode_key c h = h
    press-IsRoster Key.other_key c h = h

    -- Whatever message arrives, unless the program panics: the list of peers stays without
    -- repetition and holds exactly the peers with a name, a peer that has left has no name until it
    -- joins again, whatever late frames of it arrive, and only peers with a name have a picture,
    -- its mode or a decoder.
    pub update-IsRoster :
        (m : Message Stats Level Image) (c : CallModel Stats Level)
        → IsRoster (roster c)
        → After (λ d. IsRoster (roster d)) (update u render_cells m c)
    unfolding update handle_key handle_local_frame stream_closed
    update-IsRoster (key k) c h = press-IsRoster (key_of k) c h
    update-IsRoster (window_size w r) c h = h
    update-IsRoster (peer_join id name) c h = add_peer-IsRoster id name c h
    update-IsRoster (peer_leave id) c h = remove_peer-IsRoster id c h
    update-IsRoster (peer_frame id frame) c h = handle_peer_frame-IsRoster id frame c h
    update-IsRoster (camera_started (err e)) c h =
        set_error-IsRoster u _ (record c { cam_starting = false }) h
    update-IsRoster (camera_started (ok frames)) c h = h
    update-IsRoster (local_frame source closed image) c h =
        branch-After Ordered (not (same_channel source c.camera_frames)) (settled c)
          (if closed then settled (stream_closed c) else local_image u render_cells image c) h
          (branch-After Ordered closed (settled (stream_closed c))
            (local_image u render_cells image c) h (local_image-IsRoster image c h))
    update-IsRoster (microphone_started (err e)) c h =
        set_error-IsRoster u _ (record c { mic_starting = false }) h
    update-IsRoster (microphone_started (ok track)) c h = h
    update-IsRoster (failed e) c h = set_error-IsRoster u e c h
    update-IsRoster (stats_tick shown) c h = h
    update-IsRoster (volume_tick shown) c h = h
