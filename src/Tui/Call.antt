-- ===== src/Tui/Call.antt =====
-- internal/tui/call.go: `CallModel` without its view.
--
-- `render_cells` is the sampling of `renderCells`. `none` is a run-time panic.
pub mod Peers
pub mod Update
pub mod Capture
pub mod Consent
mod Tests
use Prim.Native.String.{String}
use termcall.Prelude.{
  ℕ, ◌+◌, ◌-◌, ◌%◌, Bool, true, false, not, ◌&&◌, ◌||◌, List, [], ◌∷◌, ◌++◌, Option, none, some,
  ltb, leb, ◌==◌, if◌then◌else◌, ℤ, pos, negsuc, Result, ok, err, length, Text, text_eq, lookup,
  insert, delete,
}
use termcall.Text.{Bytes, codes}
use termcall.Protocol.Message.{rune_length}
use termcall.Protocol.Validate.{Runes}
use termcall.Ascii.Cell.{Grid, RenderMode, mode_half_block}
use termcall.Ascii.Frame.{FrameError}
use termcall.Ascii.Decoder.{DeltaDecoder, new_delta_decoder, decode_cells}
use termcall.Ascii.Renderer.{
  ColorRenderer, new_color_renderer, set_mode, reset_renderer, convert_cells, status_frame,
}
use termcall.Tui.Model.{
  CallModel, new_call_model, Effect, Command, Message, error_runes, next_mode, same_channel,
  present, has, flag, is_removed, drop_first, insert_all, camera_off, is_camera_off, Key, key_of,
  Outcome, quit_key, video_key, microphone_key, stats_key, mode_key, other_key,
  set_local_audio_track, set_mute_audio, broadcast_frame, close_camera, close_microphone,
  no_command, quit, start_camera, start_microphone, tick_stats, tick_volume, wait_for_camera_frame,
  key, window_size, peer_join, peer_leave, peer_frame, camera_started, local_frame,
  microphone_started, failed, stats_tick, volume_tick,
}

module _ {Stats Level : Type 0} where
  unfoldable pub add_peer : Text → Text → CallModel Stats Level → CallModel Stats Level
  add_peer id name c = record c {
    peers = if has id c.peer_names then c.peers else c.peers ++ id ∷ [];
    peer_names = insert id name c.peer_names;
    removed_peers = delete id c.removed_peers;
  }

  unfoldable pub remove_peer : Text → CallModel Stats Level → CallModel Stats Level
  remove_peer id c = record c {
    peers = drop_first id c.peers;
    peer_names = delete id c.peer_names;
    peer_cells = delete id c.peer_cells;
    peer_modes = delete id c.peer_modes;
    peer_stats = delete id c.peer_stats;
    peer_volumes = delete id c.peer_volumes;
    peer_decoders = delete id c.peer_decoders;
    removed_peers = insert id true c.removed_peers;
  }

  -- A peer that is not known yet gets a name.
  unfoldable pub meet : Text → CallModel Stats Level → CallModel Stats Level
  meet id c = if has id c.peer_names then c else record c {
    peer_names = insert id (codes "Peer " ++ id) c.peer_names;
    peers = c.peers ++ id ∷ [];
  }

  name_of : Text → CallModel Stats Level → Text
  name_of id c = elim (lookup id c.peer_names) [ none ↦ [] | some name ↦ name ]

  decoder_of : Text → CallModel Stats Level → DeltaDecoder
  decoder_of id c = elim (lookup id c.peer_decoders) [ none ↦ new_delta_decoder | some d ↦ d ]

  -- A decoder is there from the first frame on, and a frame that it refuses leaves it as it was.
  unfoldable pub show_frame :
      Text
      → CallModel Stats Level
      → DeltaDecoder
      → Result FrameError DeltaDecoder
      → CallModel Stats Level
  unfolding name_of
  show_frame id c d (err e) = record c {
    peer_decoders = insert id d c.peer_decoders;
    call_error = codes "Dropped an invalid video frame from " ++ name_of id c;
  }
  show_frame id c d (ok after) = record c {
    peer_decoders = insert id after c.peer_decoders;
    peer_cells = insert id after.grid c.peer_cells;
    peer_modes = insert id after.mode c.peer_modes;
  }

  unfoldable pub hide : Text → CallModel Stats Level → CallModel Stats Level
  hide id c = record c { peer_cells = delete id c.peer_cells; peer_modes = delete id c.peer_modes }

  known_frame : Text → Bytes → CallModel Stats Level → CallModel Stats Level
  unfolding decoder_of
  known_frame id frame c =
      if is_camera_off frame
      then hide id c
      else show_frame id c (decoder_of id c) (decode_cells (decoder_of id c) frame)

  unfoldable pub handle_peer_frame : Text → Bytes → CallModel Stats Level → CallModel Stats Level
  unfolding known_frame
  handle_peer_frame id frame c =
      if is_removed id c.removed_peers then c else known_frame id frame (meet id c)

  unfoldable pub set_error : Runes → Option Text → CallModel Stats Level → CallModel Stats Level
  set_error u none c = c
  set_error u (some text) c = record c { call_error = error_runes u 0 text }

module _ {Stats Level : Type 0} where
  -- `return model, nil`
  abbrev pub settled : CallModel Stats Level → Outcome Stats Level
  settled c = some (c, [], no_command)

  switched_off : CallModel Stats Level → Option Bytes → Outcome Stats Level
  switched_off c none = none
  switched_off c (some status) = some (
    record c {
      cam_on = false;
      camera_frames = none;
      local_cells = [];
      renderer = reset_renderer c.renderer;
    },
    close_camera ∷ broadcast_frame status ∷ [],
    no_command,
  )

  unfoldable pub toggle_camera : CallModel Stats Level → Outcome Stats Level
  unfolding switched_off
  toggle_camera c =
      if c.cam_starting
      then settled c
      else if c.cam_on
      then switched_off c camera_off
      else some (record c { cam_starting = true; call_error = [] }, [], start_camera)

  unfoldable pub toggle_microphone : CallModel Stats Level → Outcome Stats Level
  toggle_microphone c =
      if c.mic_starting
      then settled c
      else if c.mic_on
      then some
          (record c { mic_on = false }, set_mute_audio true ∷ close_microphone ∷ [], no_command)
      else some (record c { mic_starting = true; call_error = [] }, [], start_microphone)

  -- An image that is converted; an empty text is not sent.
  unfoldable pub converted :
      CallModel Stats Level → Option (Grid × Bytes × ColorRenderer) → Outcome Stats Level
  converted c none = none
  converted c (some (cells, [], r)) =
      some (record c { renderer = r }, [], wait_for_camera_frame c.camera_frames)
  converted c (some (cells, b ∷ text, r)) = some (
    record c { renderer = r; local_cells = cells },
    broadcast_frame (b ∷ text) ∷ [],
    wait_for_camera_frame c.camera_frames,
  )

  stream_closed : CallModel Stats Level → CallModel Stats Level
  stream_closed c = record c {
    camera_frames = none;
    cam_on = false;
    call_error = if c.cam_on then codes "Camera stream stopped" else c.call_error;
  }

  module _ {Image : Type 0} (u : Runes) (render_cells : RenderMode → Image → Grid) where
    local_image : Option Image → CallModel Stats Level → Outcome Stats Level
    unfolding converted
    local_image none c = some (c, [], wait_for_camera_frame c.camera_frames)
    local_image (some image) c =
        if c.cam_on
        then converted c (convert_cells c.renderer (render_cells c.renderer.mode image))
        else some (c, [], wait_for_camera_frame c.camera_frames)

    unfoldable pub handle_local_frame :
        Option ℕ → Bool → Option Image → CallModel Stats Level → Outcome Stats Level
    unfolding local_image stream_closed
    handle_local_frame source closed image c =
        if not (same_channel source c.camera_frames)
        then settled c
        else if closed
        then settled (stream_closed c)
        else local_image image c

    press : Key → CallModel Stats Level → Outcome Stats Level
    press quit_key c = some (c, close_camera ∷ close_microphone ∷ [], quit)
    press video_key c = toggle_camera c
    press microphone_key c = toggle_microphone c
    press stats_key c = settled (record c { show_stats = not c.show_stats })
    press mode_key c =
        settled (record c { renderer = set_mode c.renderer (next_mode c.renderer.mode) })
    press other_key c = settled c

    unfoldable pub handle_key : Text → CallModel Stats Level → Outcome Stats Level
    unfolding press
    handle_key k c = press (key_of k) c

    unfoldable pub update : Message Stats Level Image → CallModel Stats Level → Outcome Stats Level
    update (key k) c = handle_key k c
    update (window_size w h) c = settled (record c { width = w; height = h })
    update (peer_join id name) c = settled (add_peer id name c)
    update (peer_leave id) c = settled (remove_peer id c)
    update (peer_frame id frame) c = settled (handle_peer_frame id frame c)
    update (camera_started (err e)) c =
        settled (set_error u (some (codes "camera: " ++ e)) (record c { cam_starting = false }))
    update (camera_started (ok frames)) c = some (
      record c {
        cam_starting = false;
        camera_frames = some frames;
        cam_on = true;
        renderer = reset_renderer c.renderer;
        call_error = [];
      },
      [],
      wait_for_camera_frame (some frames),
    )
    update (local_frame source closed image) c = handle_local_frame source closed image c
    update (microphone_started (err e)) c =
        settled (set_error u (some (codes "microphone: " ++ e)) (record c { mic_starting = false }))
    update (microphone_started (ok track)) c = some (
      record c { mic_starting = false; mic_on = true; call_error = [] },
      set_local_audio_track track ∷ set_mute_audio false ∷ [],
      no_command,
    )
    update (failed e) c = settled (set_error u e c)
    update (stats_tick shown) c =
        some (record c { peer_stats = insert_all shown c.peer_stats }, [], tick_stats)
    update (volume_tick shown) c =
        some (record c { peer_volumes = insert_all shown c.peer_volumes }, [], tick_volume)
