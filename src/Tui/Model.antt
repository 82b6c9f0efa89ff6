-- ===== src/Tui/Model.antt =====
-- internal/tui/call.go: the state of a call, its messages, and what it asks of others.
--
-- A channel of camera frames and an audio track are numbers. What the model asks of the mesh, the
-- camera and the microphone is a list of effects, in order; the command that it returns runs elsewhere
-- and comes back as a message. The statistics and the volumes of a tick are those that the mesh shows.
-- The local volume is never set but to 0 and is left out.
use termcall.Prelude.{
  ℕ, ◌+◌, ◌-◌, ◌%◌, Bool, true, false, not, ◌&&◌, ◌||◌, List, [], ◌∷◌, Option, none, some, leb,
  ◌==◌, if◌then◌else◌, pos, negsuc, Result, Text, text_eq, lookup, insert,
}
use termcall.Text.{Bytes, codes}
use termcall.Protocol.Message.{rune_length}
use termcall.Protocol.Validate.{Runes}
use termcall.Ascii.Cell.{Grid, RenderMode, mode_half_block}
use termcall.Ascii.Decoder.{DeltaDecoder}
use termcall.Ascii.Renderer.{ColorRenderer, new_color_renderer, status_frame}

module _ (Stats Level : Type 0) where
  pub record CallModel : Type 0 where
    pub camera_frames : Option ℕ
    pub cam_on : Bool
    pub mic_on : Bool
    pub cam_starting : Bool
    pub mic_starting : Bool
    pub call_error : Text
    pub width : ℕ
    pub height : ℕ
    pub peers : List Text
    pub peer_cells : List (Text × Grid)
    pub peer_modes : List (Text × RenderMode)
    pub peer_names : List (Text × Text)
    pub peer_stats : List (Text × Stats)
    pub peer_volumes : List (Text × Level)
    pub removed_peers : List (Text × Bool)
    pub peer_decoders : List (Text × DeltaDecoder)
    pub local_cells : Grid
    pub renderer : ColorRenderer
    pub show_stats : Bool

  unfoldable pub new_call_model : CallModel
  new_call_model = record {
    camera_frames = none;
    cam_on = false;
    mic_on = false;
    cam_starting = false;
    mic_starting = false;
    call_error = [];
    width = 0;
    height = 0;
    peers = [];
    peer_cells = [];
    peer_modes = [];
    peer_names = [];
    peer_stats = [];
    peer_volumes = [];
    removed_peers = [];
    peer_decoders = [];
    local_cells = [];
    renderer = new_color_renderer mode_half_block;
    show_stats = false;
  }

pub data Effect : Type 0 where
  set_local_audio_track : ℕ → Effect
  set_mute_audio : Bool → Effect
  broadcast_frame : Bytes → Effect
  close_camera close_microphone : Effect

pub data Command : Type 0 where
  no_command quit start_camera start_microphone tick_stats tick_volume : Command
  wait_for_camera_frame : Option ℕ → Command

pub data Message (Stats Level Image : Type 0) : Type 0 where
  key : Text → Message Stats Level Image
  window_size : ℕ → ℕ → Message Stats Level Image
  peer_join : Text → Text → Message Stats Level Image
  peer_leave : Text → Message Stats Level Image
  peer_frame : Text → Bytes → Message Stats Level Image
  camera_started : Result Text ℕ → Message Stats Level Image
  -- The channel, whether it is closed, and the image.
  local_frame : Option ℕ → Bool → Option Image → Message Stats Level Image
  microphone_started : Result Text ℕ → Message Stats Level Image
  failed : Option Text → Message Stats Level Image
  stats_tick : List (Text × Stats) → Message Stats Level Image
  volume_tick : List (Text × Level) → Message Stats Level Image

-- At most 160 bytes, and what the last rune goes beyond them.
unfoldable pub error_runes : Runes → ℕ → Text → Text
error_runes u n [] = []
error_runes u n (c ∷ s) =
    let written = error_runes u (n + rune_length c) s in
    let skipped = error_runes u n s in
    if u.is_print c && not (u.is_control c)
    then c ∷ (if leb 160 (n + rune_length c) then [] else written)
    else skipped

unfoldable pub next_mode : RenderMode → RenderMode
next_mode (pos n) = pos ((n + 1) % 3)
next_mode (negsuc n) = if n % 3 == 0 then pos 0 else negsuc (n % 3 - 1)

unfoldable pub same_channel : Option ℕ → Option ℕ → Bool
same_channel none none = true
same_channel none (some b) = false
same_channel (some a) none = false
same_channel (some a) (some b) = a == b

unfoldable pub present {ℓ} : {V : Type ℓ} → Option V → Bool
present none = false
present (some v) = true

unfoldable pub has {ℓ} : {V : Type ℓ} → Text → List (Text × V) → Bool
has id m = present (lookup id m)

unfoldable pub flag : Option Bool → Bool
flag none = false
flag (some b) = b

unfoldable pub is_removed : Text → List (Text × Bool) → Bool
is_removed id m = flag (lookup id m)

-- `append(peers[:index], peers[index+1:]...)` at the first of the name.
unfoldable pub drop_first : Text → List Text → List Text
drop_first id [] = []
drop_first id (other ∷ ids) =
    let rest = drop_first id ids in if text_eq other id then ids else other ∷ rest

unfoldable pub insert_all {ℓ} : {V : Type ℓ} → List (Text × V) → List (Text × V) → List (Text × V)
insert_all [] m = m
insert_all ((id, v) ∷ shown) m = insert_all shown (insert id v m)

unfoldable pub camera_off : Option Bytes
camera_off = status_frame (codes "Camera off")

unfoldable pub is_camera_off : Bytes → Bool
is_camera_off frame = elim camera_off [ none ↦ false | some status ↦ text_eq frame status ]

-- The cases on a key; what is none of them leaves the switch and returns at the end.
pub data Key : Type 0 where
  quit_key video_key microphone_key stats_key mode_key other_key : Key

unfoldable pub key_of : Text → Key
key_of k =
    if text_eq k (codes "ctrl+c") || text_eq k (codes "q")
    then quit_key
    else if text_eq k (codes "v")
    then video_key
    else if text_eq k (codes "m")
    then microphone_key
    else if text_eq k (codes "s")
    then stats_key
    else if text_eq k (codes "n")
    then mode_key
    else other_key

abbrev pub Outcome : Type 0 → Type 0 → Type 0
Outcome Stats Level = Option (CallModel Stats Level × List Effect × Command)
