-- ===== src/Daemon/State.antt =====
-- src/state.rs, src/protocol.rs, src/daemon.rs: the daemon's state. Positions are of a type `F`, the
-- `f64` of the source. A protocol name is one of three or some other text; a volume that is not
-- known (-1) is `none`; an error text is a `Message`.
use unicast.Base.{ℕ, Bool, true, false, Option, none, List, [], Text}
use unicast.Net.{Ipv4}
use unicast.Firewall.Open.{Refusal}
use unicast.Server.Ffmpeg.{TranscodePlan}
use unicast.Subtitles.{SubtitleTrack}

pub data SessionState : Type 0 where
  idle connecting buffering playing paused stopped error : SessionState

unfoldable pub is_active : SessionState → Bool
is_active idle = false
is_active stopped = false
is_active _ = true

pub data Protocol : Type 0 where
  cast dlna airplay : Protocol
  unknown : Text → Protocol

pub record Device : Type 0 where
  pub name : Text
  pub host : Text
  pub ip : Text
  pub port : ℕ
  pub protocol : Protocol
  pub model : Text
  pub id : Text
  pub control_url : Option Text
  pub rendering_url : Option Text
  pub alternates : List Text

-- The error texts that the daemon answers with.
pub data Message : Type 0 where
  not_on_local_network no_player_file not_absolute file_not_found player_file_not_media : Message
  no_route : Text → Message
  route_not_lan : Text → Ipv4 → Message
  unknown_device : Message
  firewall : Refusal → Message
  server_failed : Text → Message
  unsupported_protocol : Text → Message
  no_control_endpoint : Text → Message
  rejected : Text → Message
  stream_rejected : Message → Message
  cast_failed : Text → Message
  airplay_failed : Text → Message
  no_active_stream no_dlna_session no_airplay_session no_cast_session : Message
  invalid_receiver_address : Message
  could_not_restart : Message → Message
  not_applied_now : Message → Message
  could_not_switch : Message → Message
  invalid_volume invalid_mute invalid_boost invalid_setting invalid_address : Message
  nothing_casting no_volume_control volume_refused mute_refused airplay_no_volume : Message
  unknown_track airplay_no_subtitles enter_local_address : Message
  lost_connection did_not_start could_not_play load_failed : Message
  receiver_reported : Text → Message
  unknown_command : Text → Message

pub record Session (F : Type 0) : Type 0 where
  pub session_id : ℕ
  pub state : SessionState
  pub ip : Text
  pub name : Text
  pub protocol : Protocol
  pub file : Text
  pub position : F
  pub duration : F
  pub error : Option Message
  pub volume : Option ℕ
  pub muted : Bool
  pub volume_supported : Bool
  pub boost : ℕ
  pub subtitles : List SubtitleTrack
  pub subtitle : Option ℕ
  pub subtitles_supported : Bool

-- `Session::default()`, given the number 0.0.
abbrev pub default_session : {F : Type 0} → F → Session F
default_session zero_seconds = record {
  session_id = 0;
  state = idle;
  ip = [];
  name = [];
  protocol = unknown [];
  file = [];
  position = zero_seconds;
  duration = zero_seconds;
  error = none;
  volume = none;
  muted = false;
  volume_supported = false;
  boost = 0;
  subtitles = [];
  subtitle = none;
  subtitles_supported = false;
}

-- How a file is served: directly, or through ffmpeg.
pub record ServePlan : Type 0 where
  pub transcode : Option TranscodePlan
  pub endpoint : Text
  pub content_type : Text
  pub exact_seek : Bool

-- The pinned file is named by the path that it was opened at.
pub record ServeContext (F : Type 0) : Type 0 where
  pub device : Device
  pub ip : Text
  pub path : Text
  pub bind : Ipv4
  pub port : ℕ
  pub token : Text
  pub title : Text
  pub duration : Option F
  pub subtitles : List SubtitleTrack
  pub url : Text
  pub content_type : Text
  pub transcode : Bool
  pub exact_seek : Bool

-- A running media server, by what it was started with.
pub record MediaServer : Type 0 where
  pub bind : Ipv4
  pub port : ℕ
  pub token : Text
  pub allow : List Text
  pub content_type : Text
  pub transcode : Option TranscodePlan
  pub subtitles : List SubtitleTrack

-- A poller is named by the session that it was started for.
pub record DlnaSession (F : Type 0) : Type 0 where
  pub control_url : Text
  pub rendering_url : Option Text
  pub poller : ℕ
  pub offset : F

pub record AirplaySession (F : Type 0) : Type 0 where
  pub ip : Text
  pub port : ℕ
  pub poller : ℕ
  pub offset : F

-- The thread of a cast is named by the session that it was started for.
pub record Active (F : Type 0) : Type 0 where
  pub media : Option MediaServer
  pub cast : Option ℕ
  pub dlna : Option (DlnaSession F)
  pub airplay : Option (AirplaySession F)
  pub serve : Option (ServeContext F)

abbrev pub nothing_active : {F : Type 0} → Active F
nothing_active = record { media = none; cast = none; dlna = none; airplay = none; serve = none }

pub data CastCommand (F : Type 0) : Type 0 where
  pause resume shutdown : CastCommand F
  seek : F → CastCommand F
  set_volume : ℕ → CastCommand F
  set_mute : Bool → CastCommand F
  reload : Text → Bool → Bool → F → CastCommand F
  set_subtitle : Option ℕ → CastCommand F

-- What the daemon does to the world outside its own state, in the order of the calls.
pub data Effect (F : Type 0) : Type 0 where
  -- the address, the media URL, the title, the session and the subtitle track
  cast_connect : Text → Text → Text → ℕ → Option ℕ → Effect F
  cast_command : CastCommand F → Effect F
  -- the control URL, the media URL, the title, the MIME type and the caption URL
  dlna_play : Text → Text → Text → Text → Option Text → Effect F
  dlna_stop dlna_pause dlna_resume : Text → Effect F
  dlna_seek : Text → F → Effect F
  dlna_set_volume : Text → ℕ → Effect F
  dlna_set_mute : Text → Bool → Effect F
  airplay_play : Text → ℕ → Text → F → Effect F
  airplay_stop airplay_pause airplay_resume : Text → ℕ → Effect F
  airplay_seek : Text → ℕ → F → Effect F
  start_poller abort_poller : ℕ → Effect F
  server_started server_stopped : Effect F
  ufw_command : List Text → Effect F
  session_ended : ℕ → Effect F

pub record Daemon (F : Type 0) : Type 0 where
  pub session : Session F
  pub active : Active F
  pub devices : List Device
  pub next_session_id : ℕ
  -- settings.json as an association list, the manual addresses and the firewall ledger
  pub settings : List (Text × Text)
  pub manual_ips : List Text
  pub ledger : List Text
  pub effects : List (Effect F)

pub record StreamInfo (F : Type 0) : Type 0 where
  pub device : Text
  pub device_ip : Text
  pub protocol : Protocol
  pub state : SessionState
  pub position : F
  pub duration : F
  pub paused : Bool
  pub volume : Option ℕ
  pub muted : Bool
  pub volume_supported : Bool
  pub boost : ℕ
  pub subtitles : List SubtitleTrack
  pub subtitle : Option ℕ
  pub subtitles_supported : Bool

pub record Status (F : Type 0) : Type 0 where
  pub state : SessionState
  pub streams : List (StreamInfo F)
  pub last_receiver : Text
  pub multicast_discovery : Bool
  pub audio_boost : ℕ
  pub error : Option Message

pub data Response (F : Type 0) : Type 0 where
  ok : Response F
  status : Status F → Response F
  devices : List Device → Response F
  -- whether ffmpeg and ffprobe are installed
  deps : Bool → Bool → Response F
  error_response : Message → Response F
