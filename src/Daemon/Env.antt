-- ===== src/Daemon/Env.antt =====
-- src/daemon.rs: what one operation learns from outside the daemon: the file system, ffprobe, the
-- network and the receiver. Each answer is that of the one call which the operation makes.
use unicast.Base.{
  ℕ, Bool, true, false, Option, none, some, List, [], ◌∷◌, ◌++◌, Text, codes, eq_text,
  if◌then◌else◌, is_empty, trim, parse_uint, parse_digits, ◌==◌, ◌||◌,
}
use unicast.Net.{Ipv4}
use unicast.Firewall.Open.{Ufw}
use unicast.Cast.Plan.{ProbeStream}
use unicast.Subtitles.{SubtitleTrack}
use unicast.Daemon.State.{
  Device, Daemon, Effect, Message, SessionState, is_active, Session, Status, StreamInfo, Response,
  idle, paused, error,
}

pub record Env (F : Type 0) : Type 0 where
  pub home : Text
  pub cast_port : ℕ
  -- the path that a media player reports
  pub player_path : Option Text
  -- whether the path opens as a regular file
  pub opens : Text → Bool
  pub probe : Text → List ProbeStream
  -- the local address from which an address is reached
  pub route : Text → Option Ipv4
  -- the scan, given the manual addresses and whether multicast is used
  pub discovered : List Text → Bool → List Device
  pub cache_fresh : Bool
  pub probed : Option Device
  pub random_token : Text
  pub media_duration : Option F
  pub tracks : List SubtitleTrack
  pub ufw : Ufw
  -- the errors of the calls that may fail, where they do
  pub server_error : Option Text
  pub cast_error : Option Text
  pub cast_retry_error : Option Text
  pub play_error : Option Text
  pub airplay_error : Option Text
  pub keyframe_at_or_before : F → Option F
  pub volume_accepted : Bool
  pub mute_accepted : Bool
  -- whether the settings file can be written
  pub saves : Bool
  -- `util::valid_ip`, and whether ffmpeg and ffprobe are on the PATH
  pub parse_ip : Text → Option Text
  pub has_ffmpeg : Bool
  pub has_ffprobe : Bool

-- A step that may fail with an answer to the client.
pub data Checked (A : Type 0) : Type 0 where
  good : A → Checked A
  bad : Message → Checked A

infixl 5 ◌>>=◌ ◌>>◌
abbrev pub ◌>>=◌ : {A B : Type 0} → Checked A → (A → Checked B) → Checked B
good a >>= k = k a
bad m >>= k = bad m

abbrev pub ◌>>◌ : {B : Type 0} → Checked (Unit {0}) → Checked B → Checked B
m >> k = m >>= λ _. k

abbrev pub require : Bool → Message → Checked (Unit {0})
require true m = good tt
require false m = bad m

abbrev pub get_ok : {A : Type 0} → Option A → Message → Checked A
get_ok none m = bad m
get_ok (some a) m = good a

-- settings.rs: `get` and `set` on the stored object.
unfoldable pub get_setting : Text → Text → List (Text × Text) → Text
unfolding eq_text
get_setting key default [] = default
get_setting key default ((k, v) ∷ settings) =
    if eq_text k key then v else get_setting key default settings

unfoldable pub multicast_discovery : List (Text × Text) → Bool
unfolding get_setting
multicast_discovery settings =
    eq_text (get_setting (codes "multicastDiscovery") (codes "true") settings) (codes "true")

put_setting : Text → Text → List (Text × Text) → List (Text × Text)
unfolding eq_text
put_setting key value [] = (key, value) ∷ []
put_setting key value ((k, v) ∷ settings) =
    if eq_text k key then (key, value) ∷ settings else (k, v) ∷ put_setting key value settings

unfoldable pub set_setting : Bool → Text → Text → List (Text × Text) → List (Text × Text)
unfolding put_setting
set_setting saves key value settings = if saves then put_setting key value settings else settings

-- A level is a signed integer in the source; the three that are offered are not negative.
boost_level : Option ℕ → Option ℕ
boost_level none = none
boost_level (some n) = if n == 0 || n == 6 || n == 12 then some n else none

-- Of the numbers with a minus only `-0` is a level.
zero_level : Option ℕ → Option ℕ
zero_level none = none
zero_level (some n) = if n == 0 then some 0 else none

parse_level : Text → Option ℕ
unfolding boost_level zero_level
parse_level [] = none
parse_level (c ∷ s) =
    if c == b'-'
    then (if is_empty s then none else zero_level (parse_digits 2147483647 s))
    else boost_level (parse_uint 2147483647 (c ∷ s))

unfoldable pub parse_boost : Text → Option ℕ
unfolding parse_level
parse_boost value = parse_level (trim value)

unfoldable pub audio_boost : List (Text × Text) → ℕ
unfolding get_setting parse_boost
audio_boost settings = elim (parse_boost (get_setting (codes "audioBoost") (codes "0") settings)) [
  | none ↦ 0
  | some n ↦ n
]

is_paused : SessionState → Bool
is_paused paused = true
is_paused _ = false

is_error : SessionState → Bool
is_error error = true
is_error _ = false

module _ {F : Type 0} where
  unfoldable pub emit : List (Effect F) → Daemon F → Daemon F
  emit effects d = record d { effects = d.effects ++ effects }

  stream_info : Session F → StreamInfo F
  unfolding is_paused
  stream_info s = record {
    device = if is_empty s.name then s.ip else s.name;
    device_ip = s.ip;
    protocol = s.protocol;
    state = s.state;
    position = s.position;
    duration = s.duration;
    paused = is_paused s.state;
    volume = s.volume;
    muted = s.muted;
    volume_supported = s.volume_supported;
    boost = s.boost;
    subtitles = s.subtitles;
    subtitle = s.subtitle;
    subtitles_supported = s.subtitles_supported;
  }

  unfoldable pub status_of : Daemon F → Status F
  unfolding stream_info is_error audio_boost multicast_discovery
  status_of d = record {
    state = if is_active d.session.state then d.session.state else idle;
    streams = if is_active d.session.state then stream_info d.session ∷ [] else [];
    last_receiver = get_setting (codes "lastReceiver") [] d.settings;
    multicast_discovery = multicast_discovery d.settings;
    audio_boost = audio_boost d.settings;
    error = if is_error d.session.state then d.session.error else none;
  }

  -- An operation that ends with `self.status()`.
  abbrev pub with_status : Daemon F → Daemon F × Response F
  with_status d = (d, Response.status (status_of d))
