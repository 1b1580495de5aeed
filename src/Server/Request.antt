-- ===== src/Server/Request.antt =====
-- src/media_server.rs: what `handle` is given. `World` is what the file system, the start of ffmpeg
-- and `subtitles::ensure_vtt` answer during one request. A token is given as its bytes.
use unicast.Base.{
  ℕ, Bool, false, ◌&&◌, ◌||◌, Option, none, some, List, [], ◌∷◌, Text, if◌then◌else◌, eq_text,
  split, split_once, ◌==◌,
}
use unicast.Net.{Ipv4}
use unicast.Server.File.{Disk}
use unicast.Server.Live
use unicast.Server.Ffmpeg.{TranscodePlan}
use unicast.Subtitles.{SubtitleTrack}

-- An address of version 6 is a number.
pub data IpAddr : Type 0 where
  v4 : Ipv4 → IpAddr
  v6 : ℕ → IpAddr

unfoldable pub same_ipv4 : Ipv4 → Ipv4 → Bool
same_ipv4 x y = x.a == y.a && x.b == y.b && x.c == y.c && x.d == y.d

unfoldable pub same_ip : IpAddr → IpAddr → Bool
unfolding same_ipv4
same_ip (v4 x) (v4 y) = same_ipv4 x y
same_ip (v6 x) (v6 y) = x == y
same_ip _ _ = false

unfoldable pub allows : List IpAddr → IpAddr → Bool
unfolding same_ip
allows [] peer = false
allows (ip ∷ allow) peer = same_ip ip peer || allows allow peer

pub data Method : Type 0 where
  get head options other : Method

pub record Request : Type 0 where
  pub peer : IpAddr
  pub token : List ℕ
  pub rest : Text
  pub method : Method
  -- the headers, their names in lower case
  pub headers : List (Text × Text)
  pub query : Option Text

pub record Config : Type 0 where
  pub token : List ℕ
  pub allow : List IpAddr
  pub transcode : Option TranscodePlan
  pub content_type : Text
  pub subtitles : List SubtitleTrack
  pub base_url : Text

-- A converted subtitle file: its size, and its text where that is UTF-8.
pub record Document : Type 0 where
  pub size : Option ℕ
  pub content : Option Text

pub record World : Type 0 where
  pub disk : Disk
  pub spawns : Bool
  pub ensure_vtt : SubtitleTrack → Option Document

-- The live streams, and the tracks that ffmpeg failed to convert.
pub record State : Type 0 where
  pub streams : Live.Server
  pub failed_subtitles : List ℕ

pub data SubtitleFormat : Type 0 where
  vtt srt : SubtitleFormat

abbrev pub max_vtt_bytes : ℕ
max_vtt_bytes = 16777216

find_name : Text → List Text → Option Text
find_name key [] = none
find_name key (pair ∷ pairs) = elim (split_once b'=' pair) [
  | none ↦ find_name key pairs
  | some (name, value) ↦ if eq_text name key then some value else find_name key pairs
]

unfoldable pub query_value : Option Text → Text → Option Text
unfolding find_name
query_value none key = none
query_value (some query) key = find_name key (split b'&' query)
