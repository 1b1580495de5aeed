-- ===== src/Server/Ffmpeg.antt =====
-- src/media_server.rs: what ffmpeg is asked for.
pub mod Filter
use unicast.Base.{
  ℕ, ◌+◌, ◌*◌, ◌%◌, not, ◌&&◌, Option, none, some, List, [], ◌∷◌, ◌++◌, Text, codes, print_nat,
  if◌then◌else◌, eq_text, ltb, ◌==◌, join, parse_uint, u64_max,
}
use unicast.Server.{Container, fragmented_mp4, mpeg_ts}
use unicast.Cast.Plan.{copy}

pub record TranscodePlan : Type 0 where
  pub vcodec : Text
  pub acodec : Text
  pub gain_db : ℕ
  pub channels : ℕ
  pub container : Container

abbrev pub downmix : Text
downmix =
    codes "pan=stereo|FL=0.5*FL+0.6*FC+0.35*BL+0.35*SL+0.25*LFE"
    ++ codes "|FR=0.5*FR+0.6*FC+0.35*BR+0.35*SR+0.25*LFE"

filter_chain : TranscodePlan → List Text
filter_chain plan =
    (if ltb 2 plan.channels then downmix ∷ [] else [])
    ++ (if ltb 0 plan.gain_db
        then (codes "volume=" ++ (print_nat plan.gain_db ++ codes "dB"))
          ∷ codes "alimiter=limit=0.95:level=disabled"
          ∷ []
        else [])

unfoldable pub audio_filter : TranscodePlan → Option Text
unfolding filter_chain
audio_filter plan =
    if plan.gain_db == 0 && not (ltb 2 plan.channels && not (eq_text plan.acodec copy))
    then none
    else some (join (codes ",") (filter_chain plan))

-- `OMARCHY_CAST_VBITRATE`, where it is set.
bitrate : Option Text → Text
bitrate none = codes "6000"
bitrate (some value) = value

bitrate_value : Text → ℕ
bitrate_value text = elim (parse_uint u64_max text) [ none ↦ 6000 | some n ↦ n ]

-- The start is given as ffmpeg reads it, to a millisecond.
seek_args : Option Text → List Text
seek_args none = []
seek_args (some start) = codes "-ss" ∷ start ∷ []

copy_prior : Option Text → List Text
copy_prior none = []
copy_prior (some start) = codes "-copypriorss" ∷ codes "0" ∷ []

video_args : Option Text → TranscodePlan → Option Text → List Text
unfolding bitrate bitrate_value copy_prior
video_args vbitrate plan start =
    if eq_text plan.vcodec copy
    then codes "-c:v" ∷ codes "copy" ∷ copy_prior start
    else codes "-vf"
      ∷ codes "scale='min(1920,iw)':-2"
      ∷ codes "-c:v"
      ∷ plan.vcodec
      ∷ codes "-preset"
      ∷ codes "veryfast"
      ∷ codes "-profile:v"
      ∷ codes "high"
      ∷ codes "-pix_fmt"
      ∷ codes "yuv420p"
      ∷ codes "-b:v"
      ∷ (bitrate vbitrate ++ codes "k")
      ∷ codes "-maxrate"
      ∷ (bitrate vbitrate ++ codes "k")
      ∷ codes "-bufsize"
      ∷ (print_nat (bitrate_value (bitrate vbitrate) * 2 % (u64_max + 1)) ++ codes "k")
      ∷ []

abbrev two_channels : Text → List Text
two_channels codec =
    codes "-c:a" ∷ codec ∷ codes "-b:a" ∷ codes "192k" ∷ codes "-ac" ∷ codes "2" ∷ []

audio_args : TranscodePlan → Option Text → List Text
audio_args plan (some filter) = codes "-af" ∷ filter ∷ two_channels (codes "aac")
audio_args plan none =
    if eq_text plan.acodec copy then codes "-c:a" ∷ codes "copy" ∷ [] else two_channels plan.acodec

container_args : Container → List Text
container_args fragmented_mp4 =
    codes "-movflags"
    ∷ codes "frag_keyframe+empty_moov+default_base_moof"
    ∷ codes "-f"
    ∷ codes "mp4"
    ∷ []
container_args mpeg_ts = codes "-f" ∷ codes "mpegts" ∷ []

-- src/util.rs: a local file is never read as anything else.
unfoldable pub ffmpeg_input : Text → List Text
ffmpeg_input path =
    codes "-protocol_whitelist" ∷ codes "file" ∷ codes "-i" ∷ (codes "file:" ++ path) ∷ []

unfoldable pub ffmpeg_args : Option Text → Text → TranscodePlan → Option Text → List Text
unfolding ffmpeg_input seek_args video_args audio_args container_args
ffmpeg_args vbitrate file plan start =
    codes "-nostdin" ∷ codes "-loglevel" ∷ codes "error" ∷ seek_args start
    ++ (ffmpeg_input file
        ++ (codes "-map"
              ∷ codes "0:v:0"
              ∷ codes "-map"
              ∷ codes "0:a:0?"
              ∷ video_args vbitrate plan start
            ++ (audio_args plan (audio_filter plan)
                ++ (container_args plan.container ++ codes "pipe:1" ∷ []))))
