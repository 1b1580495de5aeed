-- ===== src/Cast/Plan.antt =====
-- src/cast.rs: which codecs are passed through and which are re-encoded. The streams are what
-- ffprobe reports of the file; the log text `reason` is left out.
pub mod Sound
use unicast.Base.{
  ℕ, Bool, true, false, not, ◌&&◌, ◌||◌, Option, none, some, List, [], ◌∷◌, ◌++◌, Text, codes, ltb,
  leb, if◌then◌else◌, eq_text, is_empty, contains_text, mem_text,
}

pub record ProbeStream : Type 0 where
  pub codec_type : Text
  pub codec_name : Text
  -- 0 where ffprobe gives none; a negative level is below every bound, as 0 is
  pub level : ℕ
  pub channels : ℕ

pub record CodecPlan : Type 0 where
  pub vcodec : Text
  pub acodec : Text
  pub channels : ℕ

abbrev pub copy : Text
copy = codes "copy"

-- `text.to_lowercase()` is a parameter: it is given the model and the name, joined.
any_hint : Text → List Text → Bool
any_hint text [] = false
any_hint text (hint ∷ hints) = contains_text hint text || any_hint text hints

abbrev dongle_hints : List Text
dongle_hints = codes "ultra" ∷ codes "google tv" ∷ codes "hd" ∷ codes "4k" ∷ codes "android" ∷ []

unfoldable pub hevc_capable : (Text → Text) → Text → Text → Bool
unfolding any_hint
hevc_capable to_lowercase model name =
    let text = to_lowercase (model ++ 32 ∷ name) in
    if contains_text (codes "chromecast") text && not (any_hint text dongle_hints)
    then false
    else true

unfoldable pub find_stream : Text → List ProbeStream → Option ProbeStream
find_stream kind [] = none
find_stream kind (s ∷ streams) =
    if eq_text s.codec_type kind then some s else find_stream kind streams

abbrev video : Text
video = codes "video"

abbrev pub audio : Text
audio = codes "audio"

unfoldable pub has_media_stream : List ProbeStream → Bool
has_media_stream [] = false
has_media_stream (s ∷ streams) =
    eq_text s.codec_type video || eq_text s.codec_type audio || has_media_stream streams

abbrev x264 : Text
x264 = codes "libx264"

video_codec : Bool → Option ProbeStream → Text
video_codec hevc_ok none = x264
video_codec hevc_ok (some v) =
    if eq_text v.codec_name (codes "h264") && ltb 41 v.level && not hevc_ok
    then x264
    else (if eq_text v.codec_name (codes "h264")
        then copy
        else (if eq_text v.codec_name (codes "vp8") || eq_text v.codec_name (codes "vp9")
            then copy
            else (if eq_text v.codec_name (codes "hevc") && hevc_ok then copy else x264)))

unfoldable pub cast_audio_codec : Text → ℕ → Text
cast_audio_codec name channels =
    if is_empty name || (mem_text name (codes "aac" ∷ codes "mp3" ∷ []) && leb channels 2)
    then copy
    else codes "aac"

audio_name : Option ProbeStream → Text
audio_name none = []
audio_name (some a) = a.codec_name

audio_channels : Option ProbeStream → ℕ
audio_channels none = 0
audio_channels (some a) = a.channels

unfoldable pub plan_transcode : (Text → Text) → List ProbeStream → Text → Text → CodecPlan
unfolding video_codec audio_name audio_channels find_stream hevc_capable cast_audio_codec
plan_transcode to_lowercase streams model name =
    let a = find_stream audio streams in
    record {
      vcodec = video_codec (hevc_capable to_lowercase model name) (find_stream video streams);
      acodec = cast_audio_codec (audio_name a) (audio_channels a);
      channels = audio_channels a;
    }

unfoldable pub passthrough_plan : List ProbeStream → CodecPlan
unfolding audio_channels find_stream
passthrough_plan streams = record {
  vcodec = copy;
  acodec = copy;
  channels = audio_channels (find_stream audio streams);
}
