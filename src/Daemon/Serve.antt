-- ===== src/Daemon/Serve.antt =====
-- src/daemon.rs: how a file is served, and the URLs that receivers are given.
pub mod Sound
use unicast.Base.{
  ℕ, Bool, true, false, not, ◌&&◌, ◌||◌, Option, none, some, List, [], ◌∷◌, ◌++◌, Text, codes, ◌==◌,
  if◌then◌else◌, eq_text, is_empty, trim, join, print_nat, Platform,
}
use unicast.Net.{Ipv4, show_ipv4}
use unicast.Server.{Container, fragmented_mp4, mpeg_ts, container_content_type, container_extension}
use unicast.Paths
use unicast.Paths.{file_basename, extension, content_type_for_serve}
use unicast.Cast.Plan.{ProbeStream, CodecPlan, copy, plan_transcode, passthrough_plan}
use unicast.Subtitles.{SubtitleTrack}
use unicast.Daemon.State.{Protocol, cast, dlna, Device, ServePlan, ServeContext}

unfoldable pub is_cast : Protocol → Bool
is_cast cast = true
is_cast _ = false

unfoldable pub is_dlna : Protocol → Bool
is_dlna dlna = true
is_dlna _ = false

unfoldable pub subtitles_supported : Protocol → Bool
subtitles_supported cast = true
subtitles_supported dlna = true
subtitles_supported _ = false

is_mp4_family : Text → Bool
is_mp4_family ext =
    eq_text ext (codes "mp4") || eq_text ext (codes "m4v") || eq_text ext (codes "mov")

-- `url?a&b`, without `?` where there is no part.
with_query : Text → List Text → Text
with_query base [] = base
with_query base (part ∷ parts) = base ++ b'?' ∷ join (codes "&") (part ∷ parts)

unfoldable pub caption_base : Ipv4 → ℕ → Text → ℕ → Text
caption_base bind port token id =
    codes "http://"
    ++ (show_ipv4 bind
        ++ (b':'
            ∷ (print_nat port
                ++ (b'/' ∷ (token ++ (codes "/sub/" ++ (print_nat id ++ codes ".srt")))))))

sub_part : Option ℕ → List Text
sub_part none = []
sub_part (some id) = (codes "sub=" ++ print_nat id) ∷ []

parse_bool_of : Text → Option Bool
parse_bool_of s =
    if eq_text s (codes "true") || eq_text s (codes "1") || eq_text s (codes "on")
    then some true
    else (if eq_text s (codes "false") || eq_text s (codes "0") || eq_text s (codes "off")
        then some false
        else none)

unfoldable pub parse_bool : Text → Option Bool
unfolding parse_bool_of
parse_bool value = parse_bool_of (trim value)

find_language : Text → List SubtitleTrack → Option ℕ
find_language preference [] = none
find_language preference (track ∷ tracks) =
    if eq_text track.language preference then some track.id else find_language preference tracks

-- The preference is given.
unfoldable pub preferred_subtitle : Text → List SubtitleTrack → Option ℕ
unfolding find_language
preferred_subtitle preference tracks =
    if is_empty preference || eq_text preference (codes "off")
    then none
    else find_language preference tracks

module _ (platform : Platform) where
  open platform use {
    F64, zero_seconds, lt, floor_ms, show_ms, percent_encode, parse_f64, is_finite, percent,
  }

  unfoldable pub codec_plan : Device → List ProbeStream → CodecPlan
  unfolding is_cast
  codec_plan device streams =
      if is_cast device.protocol
      then plan_transcode (platform.to_lowercase) streams device.model device.name
      else passthrough_plan streams

  unfoldable pub serves_directly : Device → Text → ℕ → CodecPlan → Bool
  unfolding is_cast is_mp4_family
  serves_directly device path boost codec =
      boost == 0
      && eq_text codec.vcodec copy
      && eq_text codec.acodec copy
      && (not (is_cast device.protocol) || is_mp4_family (extension platform path))

  direct_plan : Text → Text → ServePlan
  direct_plan path token = record {
    transcode = none;
    endpoint = token ++ b'/' ∷ percent_encode (file_basename path);
    content_type = content_type_for_serve platform path false;
    exact_seek = false;
  }

  stream_container : Protocol → Container
  unfolding is_dlna
  stream_container protocol = if is_dlna protocol then mpeg_ts else fragmented_mp4

  ffmpeg_plan : Device → Text → ℕ → CodecPlan → ServePlan
  unfolding stream_container
  ffmpeg_plan device token boost codec =
      let container = stream_container device.protocol in
      record {
        transcode = some (record {
          vcodec = codec.vcodec;
          acodec = codec.acodec;
          gain_db = boost;
          channels = codec.channels;
          container = container;
        });
        endpoint = token ++ (codes "/stream." ++ container_extension container);
        content_type = container_content_type container;
        exact_seek = not (eq_text codec.vcodec copy);
      }

  -- The streams are what ffprobe reports of the file.
  unfoldable pub serve_plan : List ProbeStream → Device → Text → Text → ℕ → ServePlan
  unfolding codec_plan serves_directly direct_plan ffmpeg_plan
  serve_plan streams device path token boost =
      let codec = codec_plan device streams in
      if serves_directly device path boost codec
      then direct_plan path token
      else ffmpeg_plan device token boost codec

  unfoldable pub mime_for_dlna : Bool → Text → Text → Text
  mime_for_dlna transcode content_type path =
      if transcode then content_type else Paths.mime_for_dlna platform path

  -- `base`, with the start time where it is past 0, and the subtitle track.
  unfoldable pub stream_url : Text → F64 → Option ℕ → Text
  unfolding with_query sub_part
  stream_url base start sub = with_query base (
      (if lt zero_seconds start then (codes "start=" ++ show_ms start) ∷ [] else [])
      ++ sub_part sub)

  unfoldable pub caption_url : Ipv4 → ℕ → Text → ℕ → F64 → Text
  unfolding caption_base
  caption_url bind port token id start =
      let base = caption_base bind port token id in
      if lt zero_seconds start then base ++ (codes "?start=" ++ show_ms start) else base

  -- The previous keyframe, as ffprobe finds it, is given.
  unfoldable pub stream_start : Bool → (F64 → Option F64) → F64 → F64
  stream_start exact_seek keyframe_at_or_before position =
      if exact_seek
      then position
      else elim (keyframe_at_or_before position) [ none ↦ position | some k ↦ floor_ms k ]

  unfoldable pub with_stream : ServeContext F64 → Text → ServePlan → ServeContext F64
  with_stream context url plan = record context {
    url = url;
    content_type = plan.content_type;
    transcode = elim plan.transcode [ none ↦ false | some t ↦ true ];
    exact_seek = plan.exact_seek;
  }

  -- `parse_percent`: the level as an integer from 0 to 100.
  unfoldable pub parse_percent : Text → Option ℕ
  parse_percent value = elim (parse_f64 (trim value)) [
    | none ↦ none
    | some level ↦ if is_finite level then some (percent level) else none
  ]
