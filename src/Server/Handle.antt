-- ===== src/Server/Handle.antt =====
-- src/media_server.rs: `handle` and what it calls.
pub mod Admission
pub mod Answers
pub mod Tracks
mod Tests
use unicast.Base.{
  ℕ, ◌+◌, Bool, true, false, not, ◌&&◌, ◌||◌, Option, none, some, List, [], ◌∷◌, ◌++◌, Text, codes,
  if◌then◌else◌, eq_text, split, split_once, strip_prefix, strip_suffix, parse_uint, u32_max,
  print_nat, ltb, leb, ◌==◌, Platform,
}
use unicast.Server.{
  Container, Response, Body, respond, plain, header, empty, live, text, forbidden, preflight, cors,
  dlna_headers, live_stream_headers, container_content_type,
}
use unicast.Server.File.{file_response}
use unicast.Server.Access.{constant_time_eq}
use unicast.Server.Live.{admit, step}
use unicast.Server.Request.{
  Config, World, State, Request, Method, get, head, options, other, Document, SubtitleFormat, vtt,
  srt, max_vtt_bytes, allows, query_value,
}
use unicast.Server.Ffmpeg.{TranscodePlan}
use unicast.Subtitles.{SubtitleTrack}
use unicast.Subtitles.Shift.{shift_vtt}
use unicast.Subtitles.Srt.{vtt_to_srt}

format_content_type : SubtitleFormat → Text
format_content_type vtt = codes "text/vtt; charset=utf-8"
format_content_type srt = codes "text/srt"

unfoldable pub find_track : ℕ → List SubtitleTrack → Option SubtitleTrack
find_track id [] = none
find_track id (track ∷ tracks) = if track.id == id then some track else find_track id tracks

track_of : Config → Option ℕ → SubtitleFormat → Option (SubtitleTrack × SubtitleFormat)
track_of config none format = none
track_of config (some id) format = elim (find_track id config.subtitles) [
  | none ↦ none
  | some track ↦ some (track, format)
]

unfoldable pub subtitle_track : Config → Text → Option (SubtitleTrack × SubtitleFormat)
unfolding track_of find_track
subtitle_track config name = elim (strip_suffix (codes ".vtt") name) [
  | some id ↦ track_of config (parse_uint u32_max id) vtt
  | none ↦ elim (strip_suffix (codes ".srt") name) [
    | some id ↦ track_of config (parse_uint u32_max id) srt
    | none ↦ none
  ]
]

unfoldable pub failed_before : ℕ → List ℕ → Bool
failed_before id [] = false
failed_before id (failed ∷ rest) = failed == id || failed_before id rest

-- The bytes of a text in UTF-8.
byte_length : Text → ℕ
byte_length [] = 0
byte_length (c ∷ s) =
    (if ltb c 128 then 1 else (if ltb c 2048 then 2 else (if ltb c 65536 then 3 else 4)))
    + byte_length s

head_of_file : Config → Option ℕ → Response
head_of_file config none = plain 404
head_of_file config (some size) =
    respond 200
      (dlna_headers
        ((codes "accept-ranges", codes "bytes") ∷ (codes "content-length", print_nat size) ∷ [])
        config.content_type false)
      empty

head_by : Config → World → Option TranscodePlan → Response
unfolding head_of_file live_stream_headers
head_by config world (some plan) =
    respond 200 (dlna_headers (live_stream_headers plan.container) config.content_type true) empty
head_by config world none = head_of_file config world.disk.size

unfoldable pub head_response : Config → World → Response
unfolding head_by
head_response config world = head_by config world config.transcode

-- `transcode_response`, for the plan that there is.
transcode_response : TranscodePlan → World → State → State × Response
unfolding live_stream_headers step
transcode_response plan world s =
    if world.spawns
    then (
      record s { streams = step s.streams admit },
      respond 200
          (dlna_headers (live_stream_headers plan.container) (container_content_type plan.container)
            true)
          live,
    )
    else (s, plain 500)

get_by : Config → World → State → List (Text × Text) → Option TranscodePlan → State × Response
unfolding transcode_response
get_by config world s headers (some plan) = transcode_response plan world s
get_by config world s headers none =
    (s, file_response config.content_type world.disk (header (codes "range") headers))

unfoldable pub get_response : Config → World → State → List (Text × Text) → State × Response
unfolding get_by
get_response config world s headers = get_by config world s headers config.transcode

head_of_subtitle : Option (SubtitleTrack × SubtitleFormat) → Response
unfolding format_content_type
head_of_subtitle none = plain 404
head_of_subtitle (some (track, format)) =
    respond 200 (cors ((codes "content-type", format_content_type format) ∷ [])) empty

module _ (platform : Platform) where
  open platform use {F64, zero_seconds, max_media_seconds, is_finite, lt, le, parse_f64, show_f64}

  in_range : Option F64 → Option F64
  in_range none = none
  in_range (some start) =
      if is_finite start && (lt zero_seconds start && le start max_media_seconds)
      then some start
      else none

  parse_start : Option Text → Option F64
  parse_start none = none
  parse_start (some value) = parse_f64 value

  unfoldable pub start_of : Option Text → Option F64
  unfolding in_range parse_start
  start_of query = in_range (parse_start (query_value query (codes "start")))

  retimed_text : Option F64 → Text → Text
  retimed_text none body = body
  retimed_text (some start) body = shift_vtt platform body start

  in_format : SubtitleFormat → Text → Text
  in_format vtt body = body
  in_format srt body = vtt_to_srt platform body

  subtitle_text : SubtitleFormat → Option F64 → Option Text → Response
  unfolding retimed_text in_format format_content_type byte_length
  subtitle_text format start none = plain 500
  subtitle_text format start (some content) =
      let body = in_format format (retimed_text start content) in
      respond 200
        (cors (
          (codes "content-type", format_content_type format)
          ∷ (codes "cache-control", codes "no-store")
          ∷ (codes "content-length", print_nat (byte_length body))
          ∷ []))
        (text body)

  subtitle_document : SubtitleFormat → Option F64 → Document → Response
  unfolding subtitle_text
  subtitle_document format start document = elim document.size [
    | none ↦ plain 404
    | some size ↦
        if ltb max_vtt_bytes size then plain 404 else subtitle_text format start document.content
  ]

  -- The outcome of the conversion of a track.
  converted :
      SubtitleTrack → SubtitleFormat → Option F64 → State → Option Document → State × Response
  unfolding subtitle_document
  converted track format start s none =
      (record s { failed_subtitles = track.id ∷ s.failed_subtitles }, plain 404)
  converted track format start s (some document) = (s, subtitle_document format start document)

  serve_track :
      World → Option F64 → State → Option (SubtitleTrack × SubtitleFormat) → State × Response
  unfolding converted failed_before
  serve_track world start s none = (s, plain 404)
  serve_track world start s (some (track, format)) =
      if failed_before track.id s.failed_subtitles
      then (s, plain 404)
      else converted track format start s (world.ensure_vtt track)

  unfoldable pub subtitle_response : Config → World → Text → Option F64 → State → State × Response
  unfolding serve_track subtitle_track
  subtitle_response config world name start s =
      serve_track world start s (subtitle_track config name)

  subtitle_request : Config → World → Method → Text → Option F64 → State → State × Response
  unfolding subtitle_response head_of_subtitle
  subtitle_request config world get name start s = subtitle_response config world name start s
  subtitle_request config world head name start s =
      (s, head_of_subtitle (subtitle_track config name))
  subtitle_request config world _ name start s = (s, plain 501)

  start_query : Option F64 → Text
  start_query none = []
  start_query (some start) = codes "?start=" ++ show_f64 start

  parse_id : Option Text → Option ℕ
  parse_id none = none
  parse_id (some value) = parse_uint u32_max value

  caption_of : Config → Option F64 → Option ℕ → Option Text
  unfolding start_query
  caption_of config start none = none
  caption_of config start (some id) = elim (find_track id config.subtitles) [
    | none ↦ none
    | some track ↦ some (
        config.base_url ++ (codes "/sub/" ++ (print_nat id ++ (codes ".srt" ++ start_query start))))
  ]

  -- The address of the subtitles that a Samsung TV asks for.
  caption_header : Config → Request → Option F64 → List (Text × Text)
  unfolding caption_of parse_id
  caption_header config request start =
      elim (caption_of config start (parse_id (query_value request.query (codes "sub")))) [
        | none ↦ []
        | some url ↦ elim (header (codes "getcaptioninfo.sec") request.headers) [
          | none ↦ []
          | some value ↦ (codes "captioninfo.sec", url) ∷ []
        ]
      ]

  with_caption : List (Text × Text) → State × Response → State × Response
  with_caption caption (s, response) =
      (s, record response { headers = response.headers ++ caption })

  media_request : Config → World → Request → Option F64 → Method → State → State × Response
  unfolding get_response head_response with_caption caption_header
  media_request config world request start get s =
      with_caption (caption_header config request start)
        (get_response config world s request.headers)
  media_request config world request start head s =
      with_caption (caption_header config request start) (s, head_response config world)
  media_request config world request start _ s = (s, plain 501)

  routed : Config → World → Request → Method → State → Option Text → State × Response
  unfolding start_of subtitle_request media_request
  routed config world request method s (some name) =
      subtitle_request config world method name (start_of request.query) s
  routed config world request method s none =
      media_request config world request (start_of request.query) method s

  -- The request of a peer that is allowed and has the token.
  unfoldable pub route : Config → World → Request → Method → State → State × Response
  unfolding routed
  route config world request options s = (s, preflight)
  route config world request method s =
      routed config world request method s (strip_prefix (codes "sub/") request.rest)

  unfoldable pub handle : Config → World → Request → State → State × Response
  unfolding route
  handle config world request s =
      if not (allows config.allow request.peer)
      then (s, forbidden)
      else (if not (constant_time_eq request.token config.token)
          then (s, forbidden)
          else route config world request request.method s)
