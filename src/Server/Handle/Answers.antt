-- ===== src/Server/Handle/Answers.antt =====
-- src/media_server.rs: what `handle` answers to HEAD, and to a subtitle track that cannot be converted.
use unicast.Base.{
  Bool, not, if◌then◌else◌, ℕ, ◌<◌, ◌≡◌, refl, subst, true, false, Option, none, some, List, [],
  ◌∷◌, ◌++◌, Text, print_nat, codes, eq_text, eq_text_iff, Platform, Bool-cases, inl, inr, arith,
}
use unicast.Server.{Response, header, plain, slice, dlna_headers}
use unicast.Server.File.Whole.{file_response_by_default}
use unicast.Server.Request.{
  Config, World, State, SubtitleFormat, Request, Method, get, head, options, other, Document,
  allows,
}
use unicast.Subtitles.{SubtitleTrack}
use unicast.Server.Handle.{
  head_response, head_by, head_of_file, get_response, get_by, subtitle_response, subtitle_track,
  serve_track, converted, failed_before, subtitle_request, media_request, with_caption, routed,
  route, handle, transcode_response,
}
use unicast.Server.Access.{constant_time_eq}
use unicast.Server.Ffmpeg.{TranscodePlan}

-- Two responses under the same status that give every header the same value.
pub record SameHead (r q : Response) : Type 0 where
  pub status : r.status ≡ q.status
  pub headers : (name : Text) → header name r.headers ≡ header name q.headers

-- The announced length stands before or after headers with other names.
length_anywhere :
    (content_type : Text) (length : Text) (name : Text)
    → header name (
        dlna_headers
          ((codes "accept-ranges", codes "bytes") ∷ (codes "content-length", length) ∷ [])
          content_type
          false)
      ≡ header name (
          dlna_headers ((codes "accept-ranges", codes "bytes") ∷ []) content_type false
          ++ (codes "content-length", length) ∷ [])
unfolding header
length_anywhere content_type length name =
    elim (Bool-cases (eq_text (codes "content-length") name)) [
      | inr differs ↦ simp differs refl
      | inl same ↦
          subst
            (λ n.
              header n (
                dlna_headers
                  ((codes "accept-ranges", codes "bytes") ∷ (codes "content-length", length) ∷ [])
                  content_type false)
              ≡ header n (
                  dlna_headers ((codes "accept-ranges", codes "bytes") ∷ []) content_type false
                  ++ (codes "content-length", length) ∷ []))
            ((eq_text_iff (codes "content-length") name).0 same) (unfold eq_text in refl)
    ]

-- Where the file is served directly and can be read, HEAD answers with the status and the headers
-- of the GET without a range, and that GET streams the whole file.
pub head_response-SameHead :
    (config : Config) (world : World) (s : State) (headers : List (Text × Text)) (size : ℕ)
    → config.transcode ≡ none
    → world.disk.size ≡ some size
    → world.disk.opens ≡ true
    → world.disk.seeks ≡ true
    → 0 < size
    → header (codes "range") headers ≡ none
    → SameHead (head_response config world) (get_response config world s headers).1
      × ((get_response config world s headers).1.body ≡ slice 0 size)
unfolding head_response head_by head_of_file get_response get_by
head_response-SameHead config world s headers size t d o k pos r =
    simp (t, r, d, file_response_by_default config.content_type world.disk size d o k pos)
      (
        record { status = refl; headers = length_anywhere config.content_type (print_nat size) },
        refl,
      )

module _ (platform : Platform) (config : Config) where
  serve_track_failed :
      (world : World) (start : Option platform.F64) (s : State)
      → (track : SubtitleTrack) (format : SubtitleFormat)
      → failed_before track.id s.failed_subtitles ≡ true
      → serve_track platform world start s (some (track, format)) ≡ (s, plain 404)
  unfolding serve_track
  serve_track_failed world start s track format failed = simp failed refl

  serve_track_records :
      (world : World) (start : Option platform.F64) (s : State)
      → (track : SubtitleTrack) (format : SubtitleFormat) → world.ensure_vtt track ≡ none
      → let t = (serve_track platform world start s (some (track, format))).0 in
        failed_before track.id t.failed_subtitles ≡ true
  unfolding serve_track converted
  serve_track_records world start s track format e =
      elim (Bool-cases (failed_before track.id s.failed_subtitles)) [
        | inl failed ↦ simp failed refl
        | inr fresh ↦ simp (fresh, e) (unfold failed_before in ground arith)
      ]

  -- A failed track is one of the failed tracks afterwards.
  record Keeps (id : ℕ) (s : State) (r : State × Response) : Type 0 where
    held : failed_before id s.failed_subtitles ≡ true → failed_before id r.0.failed_subtitles ≡ true

  Keeps-if :
      (b : Bool) {id : ℕ} {s : State} {x y : State × Response}
      → Keeps id s x
      → Keeps id s y
      → Keeps id s (if b then x else y)
  Keeps-if true h k = h
  Keeps-if false h k = k

  keep : (id : ℕ) (s : State) (r : Response) → Keeps id s (s, r)
  keep id s r = record { held = λ h. h }

  converted-Keeps :
      (id : ℕ) (track : SubtitleTrack) (format : SubtitleFormat) (start : Option platform.F64)
      (s : State)
      → (o : Option Document) → Keeps id s (converted platform track format start s o)
  unfolding converted failed_before
  converted-Keeps id track format start s none = record { held = λ h. ground arith }
  converted-Keeps id track format start s (some document) = record { held = λ h. h }

  serve_track-Keeps :
      (id : ℕ) (world : World) (start : Option platform.F64) (s : State)
      → (o : Option (SubtitleTrack × SubtitleFormat))
      → Keeps id s (serve_track platform world start s o)
  unfolding serve_track
  serve_track-Keeps id world start s none = keep id s _
  serve_track-Keeps id world start s (some (track, format)) =
      Keeps-if (failed_before track.id s.failed_subtitles) (keep id s _)
        (converted-Keeps id track format start s (world.ensure_vtt track))

  subtitle_request-Keeps :
      (id : ℕ) (world : World) (method : Method) (name : Text) (start : Option platform.F64)
      (s : State)
      → Keeps id s (subtitle_request platform config world method name start s)
  unfolding subtitle_request subtitle_response
  subtitle_request-Keeps id world get name start s =
      serve_track-Keeps id world start s (subtitle_track config name)
  subtitle_request-Keeps id world head name start s = keep id s _
  subtitle_request-Keeps id world options name start s = keep id s _
  subtitle_request-Keeps id world other name start s = keep id s _

  get_by-Keeps :
      (id : ℕ) (world : World) (s : State) (headers : List (Text × Text))
      → (o : Option TranscodePlan) → Keeps id s (get_by config world s headers o)
  unfolding get_by transcode_response
  get_by-Keeps id world s headers none = keep id s _
  get_by-Keeps id world s headers (some plan) =
      Keeps-if world.spawns (record { held = λ h. h }) (record { held = λ h. h })

  with_caption-Keeps :
      (id : ℕ) (caption : List (Text × Text)) (s : State) (r : State × Response)
      → Keeps id s r
      → Keeps id s (with_caption platform caption r)
  unfolding with_caption
  with_caption-Keeps id caption s (t, response) h = record { held = h.held }

  media_request-Keeps :
      (id : ℕ) (world : World) (request : Request) (start : Option platform.F64) (method : Method)
      (s : State)
      → Keeps id s (media_request platform config world request start method s)
  unfolding media_request get_response with_caption
  media_request-Keeps id world request start get s =
      with_caption-Keeps id _ s _ (get_by-Keeps id world s request.headers config.transcode)
  media_request-Keeps id world request start head s = record { held = λ h. h }
  media_request-Keeps id world request start options s = keep id s _
  media_request-Keeps id world request start other s = keep id s _

  routed-Keeps :
      (id : ℕ) (world : World) (request : Request) (method : Method) (s : State) (o : Option Text)
      → Keeps id s (routed platform config world request method s o)
  unfolding routed
  routed-Keeps id world request method s (some name) =
      subtitle_request-Keeps id world method name _ s
  routed-Keeps id world request method s none = media_request-Keeps id world request _ method s

  route-Keeps :
      (id : ℕ) (world : World) (request : Request) (method : Method) (s : State)
      → Keeps id s (route platform config world request method s)
  unfolding route
  route-Keeps id world request get s = routed-Keeps id world request get s _
  route-Keeps id world request head s = routed-Keeps id world request head s _
  route-Keeps id world request options s = keep id s _
  route-Keeps id world request other s = routed-Keeps id world request other s _

  handle-Keeps :
      (id : ℕ) (world : World) (request : Request) (s : State)
      → Keeps id s (handle platform config world request s)
  unfolding handle
  handle-Keeps id world request s =
      Keeps-if (not (allows config.allow request.peer)) (keep id s _) (
        Keeps-if (not (constant_time_eq request.token config.token)) (keep id s _)
          (route-Keeps id world request request.method s))

  -- The state after some requests.
  unfoldable pub handle_all : List (World × Request) → State → State
  handle_all [] s = s
  handle_all ((world, request) ∷ requests) s =
      handle_all requests (handle platform config world request s).0

  handle_all_keeps :
      (id : ℕ) (requests : List (World × Request)) (s : State)
      → failed_before id s.failed_subtitles ≡ true
      → failed_before id (handle_all requests s).failed_subtitles ≡ true
  unfolding handle_all
  handle_all_keeps id [] s h = h
  handle_all_keeps id ((world, request) ∷ requests) s h =
      handle_all_keeps id requests _ ((handle-Keeps id world request s).held h)

  -- A track whose conversion failed is never converted again: after any further requests to the
  -- server, whatever format and start are asked for, and whatever a conversion would give by then,
  -- the answer is 404 and nothing changes.
  pub subtitle_response_failed :
      (world later : World) (name again : Text) (start later_start : Option platform.F64)
      (s : State)
      → (requests : List (World × Request))
      → (track : SubtitleTrack) (format other_format : SubtitleFormat)
      → subtitle_track config name ≡ some (track, format)
      → subtitle_track config again ≡ some (track, other_format)
      → world.ensure_vtt track ≡ none
      → let t = handle_all requests (subtitle_response platform config world name start s).0 in
        subtitle_response platform config later again later_start t ≡ (t, plain 404)
  unfolding subtitle_response
  subtitle_response_failed world later name again start later_start s requests track format
        other_format n a e =
      simp (n, a)
        (serve_track_failed later later_start _ track other_format
          (handle_all_keeps track.id requests _ (serve_track_records world start s track format e)))
