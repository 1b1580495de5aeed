-- ===== src/Server/Handle/Admission.antt =====
-- src/media_server.rs: who is answered by `handle`, and which requests start ffmpeg.
use unicast.Base.{
  ◌≡◌, refl, sym, ap, ◌≢◌, ◌⊎◌, inl, inr, true, Option, none, some, List, [], ◌∷◌, In, Text,
  Platform, arith, Bool-cases,
}
use unicast.Net.{Ipv4}
use unicast.Server.{forbidden}
use unicast.Server.Live
use unicast.Server.Access.{AllBytes, constant_time_eq, constant_time_eq_iff}
use unicast.Server.Request.{
  IpAddr, v4, v6, same_ipv4, same_ip, allows, Config, Request, World, State, Method, get, head,
  options, other, SubtitleFormat, Document,
}
use unicast.Server.Ffmpeg.{TranscodePlan}
use unicast.Subtitles.{SubtitleTrack}
use unicast.Server.Handle.{
  handle, route, subtitle_request, subtitle_response, serve_track, converted, media_request,
  with_caption, start_of, get_by, routed, get_response, transcode_response, failed_before,
  subtitle_track,
}

same_ipv4-eq : (x y : Ipv4) → same_ipv4 x y ≡ true → x ≡ y
unfolding same_ipv4
same_ipv4-eq x y h =
    let a : x.a ≡ y.a = ground arith in
    let b : x.b ≡ y.b = ground arith in
    let c : x.c ≡ y.c = ground arith in
    let d : x.d ≡ y.d = ground arith in λ i. record { a = a i; b = b i; c = c i; d = d i }

same_ip-eq : (x y : IpAddr) → same_ip x y ≡ true → x ≡ y
unfolding same_ip
same_ip-eq (v4 x) (v4 y) h = ap v4 (same_ipv4-eq x y h)
same_ip-eq (v6 x) (v6 y) h = ap v6 (ground arith)
same_ip-eq (v4 x) (v6 y) h = cc h
same_ip-eq (v6 x) (v4 y) h = cc h

allows-In : (allow : List IpAddr) (peer : IpAddr) → allows allow peer ≡ true → In peer allow
unfolding allows
allows-In [] peer h = cc h
allows-In (ip ∷ allow) peer h = elim (Bool-cases (same_ip ip peer)) [
  | inl e ↦ inl (sym (same_ip-eq ip peer e))
  | inr e ↦ inr (allows-In allow peer (simp e at h))
]

-- The peer is on the allowlist, and the request has the token.
abbrev pub IsAdmitted : Config → Request → Type 0
IsAdmitted config request = In request.peer config.allow × (request.token ≡ config.token)

module _ (platform : Platform) (config : Config) (world : World) where
  serve_track-streams :
      (start : Option platform.F64) (s : State) (track : Option (SubtitleTrack × SubtitleFormat))
      → (serve_track platform world start s track).0.streams ≡ s.streams
  unfolding serve_track converted
  serve_track-streams start s none = refl
  serve_track-streams start s (some (track, format)) =
      elim (Bool-cases (failed_before track.id s.failed_subtitles)) [
        | inl failed ↦ simp failed refl
        | inr fresh ↦ simp fresh (of_conversion (world.ensure_vtt track))
      ]
    where
      of_conversion :
          (o : Option Document) → (converted platform track format start s o).0.streams ≡ s.streams
      of_conversion none = refl
      of_conversion (some document) = refl

  subtitle_request-streams :
      (method : Method) (name : Text) (start : Option platform.F64) (s : State)
      → (subtitle_request platform config world method name start s).0.streams ≡ s.streams
  unfolding subtitle_request subtitle_response
  subtitle_request-streams get name start s =
      serve_track-streams start s (subtitle_track config name)
  subtitle_request-streams head name start s = refl
  subtitle_request-streams options name start s = refl
  subtitle_request-streams other name start s = refl

  -- The streams are as they were, or one more was admitted for a GET of a file that is transcoded.
  abbrev pub Starts : Method → State → State → Type 0
  Starts method s t =
      (t.streams ≡ s.streams)
      ⊎ ((t.streams ≡ Live.step s.streams Live.admit) × (method ≡ get) × (config.transcode ≢ none))

  get_by-Starts :
      (s : State) (headers : List (Text × Text)) (o : Option TranscodePlan)
      → config.transcode ≡ o
      → Starts get s (get_by config world s headers o).0
  unfolding get_by transcode_response
  get_by-Starts s headers none e = inl refl
  get_by-Starts s headers (some plan) e = elim (Bool-cases world.spawns) [
    | inr failed ↦ simp failed (inl refl)
    | inl spawned ↦ simp (e, spawned) (inr (refl, refl, λ h. cc h))
  ]

  media_request-Starts :
      (request : Request) (start : Option platform.F64) (method : Method) (s : State)
      → Starts method s (media_request platform config world request start method s).0
  unfolding media_request with_caption get_response
  media_request-Starts request start get s = get_by-Starts s request.headers config.transcode refl
  media_request-Starts request start head s = inl refl
  media_request-Starts request start options s = inl refl
  media_request-Starts request start other s = inl refl

  routed-Starts :
      (request : Request) (method : Method) (s : State) (o : Option Text)
      → Starts method s (routed platform config world request method s o).0
  unfolding routed
  routed-Starts request method s (some name) =
      inl (subtitle_request-streams method name (start_of platform request.query) s)
  routed-Starts request method s none =
      media_request-Starts request (start_of platform request.query) method s

  route-Starts :
      (request : Request) (method : Method) (s : State)
      → Starts method s (route platform config world request method s).0
  unfolding route
  route-Starts request options s = inl refl
  route-Starts request get s = routed-Starts request get s _
  route-Starts request head s = routed-Starts request head s _
  route-Starts request other s = routed-Starts request other s _

  -- Unless the peer is on the allowlist and the request has the token of the server, the answer is
  -- 403 without a body, and nothing changes.
  pub handle_refuses :
      (request : Request) (s : State)
      → AllBytes request.token
      → AllBytes config.token
      → ¬ IsAdmitted config request
      → handle platform config world request s ≡ (s, forbidden)
  unfolding handle
  handle_refuses request s hr hc refused = elim (Bool-cases (allows config.allow request.peer)) [
    | inr out ↦ simp out refl
    | inl allowed ↦ elim (Bool-cases (constant_time_eq request.token config.token)) [
      | inr wrong ↦ simp (allowed, wrong) refl
      | inl right ↦ absurd (
          refused (
            allows-In config.allow request.peer allowed,
            (constant_time_eq_iff request.token config.token hr hc).0 right,
          ))
    ]
  ]

  -- A request changes the live streams only by admitting one more, and that only where it is a GET
  -- of a file that is transcoded, its peer is on the allowlist, and it has the token of the server.
  pub handle_starts :
      (request : Request) (s : State)
      → AllBytes request.token
      → AllBytes config.token
      → let t = (handle platform config world request s).0 in
        (t.streams ≡ s.streams)
        ⊎ ((t.streams ≡ Live.step s.streams Live.admit)
            × (request.method ≡ get)
            × (config.transcode ≢ none)
            × IsAdmitted config request)
  unfolding handle
  handle_starts request s hr hc = elim (Bool-cases (allows config.allow request.peer)) [
    | inr out ↦ simp out (inl refl)
    | inl allowed ↦ elim (Bool-cases (constant_time_eq request.token config.token)) [
      | inr wrong ↦ simp (allowed, wrong) (inl refl)
      | inl right ↦ elim (route-Starts request request.method s) [
        | inl same ↦ simp (allowed, right) (inl same)
        | inr (more, method, plan) ↦
            simp (allowed, right)
              (inr (
                more,
                method,
                plan,
                (
                  allows-In config.allow request.peer allowed,
                  (constant_time_eq_iff request.token config.token hr hc).0 right,
                ),
              ))
      ]
    ]
  ]
