-- ===== src/Daemon/Connect.antt =====
-- src/daemon.rs: `connect`, from the receiver that was found to the stream that it plays.
pub mod Owning
pub mod Ending
use unicast.Base.{
  ℕ, ◌+◌, Bool, true, false, not, ◌&&◌, Option, none, some, List, [], ◌∷◌, ◌++◌, Text, codes, ◌==◌,
  if◌then◌else◌, is_empty, print_nat, Platform,
}
use unicast.Net.{Ipv4, show_ipv4, parse_ipv4}
use unicast.Firewall.Open.{open_rule, Answer, ok, err}
use unicast.Paths.{file_stem}
use unicast.Daemon.State.{
  Daemon, Session, Active, MediaServer, ServeContext, ServePlan, Device, Protocol, cast, dlna,
  airplay, unknown, Effect, Message, Response, connecting, buffering, SessionState,
}
use unicast.Daemon.Env.{
  Env, Checked, good, bad, emit, with_status, set_setting, get_setting, audio_boost,
}
use unicast.Daemon.Lifecycle.{disconnect_locked, reset_session}
use unicast.Daemon.Serve.{
  serve_plan, stream_url, caption_url, mime_for_dlna, with_stream, subtitles_supported,
  preferred_subtitle, is_dlna,
}
use unicast.Daemon.Target.{Target, check_target, begin, find_receiver}

is_connecting : SessionState → Bool
is_connecting connecting = true
is_connecting _ = false

is_some : {A : Type 0} → Option A → Bool
is_some none = false
is_some (some a) = true

unfoldable pub ufw_effects : {F : Type 0} → List (List Text) → List (Effect F)
ufw_effects [] = []
ufw_effects (args ∷ rest) = Effect.ufw_command args ∷ ufw_effects rest

no_longer_connecting : SessionState → SessionState
unfolding is_connecting
no_longer_connecting state = if is_connecting state then buffering else state

module _ (platform : Platform) where
  open platform use {F64, zero_seconds}

  -- What is known of the receiver and of the file goes into the session.
  describe : Env F64 → Device → Daemon F64 → Daemon F64
  unfolding is_some is_dlna
  describe env device d = record d {
    session = record (d.session) {
      name = if is_empty device.name then d.session.name else device.name;
      protocol = device.protocol;
      volume_supported = is_dlna device.protocol && is_some device.rendering_url;
      subtitles_supported = subtitles_supported device.protocol;
      duration = elim env.media_duration [ none ↦ zero_seconds | some x ↦ x ];
      boost = audio_boost d.settings;
      subtitles = env.tracks;
      subtitle =
          if subtitles_supported device.protocol
          then preferred_subtitle (get_setting (codes "subtitles") (codes "off") d.settings)
              env.tracks
          else none;
    };
  }

  context_of : Env F64 → Target → Device → ServeContext F64
  context_of env target device = record {
    device = device;
    ip = target.ip;
    path = target.path;
    bind = target.bind;
    port = env.cast_port;
    token = env.random_token;
    title = file_stem target.path;
    duration = env.media_duration;
    subtitles = env.tracks;
    url = [];
    content_type = [];
    transcode = false;
    exact_seek = false;
  }

  media_server : ServeContext F64 → ServePlan → Text → MediaServer
  media_server context plan ip = record {
    bind = context.bind;
    port = context.port;
    token = context.token;
    allow = ip ∷ [];
    content_type = plan.content_type;
    transcode = plan.transcode;
    subtitles = context.subtitles;
  }

  media_url : ServeContext F64 → ServePlan → Text
  media_url context plan =
      codes "http://"
      ++ (show_ipv4 context.bind ++ (b':' ∷ (print_nat context.port ++ (b'/' ∷ plan.endpoint))))

  unfoldable pub start_server :
      Option Text
      → Option Ipv4
      → ServeContext F64
      → ServePlan
      → Daemon F64
      → Daemon F64 × Checked Text
  unfolding media_server media_url emit
  start_server failed none context plan d = (d, bad Message.invalid_receiver_address)
  start_server (some error) (some ip) context plan d = (d, bad (Message.server_failed error))
  start_server none (some ip) context plan d = (
    record (emit (Effect.server_started ∷ []) d) {
      active = record (d.active) { media = some (media_server context plan (show_ipv4 ip)) };
    },
    good (media_url context plan),
  )

  unfoldable pub start_media :
      Env F64 → ServeContext F64 → ServePlan → Daemon F64 → Daemon F64 × Checked Text
  unfolding start_server
  start_media env context plan d =
      start_server env.server_error (parse_ipv4 context.ip) context plan d

  install_cast : ServeContext F64 → Text → ServePlan → ℕ → Daemon F64 → Daemon F64
  install_cast context url plan session_id d = record d {
    active = record (d.active) {
      cast = some session_id;
      serve = some (with_stream platform context url plan);
    };
  }

  attempt : ServeContext F64 → Text → ℕ → Option ℕ → List (Effect F64)
  attempt context url session_id subtitle =
      Effect.cast_connect context.ip url context.title session_id subtitle ∷ []

  -- The first attempt, then one more.
  cast_attempts :
      Option Text
      → Option Text
      → ServeContext F64
      → Text
      → ServePlan
      → Option ℕ
      → ℕ
      → Daemon F64
      → Daemon F64 × Checked (Unit {0})
  unfolding install_cast attempt emit
  cast_attempts none retry context url plan subtitle session_id d = (
    install_cast context url plan session_id (emit (attempt context url session_id subtitle) d),
    good tt,
  )
  cast_attempts (some error) retry context url plan subtitle session_id d =
      let e =
        emit (attempt context url session_id subtitle)
          (emit (attempt context url session_id subtitle) d) in
      elim retry [
        | none ↦ (install_cast context url plan session_id e, good tt)
        | some again ↦ (e, bad (Message.cast_failed again))
      ]

  cast_started :
      Env F64
      → ServeContext F64
      → ServePlan
      → Option ℕ
      → ℕ
      → Daemon F64 × Checked Text
      → Daemon F64 × Checked (Unit {0})
  unfolding cast_attempts
  cast_started env context plan subtitle session_id (d, bad m) = (d, bad m)
  cast_started env context plan subtitle session_id (d, good url) =
      cast_attempts env.cast_error env.cast_retry_error context url plan subtitle session_id d

  context_plan : Env F64 → ServeContext F64 → ℕ → ServePlan
  context_plan env context boost =
      serve_plan platform (env.probe context.path) context.device context.path context.token boost

  connect_cast :
      Env F64 → ServeContext F64 → ℕ → Option ℕ → ℕ → Daemon F64 → Daemon F64 × Checked (Unit {0})
  unfolding cast_started context_plan start_media
  connect_cast env context boost subtitle session_id d =
      cast_started env context (context_plan env context boost) subtitle session_id
        (start_media env context (context_plan env context boost) d)

  install_dlna : ServeContext F64 → Text → ServePlan → Text → ℕ → Daemon F64 → Daemon F64
  unfolding emit
  install_dlna context url plan control session_id d =
      record (emit (Effect.start_poller session_id ∷ []) d) {
        active = record (d.active) {
          dlna = some (record {
            control_url = control;
            rendering_url = context.device.rendering_url;
            poller = session_id;
            offset = zero_seconds;
          });
          serve = some (with_stream platform context url plan);
        };
      }

  unfoldable pub caption_of : ServeContext F64 → Option ℕ → F64 → Option Text
  caption_of context none start = none
  caption_of context (some id) start =
      some (caption_url platform context.bind context.port context.token id start)

  dlna_play : ServeContext F64 → Text → ServePlan → Text → Option ℕ → List (Effect F64)
  unfolding caption_of is_some
  dlna_play context url plan control subtitle =
      Effect.dlna_play control (stream_url platform url zero_seconds subtitle) context.title
        (mime_for_dlna platform (is_some plan.transcode) plan.content_type context.path)
        (caption_of context subtitle zero_seconds)
      ∷ []

  dlna_played :
      Option Text
      → ServeContext F64
      → Text
      → ServePlan
      → Text
      → ℕ
      → Daemon F64
      → Daemon F64 × Checked (Unit {0})
  unfolding install_dlna
  dlna_played none context url plan control session_id d =
      (install_dlna context url plan control session_id d, good tt)
  dlna_played (some error) context url plan control session_id d = (d, bad (Message.rejected error))

  dlna_started :
      Env F64
      → ServeContext F64
      → ServePlan
      → Text
      → Option ℕ
      → ℕ
      → Daemon F64 × Checked Text
      → Daemon F64 × Checked (Unit {0})
  unfolding dlna_played dlna_play emit
  dlna_started env context plan control subtitle session_id (d, bad m) = (d, bad m)
  dlna_started env context plan control subtitle session_id (d, good url) =
      dlna_played env.play_error context url plan control session_id
        (emit (dlna_play context url plan control subtitle) d)

  connect_dlna :
      Env F64
      → Option Text
      → ServeContext F64
      → ℕ
      → Option ℕ
      → ℕ
      → Daemon F64
      → Daemon F64 × Checked (Unit {0})
  unfolding dlna_started context_plan start_media
  connect_dlna env none context boost subtitle session_id d =
      (d, bad (Message.no_control_endpoint context.ip))
  connect_dlna env (some control) context boost subtitle session_id d =
      dlna_started env context (context_plan env context boost) control subtitle session_id
        (start_media env context (context_plan env context boost) d)

  unfoldable pub airplay_port : Device → ℕ
  airplay_port device = if device.port == 0 then 7000 else device.port

  install_airplay : ServeContext F64 → Text → ServePlan → ℕ → Daemon F64 → Daemon F64
  unfolding emit airplay_port
  install_airplay context url plan session_id d =
      record (emit (Effect.start_poller session_id ∷ []) d) {
        active = record (d.active) {
          airplay = some (record {
            ip = context.ip;
            port = airplay_port context.device;
            poller = session_id;
            offset = zero_seconds;
          });
          serve = some (with_stream platform context url plan);
        };
      }

  airplay_played :
      Option Text
      → ServeContext F64
      → Text
      → ServePlan
      → ℕ
      → Daemon F64
      → Daemon F64 × Checked (Unit {0})
  unfolding install_airplay
  airplay_played none context url plan session_id d =
      (install_airplay context url plan session_id d, good tt)
  airplay_played (some error) context url plan session_id d =
      (d, bad (Message.airplay_failed error))

  airplay_started :
      Env F64
      → ServeContext F64
      → ServePlan
      → ℕ
      → Daemon F64 × Checked Text
      → Daemon F64 × Checked (Unit {0})
  unfolding airplay_played airplay_port emit
  airplay_started env context plan session_id (d, bad m) = (d, bad m)
  airplay_started env context plan session_id (d, good url) =
      airplay_played env.airplay_error context url plan session_id (
        emit (Effect.airplay_play context.ip (airplay_port context.device) url zero_seconds ∷ []) d)

  connect_airplay :
      Env F64 → ServeContext F64 → ℕ → ℕ → Daemon F64 → Daemon F64 × Checked (Unit {0})
  unfolding airplay_started context_plan start_media
  connect_airplay env context boost session_id d =
      airplay_started env context (context_plan env context boost) session_id
        (start_media env context (context_plan env context boost) d)

  unfoldable pub connect_protocol :
      Env F64
      → Protocol
      → ServeContext F64
      → ℕ
      → Option ℕ
      → ℕ
      → Daemon F64
      → Daemon F64 × Checked (Unit {0})
  unfolding connect_cast connect_dlna connect_airplay
  connect_protocol env cast context boost subtitle id d =
      connect_cast env context boost subtitle id d
  connect_protocol env dlna context boost subtitle id d =
      connect_dlna env context.device.control_url context boost subtitle id d
  connect_protocol env airplay context boost subtitle id d = connect_airplay env context boost id d
  connect_protocol env (unknown other) context boost subtitle id d =
      (d, bad (Message.unsupported_protocol other))

  -- A failed connection leaves nothing behind.
  give_up : Message → Daemon F64 → Daemon F64 × Response F64
  unfolding disconnect_locked reset_session
  give_up m d = (reset_session platform (disconnect_locked d), Response.error_response m)

  finish : Env F64 → Text → Daemon F64 × Checked (Unit {0}) → Daemon F64 × Response F64
  unfolding give_up no_longer_connecting
  finish env ip (d, bad m) = give_up m d
  finish env ip (d, good _) = with_status (record d {
    session = record (d.session) { state = no_longer_connecting d.session.state };
    settings = set_setting env.saves (codes "lastReceiver") ip d.settings;
  })

  with_firewall : Env F64 → Answer → Target → Device → Daemon F64 → Daemon F64 × Response F64
  unfolding context_of connect_protocol finish give_up
  with_firewall env (err refusal) target device d = give_up (Message.firewall refusal) d
  with_firewall env ok target device d = finish env target.ip (
      connect_protocol env device.protocol (context_of env target device) d.session.boost
        d.session.subtitle d.session.session_id d)

  connect_device : Env F64 → Target → Device → Daemon F64 → Daemon F64 × Response F64
  unfolding describe with_firewall emit ufw_effects
  connect_device env target device d =
      let e = describe env device d in
      let opened = open_rule env.ufw env.cast_port e.ledger target.ip target.bind env.cast_port in
      with_firewall env opened.answer target device
        (record (emit (ufw_effects opened.commands) e) { ledger = opened.ledger })

  connect_found : Env F64 → Target → Daemon F64 × Option Device → Daemon F64 × Response F64
  unfolding connect_device reset_session
  connect_found env target (d, none) =
      (reset_session platform d, Response.error_response Message.unknown_device)
  connect_found env target (d, some device) = connect_device env target device d

  connect_checked : Env F64 → Checked Target → Daemon F64 → Daemon F64 × Response F64
  unfolding connect_found
  connect_checked env (bad m) d = (d, Response.error_response m)
  connect_checked env (good target) d =
      connect_found env target (find_receiver platform env target.ip (begin platform target d))

  unfoldable pub connect : Env F64 → Text → Text → Daemon F64 → Daemon F64 × Response F64
  unfolding connect_checked
  connect env ip file d = connect_checked env (check_target platform env ip file) d
