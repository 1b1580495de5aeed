-- ===== src/Daemon/Restream.antt =====
-- src/daemon.rs: `restart_dlna`, `restart_airplay` and `restream`, which point a receiver at a new
-- stream of the file that is already being shown. The reads of the transport state that only wait
-- for the renderer are left out.
pub mod Keeping
use unicast.Base.{
  ℕ, Bool, true, false, not, ◌&&◌, Option, none, some, List, [], ◌∷◌, ◌++◌, Text, codes, ◌==◌,
  if◌then◌else◌, Platform,
}
use unicast.Daemon.State.{
  Daemon, Session, Active, MediaServer, DlnaSession, AirplaySession, ServeContext, ServePlan,
  Protocol, cast, dlna, airplay, unknown, Effect, CastCommand, Message, buffering,
}
use unicast.Daemon.Env.{Env, Checked, good, bad, emit}
use unicast.Daemon.Lifecycle.{fail_session}
use unicast.Daemon.Serve.{
  serve_plan, stream_url, caption_url, mime_for_dlna, with_stream, stream_start,
}
use unicast.Daemon.Connect.{start_media, caption_of}

is_ok : {A : Type 0} → Checked A → Bool
is_ok (good a) = true
is_ok (bad m) = false

stop_media : {F : Type 0} → Option MediaServer → Daemon F → Daemon F
unfolding emit
stop_media none d = d
stop_media (some server) d = record (emit (Effect.server_stopped ∷ []) d) {
  active = record (d.active) { media = none };
}

stop_server : {F : Type 0} → Daemon F → Daemon F
unfolding stop_media
stop_server d = stop_media d.active.media d

-- The pollers are told to end: they would take the stream swap for the end of playback.
abort_pollers : {F : Type 0} → Daemon F → Daemon F
unfolding emit
abort_pollers d =
    emit
      ((elim d.active.dlna [ none ↦ [] | some s ↦ Effect.abort_poller s.poller ∷ [] ])
        ++ (elim d.active.airplay [ none ↦ [] | some s ↦ Effect.abort_poller s.poller ∷ [] ]))
      d

-- `fail_session` where the result is an error, which is passed on.
fail_with :
    {F : Type 0}
    → (Message → Message)
    → Daemon F × Checked (Unit {0})
    → Daemon F × Checked (Unit {0})
unfolding fail_session
fail_with describe (d, good x) = (d, good x)
fail_with describe (d, bad m) = (fail_session (describe m) d, bad m)

abbrev same_message : Message → Message
same_message m = m

answered : (Text → Message) → Option Text → Checked (Unit {0})
answered describe none = good tt
answered describe (some error) = bad (describe error)

module _ (platform : Platform) where
  open platform use {F64, zero_seconds, lt, div, clamp_unit}

  start_of : Env F64 → ServeContext F64 → F64 → F64
  start_of env context position =
      if context.transcode
      then stream_start platform context.exact_seek (env.keyframe_at_or_before) position
      else zero_seconds

  playing_at : F64 → Daemon F64 → Daemon F64
  playing_at position d = record d {
    session = record (d.session) { position = position; state = buffering };
  }

  dlna_calls :
      Bool → DlnaSession F64 → Text → Text → Text → Option Text → Bool → F64 → List (Effect F64)
  dlna_calls accepted s url title mime caption direct position =
      Effect.abort_poller s.poller
      ∷ Effect.dlna_stop s.control_url
      ∷ Effect.dlna_play s.control_url url title mime caption
      ∷ (if accepted && direct && lt zero_seconds position
          then Effect.dlna_seek s.control_url position ∷ Effect.dlna_resume s.control_url ∷ []
          else [])

  -- The renderer is told to load the stream again, and its poller starts again.
  replay_dlna :
      Env F64
      → ServeContext F64
      → DlnaSession F64
      → F64
      → Daemon F64
      → Daemon F64 × Checked (Unit {0})
  unfolding start_of playing_at dlna_calls caption_of is_ok answered emit
  replay_dlna env context s position d =
      let start = start_of env context position in
      let subtitle = d.session.subtitle in
      let result = answered Message.rejected (env.play_error) in
      let calls =
        dlna_calls (is_ok result) s (stream_url platform context.url start subtitle) context.title
          (mime_for_dlna platform context.transcode context.content_type context.path)
          (caption_of platform context subtitle start) (not context.transcode) position in
      let e =
        playing_at position
          (record (emit (calls ++ (Effect.start_poller d.session.session_id ∷ [])) d) {
            active = record (d.active) {
              dlna = some (record s { offset = start; poller = d.session.session_id });
            };
          }) in
      (e, result)

  restart_dlna_session :
      Env F64
      → Option (ServeContext F64)
      → Option (DlnaSession F64)
      → F64
      → Daemon F64
      → Daemon F64 × Checked (Unit {0})
  unfolding replay_dlna fail_with
  restart_dlna_session env none s position d = (d, bad Message.no_active_stream)
  restart_dlna_session env (some context) none position d = (d, bad Message.no_dlna_session)
  restart_dlna_session env (some context) (some s) position d =
      fail_with same_message (replay_dlna env context s position d)

  unfoldable pub restart_dlna : Env F64 → F64 → Daemon F64 → Daemon F64 × Checked (Unit {0})
  unfolding restart_dlna_session
  restart_dlna env position d = restart_dlna_session env d.active.serve d.active.dlna position d

  fraction_of : ServeContext F64 → F64 → F64
  fraction_of context position = elim context.duration [
    | none ↦ zero_seconds
    | some duration ↦
        if not context.transcode && lt zero_seconds duration
        then clamp_unit (div position duration)
        else zero_seconds
  ]

  replay_airplay :
      Env F64
      → ServeContext F64
      → AirplaySession F64
      → F64
      → Daemon F64
      → Daemon F64 × Checked (Unit {0})
  unfolding start_of playing_at fraction_of answered emit
  replay_airplay env context s position d =
      let start = start_of env context position in
      let calls =
        Effect.abort_poller s.poller
        ∷ Effect.airplay_stop s.ip s.port
        ∷ Effect.airplay_play s.ip s.port (stream_url platform context.url start none)
            (fraction_of context position)
        ∷ Effect.start_poller d.session.session_id
        ∷ [] in
      let e = playing_at position (record (emit calls d) {
        active = record (d.active) {
          airplay = some (record s { offset = start; poller = d.session.session_id });
        };
      }) in
      (e, answered Message.airplay_failed (env.airplay_error))

  restart_airplay_session :
      Env F64
      → Option (ServeContext F64)
      → Option (AirplaySession F64)
      → F64
      → Daemon F64
      → Daemon F64 × Checked (Unit {0})
  unfolding replay_airplay fail_with
  restart_airplay_session env none s position d = (d, bad Message.no_active_stream)
  restart_airplay_session env (some context) none position d = (d, bad Message.no_airplay_session)
  restart_airplay_session env (some context) (some s) position d =
      fail_with Message.stream_rejected (replay_airplay env context s position d)

  unfoldable pub restart_airplay : Env F64 → F64 → Daemon F64 → Daemon F64 × Checked (Unit {0})
  unfolding restart_airplay_session
  restart_airplay env position d =
      restart_airplay_session env d.active.serve d.active.airplay position d

  reload_cast : Option ℕ → ServeContext F64 → F64 → Daemon F64 → Daemon F64 × Checked (Unit {0})
  unfolding emit
  reload_cast none context position d = (d, bad Message.no_cast_session)
  reload_cast (some thread) context position d = (
    emit
        (Effect.cast_command
            (CastCommand.reload context.url context.transcode context.exact_seek position)
          ∷ [])
        d,
    good tt,
  )

  repoint :
      Env F64 → Protocol → ServeContext F64 → F64 → Daemon F64 → Daemon F64 × Checked (Unit {0})
  unfolding reload_cast restart_dlna restart_airplay
  repoint env cast context position d = reload_cast d.active.cast context position d
  repoint env dlna context position d = restart_dlna env position d
  repoint env airplay context position d = restart_airplay env position d
  repoint env (unknown other) context position d = (d, bad (Message.unsupported_protocol other))

  -- The new stream is served: its context and its boost are kept.
  serve_again :
      Env F64
      → ServeContext F64
      → ServePlan
      → ℕ
      → F64
      → Daemon F64 × Checked Text
      → Daemon F64 × Checked (Unit {0})
  unfolding repoint
  serve_again env context plan boost position (d, bad m) = (d, bad m)
  serve_again env context plan boost position (d, good url) =
      let now = with_stream platform context url plan in
      repoint env context.device.protocol now position (record d {
        active = record (d.active) { serve = some now };
        session = record (d.session) { boost = boost };
      })

  restream_context :
      Env F64 → Option (ServeContext F64) → ℕ → F64 → Daemon F64 → Daemon F64 × Checked (Unit {0})
  unfolding stop_server serve_again
  restream_context env none boost position d = (d, bad Message.no_active_stream)
  restream_context env (some context) boost position d =
      let plan =
        serve_plan platform (env.probe context.path) context.device context.path context.token
          boost in
      serve_again env context plan boost position
        (start_media platform env context plan (stop_server d))

  restream_inner : Env F64 → ℕ → F64 → Daemon F64 → Daemon F64 × Checked (Unit {0})
  unfolding abort_pollers restream_context
  restream_inner env boost position d =
      restream_context env d.active.serve boost position (abort_pollers d)

  unfoldable pub restream : Env F64 → ℕ → F64 → Daemon F64 → Daemon F64 × Checked (Unit {0})
  unfolding restream_inner fail_with
  restream env boost position d =
      fail_with Message.could_not_restart (restream_inner env boost position d)
