-- ===== src/Daemon/Control.antt =====
-- src/daemon.rs: the operations on a running session.
pub mod Keeping
pub mod Levels
mod Tests
use unicast.Base.{
  ℕ, ◌<◌, Bool, true, false, not, ◌&&◌, ◌||◌, Option, none, some, List, [], ◌∷◌, ◌++◌, Text, codes,
  ◌==◌, if◌then◌else◌, eq_text, is_empty, trim, mem_text, parse_uint, u32_max, print_nat, Platform,
}
use unicast.Subtitles.{SubtitleTrack}
use unicast.Daemon.State.{
  Daemon, Session, Active, DlnaSession, AirplaySession, Protocol, cast, dlna, airplay, unknown,
  Effect, CastCommand, Message, Response, SessionState, is_active, playing, paused,
}
use unicast.Daemon.Env.{
  Env, Checked, good, bad, emit, with_status, parse_boost, set_setting, get_ok, require, ◌>>=◌,
  ◌>>◌,
}
use unicast.Daemon.Serve.{parse_percent, parse_bool}
use unicast.Daemon.Restream.{restart_dlna, restart_airplay, restream}

pause_state : SessionState → SessionState
pause_state playing = paused
pause_state s = s

resume_state : SessionState → SessionState
resume_state paused = playing
resume_state s = s

unfoldable pub rendering_of : {F : Type 0} → Option (DlnaSession F) → Option Text
rendering_of none = none
rendering_of (some s) = s.rendering_url

module _ {F : Type 0} where
  update_state : (SessionState → SessionState) → Daemon F → Daemon F
  update_state f d = record d { session = record (d.session) { state = f d.session.state } }

  to_thread : Option ℕ → CastCommand F → Daemon F → Daemon F
  unfolding emit
  to_thread none command d = d
  to_thread (some thread) command d = emit (Effect.cast_command command ∷ []) d

  to_cast : CastCommand F → Daemon F → Daemon F
  unfolding to_thread
  to_cast command d = to_thread d.active.cast command d

  pause_dlna : Option (DlnaSession F) → Daemon F → Daemon F
  unfolding update_state pause_state emit
  pause_dlna none d = d
  pause_dlna (some s) d = update_state pause_state (emit (Effect.dlna_pause s.control_url ∷ []) d)

  pause_airplay : Option (AirplaySession F) → Daemon F → Daemon F
  unfolding update_state pause_state emit
  pause_airplay none d = d
  pause_airplay (some s) d =
      update_state pause_state (emit (Effect.airplay_pause s.ip s.port ∷ []) d)

  pause_by : Protocol → Daemon F → Daemon F
  unfolding update_state pause_state to_cast pause_dlna pause_airplay
  pause_by cast d = update_state pause_state (to_cast CastCommand.pause d)
  pause_by dlna d = pause_dlna d.active.dlna d
  pause_by airplay d = pause_airplay d.active.airplay d
  pause_by (unknown other) d = d

  unfoldable pub pause : Daemon F → Daemon F × Response F
  unfolding pause_by
  pause d = with_status (pause_by d.session.protocol d)

  resume_dlna : Option (DlnaSession F) → Daemon F → Daemon F
  unfolding update_state resume_state emit
  resume_dlna none d = d
  resume_dlna (some s) d =
      update_state resume_state (emit (Effect.dlna_resume s.control_url ∷ []) d)

  resume_airplay : Option (AirplaySession F) → Daemon F → Daemon F
  unfolding update_state resume_state emit
  resume_airplay none d = d
  resume_airplay (some s) d =
      update_state resume_state (emit (Effect.airplay_resume s.ip s.port ∷ []) d)

  resume_by : Protocol → Daemon F → Daemon F
  unfolding update_state resume_state to_cast resume_dlna resume_airplay
  resume_by cast d = update_state resume_state (to_cast CastCommand.resume d)
  resume_by dlna d = resume_dlna d.active.dlna d
  resume_by airplay d = resume_airplay d.active.airplay d
  resume_by (unknown other) d = d

  unfoldable pub resume : Daemon F → Daemon F × Response F
  unfolding resume_by
  resume d = with_status (resume_by d.session.protocol d)

  -- A command for the cast thread, where there is one.
  command_cast : CastCommand F → Option ℕ → Daemon F → Daemon F × Checked (Unit {0})
  unfolding emit
  command_cast command none d = (d, bad Message.no_cast_session)
  command_cast command (some thread) d = (emit (Effect.cast_command command ∷ []) d, good tt)

  -- A request to the renderer's volume service, where it has one and takes the change.
  ask_renderer :
      (Text → Effect F) → Bool → Message → Option Text → Daemon F → Daemon F × Checked (Unit {0})
  unfolding emit
  ask_renderer request accepted refusal none d = (d, bad Message.no_volume_control)
  ask_renderer request accepted refusal (some rendering) d =
      (emit (request rendering ∷ []) d, require accepted refusal)

  volume_by : Env F → ℕ → Protocol → Daemon F → Daemon F × Checked (Unit {0})
  unfolding command_cast ask_renderer rendering_of
  volume_by env level cast d = command_cast (CastCommand.set_volume level) d.active.cast d
  volume_by env level dlna d =
      ask_renderer (λ rendering. Effect.dlna_set_volume rendering level) env.volume_accepted
        Message.volume_refused (rendering_of d.active.dlna) d
  volume_by env level airplay d = (d, bad Message.airplay_no_volume)
  volume_by env level (unknown other) d = (d, bad Message.airplay_no_volume)

  mute_by : Env F → Bool → Protocol → Daemon F → Daemon F × Checked (Unit {0})
  unfolding command_cast ask_renderer rendering_of
  mute_by env muted cast d = command_cast (CastCommand.set_mute muted) d.active.cast d
  mute_by env muted dlna d =
      ask_renderer (λ rendering. Effect.dlna_set_mute rendering muted) env.mute_accepted
        Message.mute_refused (rendering_of d.active.dlna) d
  mute_by env muted airplay d = (d, bad Message.airplay_no_volume)
  mute_by env muted (unknown other) d = (d, bad Message.airplay_no_volume)

  -- The session after the step, if it succeeded, or the error.
  conclude : (Session F → Session F) → Daemon F × Checked (Unit {0}) → Daemon F × Response F
  conclude update (d, good x) = with_status (record d { session = update d.session })
  conclude update (d, bad m) = (d, Response.error_response m)

  -- An operation that only a running session has.
  while_active : Daemon F × Response F → Daemon F → Daemon F × Response F
  while_active result d =
      if is_active d.session.state
      then result
      else (d, Response.error_response Message.nothing_casting)

  change_mute : Env F → Option Bool → Daemon F → Daemon F × Response F
  unfolding mute_by conclude while_active
  change_mute env none d = (d, Response.error_response Message.invalid_mute)
  change_mute env (some muted) d =
      while_active
        (conclude (λ session. record session { muted = muted })
          (mute_by env muted d.session.protocol d))
        d

  unfoldable pub set_mute : Env F → Text → Daemon F → Daemon F × Response F
  unfolding change_mute
  set_mute env value d = change_mute env (parse_bool value) d

-- `-1` and its like; a track that the session does not have is refused.
find_track : ℕ → List SubtitleTrack → Option SubtitleTrack
find_track id [] = none
find_track id (track ∷ tracks) = if track.id == id then some track else find_track id tracks

chosen_id : List SubtitleTrack → Option ℕ → Checked (Option ℕ)
unfolding find_track
chosen_id tracks none = bad Message.unknown_track
chosen_id tracks (some id) = elim (find_track id tracks) [
  | none ↦ bad Message.unknown_track
  | some track ↦ good (some id)
]

chosen_track : Text → List SubtitleTrack → Checked (Option ℕ)
unfolding chosen_id
chosen_track value tracks =
    if mem_text value ([] ∷ codes "off" ∷ codes "-1" ∷ codes "none" ∷ [])
    then good none
    else chosen_id tracks (parse_uint u32_max value)

language_or_off : Text → Text
language_or_off language = if is_empty language then codes "off" else language

preference_of : Option ℕ → List SubtitleTrack → Text
unfolding find_track language_or_off
preference_of none tracks = codes "off"
preference_of (some id) tracks = elim (find_track id tracks) [
  | none ↦ codes "off"
  | some track ↦ language_or_off track.language
]

module _ (platform : Platform) where
  open platform use {F64, zero_seconds, lt, is_finite, min_of}

  change_volume : Env F64 → Option ℕ → Daemon F64 → Daemon F64 × Response F64
  unfolding volume_by conclude while_active
  change_volume env none d = (d, Response.error_response Message.invalid_volume)
  change_volume env (some level) d =
      while_active
        (conclude (λ session. record session { volume = some level })
          (volume_by env level d.session.protocol d))
        d

  unfoldable pub set_volume : Env F64 → Text → Daemon F64 → Daemon F64 × Response F64
  unfolding change_volume
  set_volume env value d = change_volume env (parse_percent platform value) d

  -- Never past the end, where the length is known.
  unfoldable pub seek_target : Session F64 → F64 → F64
  seek_target session position =
      if lt zero_seconds session.duration then min_of position session.duration else position

  transcodes : Active F64 → Bool
  transcodes active = elim active.serve [ none ↦ false | some context ↦ context.transcode ]

  seek_renderer : Option (DlnaSession F64) → F64 → Daemon F64 → Daemon F64
  unfolding emit
  seek_renderer none position d = d
  seek_renderer (some s) position d =
      emit (Effect.dlna_seek s.control_url position ∷ Effect.dlna_resume s.control_url ∷ []) d

  seek_airplay : Option (AirplaySession F64) → F64 → Daemon F64 → Daemon F64
  unfolding emit
  seek_airplay none position d = d
  seek_airplay (some s) position d =
      emit (Effect.airplay_seek s.ip s.port position ∷ Effect.airplay_resume s.ip s.port ∷ []) d

  -- A stream of ffmpeg cannot be seeked: it is started again where it is wanted.
  seek_by : Env F64 → Protocol → F64 → Daemon F64 → Daemon F64
  unfolding to_cast transcodes seek_renderer seek_airplay
  seek_by env cast position d = to_cast (CastCommand.seek position) d
  seek_by env dlna position d =
      if transcodes d.active
      then (restart_dlna platform env position d).0
      else seek_renderer d.active.dlna position d
  seek_by env airplay position d =
      if transcodes d.active
      then (restart_airplay platform env position d).0
      else seek_airplay d.active.airplay position d
  seek_by env (unknown other) position d = d

  unfoldable pub seek : Env F64 → F64 → Daemon F64 → Daemon F64 × Response F64
  unfolding seek_by is_active
  seek env position d =
      if not (is_active d.session.state) || not (is_finite position) || lt position zero_seconds
      then with_status d
      else (let target = seek_target d.session position in
          let e = seek_by env d.session.protocol target d in
          with_status (record e { session = record (e.session) { position = target } }))

  -- A DLNA renderer takes subtitles only with a video that it loads.
  switched : Daemon F64 × Checked (Unit {0}) → Daemon F64 × Checked (Unit {0})
  switched (d, good x) = (d, good x)
  switched (d, bad m) = (d, bad (Message.could_not_switch m))

  subtitle_by : Env F64 → Option ℕ → Protocol → Daemon F64 → Daemon F64 × Checked (Unit {0})
  unfolding command_cast switched
  subtitle_by env track cast d = command_cast (CastCommand.set_subtitle track) d.active.cast d
  subtitle_by env track dlna d = switched (
      restart_dlna platform env d.session.position
        (record d { session = record (d.session) { subtitle = track } }))
  subtitle_by env track airplay d = (d, bad Message.airplay_no_subtitles)
  subtitle_by env track (unknown other) d = (d, bad Message.airplay_no_subtitles)

  remember_subtitle :
      Env F64 → Text → Daemon F64 × Checked (Unit {0}) → Daemon F64 × Checked (Unit {0})
  remember_subtitle env preference (d, good x) = (
    record d { settings = set_setting env.saves (codes "subtitles") preference d.settings },
    good x,
  )
  remember_subtitle env preference (d, bad m) = (d, bad m)

  show_track : Env F64 → Checked (Option ℕ) → Daemon F64 → Daemon F64 × Response F64
  unfolding subtitle_by remember_subtitle preference_of conclude
  show_track env (bad m) d = (d, Response.error_response m)
  show_track env (good track) d =
      conclude (λ session. record session { subtitle = track })
        (remember_subtitle env (preference_of track d.session.subtitles)
          (subtitle_by env track d.session.protocol d))

  unfoldable pub set_subtitle : Env F64 → Text → Daemon F64 → Daemon F64 × Response F64
  unfolding chosen_track show_track while_active
  set_subtitle env value d =
      while_active (show_track env (chosen_track (trim value) d.session.subtitles) d) d

  apply_boost : Daemon F64 × Checked (Unit {0}) → Daemon F64 × Response F64
  apply_boost (d, good x) = with_status d
  apply_boost (d, bad m) = (d, Response.error_response (Message.not_applied_now m))

  save_boost : Env F64 → ℕ → Daemon F64 → Daemon F64
  save_boost env boost d = record d {
    settings = set_setting env.saves (codes "audioBoost") (print_nat boost) d.settings;
  }

  change_boost : Env F64 → Option ℕ → Daemon F64 → Daemon F64 × Response F64
  unfolding apply_boost save_boost
  change_boost env none d = (d, Response.error_response Message.invalid_boost)
  change_boost env (some boost) d =
      let e = save_boost env boost d in
      if is_active d.session.state && not (d.session.boost == boost)
      then apply_boost (restream platform env boost d.session.position e)
      else with_status e

  unfoldable pub set_boost : Env F64 → Text → Daemon F64 → Daemon F64 × Response F64
  unfolding change_boost
  set_boost env value d = change_boost env (parse_boost value) d
