-- ===== src/Daemon/Control/Keeping.antt =====
-- src/daemon.rs: no operation on a running session changes which receiver it owns.
use unicast.Base.{
  ℕ, refl, Bool, true, false, not, ◌&&◌, ◌==◌, Option, none, some, List, Text, Platform, trim,
  if◌then◌else◌,
}
use unicast.Daemon.State.{
  Daemon, DlnaSession, AirplaySession, Protocol, cast, dlna, airplay, unknown, Message, Response,
  CastCommand, Effect, SessionState, is_active,
}
use unicast.Daemon.Env.{Env, Checked, good, bad, emit, parse_boost}
use unicast.Daemon.Serve.{parse_percent, parse_bool}
use unicast.Daemon.Owner.{Keeps, profile, Keeps-refl, Keeps-trans}
use unicast.Daemon.Restream.{restart_dlna, restream}
use unicast.Daemon.Restream.Keeping.{restart_dlna-Keeps, restart_airplay-Keeps, restream-Keeps}
use unicast.Daemon.Control.{
  update_state, to_thread, to_cast, pause_dlna, pause_airplay, pause_by, pause, resume_dlna,
  resume_airplay, resume_by, resume, command_cast, ask_renderer, volume_by, mute_by, conclude,
  while_active, change_mute, set_mute, change_volume, set_volume, transcodes, seek_renderer,
  seek_airplay, seek_by, seek, seek_target, switched, subtitle_by, remember_subtitle, show_track,
  set_subtitle, chosen_track, preference_of, apply_boost, save_boost, change_boost, set_boost,
  rendering_of, pause_state, resume_state,
}

if-Keeps :
    {F : Type 0} (b : Bool) (d : Daemon F) {e f : Daemon F}
    → Keeps d e
    → Keeps d f
    → Keeps d (if b then e else f)
if-Keeps true d h k = h
if-Keeps false d h k = k

answer-Keeps :
    {F : Type 0} (b : Bool) (d : Daemon F) (r s : Daemon F × Response F)
    → Keeps d (r.0)
    → Keeps d (s.0)
    → Keeps d ((if b then r else s).0)
answer-Keeps true d r s h k = h
answer-Keeps false d r s h k = k

module _ {F : Type 0} where
  -- What changes neither the session's number and protocol nor what is held.
  update_state-Keeps : (f : SessionState → SessionState) (d : Daemon F) → Keeps d (update_state f d)
  unfolding update_state profile
  update_state-Keeps f d = record { same_profile = refl; same_media = λ n. refl }

  emit-Keeps : (effects : List (Effect F)) (d : Daemon F) → Keeps d (emit effects d)
  unfolding emit profile
  emit-Keeps effects d = record { same_profile = refl; same_media = λ n. refl }

  to_thread-Keeps : (t : Option ℕ) (c : CastCommand F) (d : Daemon F) → Keeps d (to_thread t c d)
  unfolding to_thread
  to_thread-Keeps none c d = Keeps-refl d
  to_thread-Keeps (some thread) c d = emit-Keeps _ d

  pause_dlna-Keeps : (t : Option (DlnaSession F)) (d : Daemon F) → Keeps d (pause_dlna t d)
  unfolding pause_dlna
  pause_dlna-Keeps none d = Keeps-refl d
  pause_dlna-Keeps (some s) d = Keeps-trans d (emit-Keeps _ d) (update_state-Keeps pause_state _)

  pause_airplay-Keeps : (t : Option (AirplaySession F)) (d : Daemon F) → Keeps d (pause_airplay t d)
  unfolding pause_airplay
  pause_airplay-Keeps none d = Keeps-refl d
  pause_airplay-Keeps (some s) d = Keeps-trans d (emit-Keeps _ d) (update_state-Keeps pause_state _)

  pause_by-Keeps : (p : Protocol) (d : Daemon F) → Keeps d (pause_by p d)
  unfolding pause_by to_cast
  pause_by-Keeps cast d =
      Keeps-trans d (to_thread-Keeps d.active.cast CastCommand.pause d)
        (update_state-Keeps pause_state _)
  pause_by-Keeps dlna d = pause_dlna-Keeps d.active.dlna d
  pause_by-Keeps airplay d = pause_airplay-Keeps d.active.airplay d
  pause_by-Keeps (unknown other) d = Keeps-refl d

  pub pause-Keeps : (d : Daemon F) → Keeps d ((pause d).0)
  unfolding pause
  pause-Keeps d = pause_by-Keeps d.session.protocol d

  resume_dlna-Keeps : (t : Option (DlnaSession F)) (d : Daemon F) → Keeps d (resume_dlna t d)
  unfolding resume_dlna
  resume_dlna-Keeps none d = Keeps-refl d
  resume_dlna-Keeps (some s) d = Keeps-trans d (emit-Keeps _ d) (update_state-Keeps resume_state _)

  resume_airplay-Keeps :
      (t : Option (AirplaySession F)) (d : Daemon F) → Keeps d (resume_airplay t d)
  unfolding resume_airplay
  resume_airplay-Keeps none d = Keeps-refl d
  resume_airplay-Keeps (some s) d =
      Keeps-trans d (emit-Keeps _ d) (update_state-Keeps resume_state _)

  resume_by-Keeps : (p : Protocol) (d : Daemon F) → Keeps d (resume_by p d)
  unfolding resume_by to_cast
  resume_by-Keeps cast d =
      Keeps-trans d (to_thread-Keeps d.active.cast CastCommand.resume d)
        (update_state-Keeps resume_state _)
  resume_by-Keeps dlna d = resume_dlna-Keeps d.active.dlna d
  resume_by-Keeps airplay d = resume_airplay-Keeps d.active.airplay d
  resume_by-Keeps (unknown other) d = Keeps-refl d

  pub resume-Keeps : (d : Daemon F) → Keeps d ((resume d).0)
  unfolding resume
  resume-Keeps d = resume_by-Keeps d.session.protocol d

  command_cast-Keeps :
      (c : CastCommand F) (t : Option ℕ) (d : Daemon F) → Keeps d ((command_cast c t d).0)
  unfolding command_cast
  command_cast-Keeps c none d = Keeps-refl d
  command_cast-Keeps c (some thread) d = emit-Keeps _ d

  ask_renderer-Keeps :
      (request : Text → Effect F) (accepted : Bool) (m : Message) (r : Option Text) (d : Daemon F)
      → Keeps d ((ask_renderer request accepted m r d).0)
  unfolding ask_renderer
  ask_renderer-Keeps request accepted m none d = Keeps-refl d
  ask_renderer-Keeps request accepted m (some rendering) d = emit-Keeps _ d

  volume_by-Keeps :
      (env : Env F) (level : ℕ) (p : Protocol) (d : Daemon F)
      → Keeps d ((volume_by env level p d).0)
  unfolding volume_by
  volume_by-Keeps env level cast d = command_cast-Keeps _ d.active.cast d
  volume_by-Keeps env level dlna d = ask_renderer-Keeps _ _ _ (rendering_of d.active.dlna) d
  volume_by-Keeps env level airplay d = Keeps-refl d
  volume_by-Keeps env level (unknown other) d = Keeps-refl d

  mute_by-Keeps :
      (env : Env F) (muted : Bool) (p : Protocol) (d : Daemon F)
      → Keeps d ((mute_by env muted p d).0)
  unfolding mute_by
  mute_by-Keeps env muted cast d = command_cast-Keeps _ d.active.cast d
  mute_by-Keeps env muted dlna d = ask_renderer-Keeps _ _ _ (rendering_of d.active.dlna) d
  mute_by-Keeps env muted airplay d = Keeps-refl d
  mute_by-Keeps env muted (unknown other) d = Keeps-refl d

  change_mute-Keeps :
      (env : Env F) (muted : Option Bool) (d : Daemon F) → Keeps d ((change_mute env muted d).0)
  unfolding change_mute while_active conclude profile
  change_mute-Keeps env none d = Keeps-refl d
  change_mute-Keeps env (some muted) d =
      answer-Keeps (is_active d.session.state) d _ _
        (concluded (mute_by env muted d.session.protocol d) (mute_by-Keeps env muted _ d))
        (Keeps-refl d)
    where
      concluded :
          (r : Daemon F × Checked (Unit {0}))
          → Keeps d (r.0)
          → Keeps d ((conclude (λ session. record session { muted = muted }) r).0)
      concluded (e, good x) h = record { same_profile = h.same_profile; same_media = h.same_media }
      concluded (e, bad m) h = h

  pub set_mute-Keeps :
      (env : Env F) (value : Text) (d : Daemon F) → Keeps d ((set_mute env value d).0)
  unfolding set_mute
  set_mute-Keeps env value d = change_mute-Keeps env (parse_bool value) d

module _ (platform : Platform) where
  open platform use {F64, is_finite, lt, zero_seconds}

  change_volume-Keeps :
      (env : Env F64) (level : Option ℕ) (d : Daemon F64)
      → Keeps d ((change_volume platform env level d).0)
  unfolding change_volume while_active conclude profile
  change_volume-Keeps env none d = Keeps-refl d
  change_volume-Keeps env (some level) d =
      answer-Keeps (is_active d.session.state) d _ _
        (concluded (volume_by env level d.session.protocol d) (volume_by-Keeps env level _ d))
        (Keeps-refl d)
    where
      concluded :
          (r : Daemon F64 × Checked (Unit {0}))
          → Keeps d (r.0)
          → Keeps d ((conclude (λ session. record session { volume = some level }) r).0)
      concluded (e, good x) h = record { same_profile = h.same_profile; same_media = h.same_media }
      concluded (e, bad m) h = h

  pub set_volume-Keeps :
      (env : Env F64) (value : Text) (d : Daemon F64)
      → Keeps d ((set_volume platform env value d).0)
  unfolding set_volume
  set_volume-Keeps env value d = change_volume-Keeps env (parse_percent platform value) d

  seek_renderer-Keeps :
      (t : Option (DlnaSession F64)) (position : F64) (d : Daemon F64)
      → Keeps d (seek_renderer platform t position d)
  unfolding seek_renderer
  seek_renderer-Keeps none position d = Keeps-refl d
  seek_renderer-Keeps (some s) position d = emit-Keeps _ d

  seek_airplay-Keeps :
      (t : Option (AirplaySession F64)) (position : F64) (d : Daemon F64)
      → Keeps d (seek_airplay platform t position d)
  unfolding seek_airplay
  seek_airplay-Keeps none position d = Keeps-refl d
  seek_airplay-Keeps (some s) position d = emit-Keeps _ d

  seek_by-Keeps :
      (env : Env F64) (p : Protocol) (position : F64) (d : Daemon F64)
      → Keeps d (seek_by platform env p position d)
  unfolding seek_by to_cast
  seek_by-Keeps env cast position d = to_thread-Keeps d.active.cast _ d
  seek_by-Keeps env dlna position d =
      if-Keeps (transcodes platform d.active) d (restart_dlna-Keeps platform env position d)
        (seek_renderer-Keeps d.active.dlna position d)
  seek_by-Keeps env airplay position d =
      if-Keeps (transcodes platform d.active) d (restart_airplay-Keeps platform env position d)
        (seek_airplay-Keeps d.active.airplay position d)
  seek_by-Keeps env (unknown other) position d = Keeps-refl d

  pub seek-Keeps :
      (env : Env F64) (position : F64) (d : Daemon F64) → Keeps d ((seek platform env position d).0)
  unfolding seek profile
  seek-Keeps env position d = answer-Keeps _ d _ _ (Keeps-refl d) (
      Keeps-trans d
        (seek_by-Keeps env d.session.protocol (seek_target platform d.session position) d)
        (record { same_profile = refl; same_media = λ n. refl }))

  switched-Keeps :
      (d : Daemon F64) (r : Daemon F64 × Checked (Unit {0}))
      → Keeps d (r.0)
      → Keeps d ((switched platform r).0)
  unfolding switched
  switched-Keeps d (e, good x) h = h
  switched-Keeps d (e, bad m) h = h

  subtitle_by-Keeps :
      (env : Env F64) (track : Option ℕ) (p : Protocol) (d : Daemon F64)
      → Keeps d ((subtitle_by platform env track p d).0)
  unfolding subtitle_by profile
  subtitle_by-Keeps env track cast d = command_cast-Keeps _ d.active.cast d
  subtitle_by-Keeps env track dlna d =
      switched-Keeps d (restart_dlna platform env d.session.position _) (
        Keeps-trans d (record { same_profile = refl; same_media = λ n. refl })
          (restart_dlna-Keeps platform env d.session.position
            (record d { session = record (d.session) { subtitle = track } })))
  subtitle_by-Keeps env track airplay d = Keeps-refl d
  subtitle_by-Keeps env track (unknown other) d = Keeps-refl d

  show_track-Keeps :
      (env : Env F64) (choice : Checked (Option ℕ)) (d : Daemon F64)
      → Keeps d ((show_track platform env choice d).0)
  unfolding show_track conclude remember_subtitle profile
  show_track-Keeps env (bad m) d = Keeps-refl d
  show_track-Keeps env (good track) d =
      concluded (subtitle_by platform env track d.session.protocol d)
        (subtitle_by-Keeps env track d.session.protocol d)
    where
      concluded :
          (r : Daemon F64 × Checked (Unit {0}))
          → Keeps d (r.0)
          → Keeps d (
              (conclude
                (λ session. record session { subtitle = track })
                (remember_subtitle platform env (preference_of track d.session.subtitles) r)).0)
      concluded (e, good x) h = record { same_profile = h.same_profile; same_media = h.same_media }
      concluded (e, bad m) h = h

  pub set_subtitle-Keeps :
      (env : Env F64) (value : Text) (d : Daemon F64)
      → Keeps d ((set_subtitle platform env value d).0)
  unfolding set_subtitle while_active
  set_subtitle-Keeps env value d =
      answer-Keeps (is_active d.session.state) d _ _
        (show_track-Keeps env (chosen_track (trim value) d.session.subtitles) d) (Keeps-refl d)

  apply_boost-Keeps :
      (d : Daemon F64) (r : Daemon F64 × Checked (Unit {0}))
      → Keeps d (r.0)
      → Keeps d ((apply_boost platform r).0)
  unfolding apply_boost
  apply_boost-Keeps d (e, good x) h = h
  apply_boost-Keeps d (e, bad m) h = h

  save_boost-Keeps :
      (env : Env F64) (boost : ℕ) (d : Daemon F64) → Keeps d (save_boost platform env boost d)
  unfolding save_boost profile
  save_boost-Keeps env boost d = record { same_profile = refl; same_media = λ n. refl }

  change_boost-Keeps :
      (env : Env F64) (boost : Option ℕ) (d : Daemon F64)
      → Keeps d ((change_boost platform env boost d).0)
  unfolding change_boost
  change_boost-Keeps env none d = Keeps-refl d
  change_boost-Keeps env (some boost) d =
      answer-Keeps (is_active d.session.state && not (d.session.boost == boost)) d _ _
        (apply_boost-Keeps d (restream platform env boost d.session.position _) (
          Keeps-trans d (save_boost-Keeps env boost d) (
            restream-Keeps platform env boost d.session.position
              (save_boost platform env boost d))))
        (save_boost-Keeps env boost d)

  pub set_boost-Keeps :
      (env : Env F64) (value : Text) (d : Daemon F64) → Keeps d ((set_boost platform env value d).0)
  unfolding set_boost
  set_boost-Keeps env value d = change_boost-Keeps env (parse_boost value) d
