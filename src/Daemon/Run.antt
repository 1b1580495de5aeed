-- ===== src/Daemon/Run.antt =====
-- src/daemon.rs: the daemon's life: requests, ticks of the pollers and of the cast thread, and the
-- stops that these ask for, in any order.
use unicast.Base.{
  ℕ, ◌<◌, ◌≡◌, refl, sym, subst, Bool, true, false, Option, none, some, List, Text, arith,
  if◌then◌else◌, Platform, [], ◌==◌, ◌&&◌,
}
use unicast.Daemon.State.{Daemon, Response, default_session, nothing_active}
use unicast.Daemon.Env.{Env, emit}
use unicast.Daemon.Lifecycle
use unicast.Daemon.Lifecycle.{disconnect_locked, reset_session, auto_stop, is_terminal}
use unicast.Daemon.Owner.{
  IsValid, Keeps, Keeps-refl, Keeps-IsValid, profile, present, served_protocol,
}
use unicast.Daemon.Poll.{
  Poller, Reading, PlaybackInfo, Entry, dlna_tick, airplay_tick, cast_tick, announce,
}
use unicast.Daemon.Request.{
  Request, Command, command_of, ping, status, deps, discover, connect, disconnect, pause, resume,
  seek, set_volume, set_mute, set_boost, set_subtitle, add_ip, remove_ip, save_multicast,
  clear_firewall, shutdown, other,
}
use unicast.Daemon.Connect.Ending.{Ending, refused, gave_up, casting, connect-Ending}
use unicast.Daemon.Control.Keeping.{
  pause-Keeps, resume-Keeps, seek-Keeps, set_volume-Keeps, set_mute-Keeps, set_subtitle-Keeps,
  set_boost-Keeps,
}
use unicast.Daemon.Stored
use unicast.Daemon.Stored.Keeping.{
  discover-Keeps, add_ip-Keeps, remove_ip-Keeps, save_multicast-Keeps, clear_firewall-Keeps,
}
use unicast.Daemon.Dispatch.{dispatch, run, seek_request}

-- `Daemon::new`: the first session number is 1.
unfoldable pub new : {F : Type 0} → F → List (Text × Text) → List Text → List Text → Daemon F
new zero_seconds settings manual_ips ledger = record {
  session = default_session zero_seconds;
  active = nothing_active;
  devices = [];
  next_session_id = 1;
  settings = settings;
  manual_ips = manual_ips;
  ledger = ledger;
  effects = [];
}

module _ {F : Type 0} where
  emptied : F → Daemon F → Daemon F
  emptied zero_seconds d = record d {
    session = default_session zero_seconds;
    active = nothing_active;
  }

  -- A session without a receiver is valid.
  emptied-IsValid :
      (zero_seconds : F) (d : Daemon F) → 0 < d.next_session_id → IsValid (emptied zero_seconds d)
  unfolding profile served_protocol present emptied
  emptied-IsValid zero_seconds d h = record {
    profile_valid = record { handed_out = h; owner = tt; unowned = λ z. refl };
    media_owned = λ n. refl;
  }

  reset-IsValid :
      (zero_seconds : F) (d : Daemon F)
      → 0 < d.next_session_id
      → d.active ≡ nothing_active
      → d.session ≡ default_session zero_seconds
      → IsValid d
  unfolding emptied
  reset-IsValid zero_seconds d h a s =
      subst IsValid (λ i. record d { session = sym s i; active = sym a i })
        (emptied-IsValid zero_seconds d h)

  announce-Keeps : (b : Bool) (id : ℕ) (d e : Daemon F) → Keeps d e → Keeps d (announce b id e)
  unfolding announce emit profile
  announce-Keeps true id d e h = record { same_profile = h.same_profile; same_media = h.same_media }
  announce-Keeps false id d e h = h

module _ (platform : Platform) where
  open platform use {F64, zero_seconds}

  pub data Step : Daemon F64 → Daemon F64 → Type 0 where
    request :
        (env : Env F64) (r : Request F64) (d : Daemon F64) → Step d ((dispatch platform env r d).0)
    dlna_polled :
        (poller : Poller) (reading : Reading F64) (d : Daemon F64)
        → Step d ((dlna_tick platform poller reading d).1)
    airplay_polled :
        (poller : Poller) (info : Option (PlaybackInfo F64)) (offset : F64) (grace_over : Bool)
        (d : Daemon F64)
        → Step d ((airplay_tick platform poller info offset grace_over d).1)
    cast_status :
        (session_id : ℕ) (entry : Option (Entry F64)) (media_session_id : ℕ) (offset : F64)
        (d : Daemon F64)
        → Step d ((cast_tick platform session_id entry media_session_id offset d).1)
    session_ended : (session_id : ℕ) (d : Daemon F64) → Step d (auto_stop platform session_id d)

  pub data Run (d : Daemon F64) : Daemon F64 → Type 0 where
    here : Run d d
    next : {e f : Daemon F64} → Run d e → Step e f → Run d f

  disconnected-IsValid :
      (d : Daemon F64) → IsValid d → IsValid (reset_session platform (disconnect_locked d))
  unfolding reset_session disconnect_locked emit profile
  disconnected-IsValid d v =
      reset-IsValid zero_seconds _ (positive v.profile_valid.handed_out) refl refl
    where
      positive : {n m : ℕ} → n < m → 0 < m
      positive h = omega arith

  Ending-IsValid :
      (d : Daemon F64) {r : Daemon F64 × Response F64}
      → IsValid d
      → Ending zero_seconds d r
      → IsValid (r.0)
  Ending-IsValid d v (refused m) = v
  Ending-IsValid d v (gave_up m {e} a s n) = reset-IsValid zero_seconds e (omega arith) a s
  Ending-IsValid d v (casting h) = h.valid

  seek_request-Keeps :
      (env : Env F64) (position : Option F64) (d : Daemon F64)
      → Keeps d ((seek_request platform env position d).0)
  unfolding seek_request
  seek_request-Keeps env none d = Keeps-refl d
  seek_request-Keeps env (some position) d = seek-Keeps platform env position d

  run-IsValid :
      (env : Env F64) (r : Request F64) (c : Command) (d : Daemon F64)
      → IsValid d
      → IsValid ((run platform env r c d).0)
  unfolding run
  run-IsValid env r ping d v = v
  run-IsValid env r status d v = v
  run-IsValid env r deps d v = v
  run-IsValid env r discover d v =
      Keeps-IsValid d (unfold Stored.answer_devices in discover-Keeps platform env r.force d) v
  run-IsValid env r connect d v = Ending-IsValid d v (connect-Ending platform env r.ip r.file d v)
  run-IsValid env r disconnect d v = unfold Lifecycle.disconnect in disconnected-IsValid d v
  run-IsValid env r pause d v = Keeps-IsValid d (pause-Keeps d) v
  run-IsValid env r resume d v = Keeps-IsValid d (resume-Keeps d) v
  run-IsValid env r seek d v = Keeps-IsValid d (seek_request-Keeps env r.position d) v
  run-IsValid env r set_volume d v = Keeps-IsValid d (set_volume-Keeps platform env r.value d) v
  run-IsValid env r set_mute d v = Keeps-IsValid d (set_mute-Keeps env r.value d) v
  run-IsValid env r set_boost d v = Keeps-IsValid d (set_boost-Keeps platform env r.value d) v
  run-IsValid env r set_subtitle d v = Keeps-IsValid d (set_subtitle-Keeps platform env r.value d) v
  run-IsValid env r add_ip d v = Keeps-IsValid d (add_ip-Keeps platform env r.ip d) v
  run-IsValid env r remove_ip d v = Keeps-IsValid d (remove_ip-Keeps platform env r.ip d) v
  run-IsValid env r save_multicast d v =
      Keeps-IsValid d (save_multicast-Keeps platform env r.value d) v
  run-IsValid env r clear_firewall d v = Keeps-IsValid d (clear_firewall-Keeps platform env d) v
  run-IsValid env r shutdown d v = v
  run-IsValid env r (other name) d v = v

  polled-Keeps :
      {A : Type 0} (b : Bool) (d : Daemon F64) (r s : A × Daemon F64)
      → Keeps d (r.1)
      → Keeps d (s.1)
      → Keeps d ((if b then r else s).1)
  polled-Keeps true d r s h k = h
  polled-Keeps false d r s h k = k

  dlna_tick-Keeps :
      (poller : Poller) (reading : Reading F64) (d : Daemon F64)
      → Keeps d ((dlna_tick platform poller reading d).1)
  unfolding dlna_tick profile
  dlna_tick-Keeps poller reading d =
      polled-Keeps _ d _ _
        (announce-Keeps _ _ d _ (record { same_profile = refl; same_media = λ n. refl }))
        (Keeps-refl d)

  airplay_tick-Keeps :
      (poller : Poller) (info : Option (PlaybackInfo F64)) (offset : F64) (grace_over : Bool)
      (d : Daemon F64)
      → Keeps d ((airplay_tick platform poller info offset grace_over d).1)
  unfolding airplay_tick profile
  airplay_tick-Keeps poller none offset grace_over d =
      polled-Keeps _ d _ _
        (announce-Keeps _ _ d _ (record { same_profile = refl; same_media = λ n. refl }))
        (Keeps-refl d)
  airplay_tick-Keeps poller (some info) offset grace_over d =
      polled-Keeps _ d _ _
        (announce-Keeps _ _ d _ (record { same_profile = refl; same_media = λ n. refl }))
        (Keeps-refl d)

  cast_tick-Keeps :
      (session_id : ℕ) (entry : Option (Entry F64)) (media_session_id : ℕ) (offset : F64)
      (d : Daemon F64)
      → Keeps d ((cast_tick platform session_id entry media_session_id offset d).1)
  unfolding cast_tick profile
  cast_tick-Keeps session_id none media_session_id offset d = Keeps-refl d
  cast_tick-Keeps session_id (some entry) media_session_id offset d =
      polled-Keeps _ d _ _
        (announce-Keeps _ _ d _ (record { same_profile = refl; same_media = λ n. refl }))
        (Keeps-refl d)

  auto_stop-IsValid :
      (session_id : ℕ) (d : Daemon F64) → IsValid d → IsValid (auto_stop platform session_id d)
  unfolding auto_stop
  auto_stop-IsValid session_id d v =
      choose (d.session.session_id == session_id && is_terminal d.session.state)
    where
      choose : (b : Bool) → IsValid (if b then reset_session platform (disconnect_locked d) else d)
      choose true = disconnected-IsValid d v
      choose false = v

  Step-IsValid : {d e : Daemon F64} → Step d e → IsValid d → IsValid e
  Step-IsValid (request env r d) v = unfold dispatch in run-IsValid env r (command_of r.cmd) d v
  Step-IsValid (dlna_polled poller reading d) v =
      Keeps-IsValid d (dlna_tick-Keeps poller reading d) v
  Step-IsValid (airplay_polled poller info offset grace_over d) v =
      Keeps-IsValid d (airplay_tick-Keeps poller info offset grace_over d) v
  Step-IsValid (cast_status session_id entry media_session_id offset d) v =
      Keeps-IsValid d (cast_tick-Keeps session_id entry media_session_id offset d) v
  Step-IsValid (session_ended session_id d) v = auto_stop-IsValid session_id d v

  Run-IsValid : {d e : Daemon F64} → IsValid d → Run d e → IsValid e
  Run-IsValid v here = v
  Run-IsValid v (next r s) = Step-IsValid s (Run-IsValid v r)

  new-IsValid :
      (settings : List (Text × Text)) (manual_ips ledger : List Text)
      → IsValid (new zero_seconds settings manual_ips ledger)
  unfolding new
  new-IsValid settings manual_ips ledger = reset-IsValid zero_seconds _ (omega arith) refl refl

  -- Whatever requests, ticks of pollers and of the cast thread, and automatic stops follow the start
  -- of the daemon, in any order and for any session numbers: the session's number was handed out,
  -- at most one receiver is held, and then a file is served to it over the session's own protocol;
  -- without a session, and where nothing is served, no receiver is held and no media server runs.
  pub Run-new-IsValid :
      (settings : List (Text × Text)) (manual_ips ledger : List Text) {d : Daemon F64}
      → Run (new zero_seconds settings manual_ips ledger) d
      → IsValid d
  Run-new-IsValid settings manual_ips ledger r =
      Run-IsValid (new-IsValid settings manual_ips ledger) r
