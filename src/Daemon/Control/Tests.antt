-- ===== src/Daemon/Control/Tests.antt =====
-- src/daemon.rs: volume and mute at concrete inputs.
use unicast.Base.{◌≡◌, refl, true, some, [], codes, ℕ, trim, is_whitespace, parse_uint, eq_text}
use unicast.Daemon.State.{Daemon, SessionState, Protocol, default_session, nothing_active}
use unicast.Daemon.Run.{new}
use unicast.Daemon.Serve.{parse_percent, parse_bool}
use unicast.Daemon.Control.{set_volume, set_mute}
use unicast.Daemon.Control.Levels.{Level, TellsVolume, TellsMute, levels_told}
use unicast.Daemon.Sample.{env}
use unicast.Sample.{platform}

abbrev casting : Daemon ℕ
casting = record (new 0 [] [] []) {
  session = record (default_session 0) {
    session_id = 7;
    state = SessionState.playing;
    protocol = Protocol.cast;
  };
  active = record nothing_active { cast = some 7 };
}

fifty : parse_percent platform (codes "50000") ≡ some 50
unfolding parse_percent trim is_whitespace parse_uint
fifty = refl

on : parse_bool (codes "on") ≡ some true
unfolding parse_bool trim is_whitespace eq_text
on = refl

levels_told_example :
    Level
      (TellsVolume env 50 casting)
      (λ session. record session { volume = some 50 })
      casting
      (set_volume platform env (codes "50000") casting)
    × Level
        (TellsMute env true casting)
        (λ session. record session { muted = true })
        casting
        (set_mute env (codes "on") casting)
levels_told_example = levels_told platform env (codes "50000") (codes "on") 50 true casting fifty on
