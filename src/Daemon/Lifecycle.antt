-- ===== src/Daemon/Lifecycle.antt =====
-- src/daemon.rs: tearing a session down, failing it, and the automatic stop.
use unicast.Base.{
  ℕ, Bool, true, false, Option, none, some, List, [], ◌∷◌, ◌++◌, ◌==◌, ◌&&◌, if◌then◌else◌,
  Platform,
}
use unicast.Daemon.State.{
  Daemon, Active, DlnaSession, AirplaySession, MediaServer, Effect, CastCommand, Message, Response,
  SessionState, is_active, error, stopped, default_session, nothing_active,
}
use unicast.Daemon.Env.{emit, with_status}

unfoldable pub is_terminal : SessionState → Bool
is_terminal stopped = true
is_terminal error = true
is_terminal _ = false

module _ {F : Type 0} where
  dlna_teardown : Option (DlnaSession F) → List (Effect F)
  dlna_teardown none = []
  dlna_teardown (some s) = Effect.abort_poller s.poller ∷ Effect.dlna_stop s.control_url ∷ []

  cast_teardown : Option ℕ → List (Effect F)
  cast_teardown none = []
  cast_teardown (some thread) = Effect.cast_command CastCommand.shutdown ∷ []

  airplay_teardown : Option (AirplaySession F) → List (Effect F)
  airplay_teardown none = []
  airplay_teardown (some s) = Effect.abort_poller s.poller ∷ Effect.airplay_stop s.ip s.port ∷ []

  media_teardown : Option MediaServer → List (Effect F)
  media_teardown none = []
  media_teardown (some server) = Effect.server_stopped ∷ []

  -- What `disconnect_locked` does, in its order.
  unfoldable pub teardown : Active F → List (Effect F)
  unfolding dlna_teardown cast_teardown airplay_teardown media_teardown
  teardown a =
      dlna_teardown a.dlna
      ++ (cast_teardown a.cast ++ (airplay_teardown a.airplay ++ media_teardown a.media))

  unfoldable pub disconnect_locked : Daemon F → Daemon F
  unfolding teardown emit
  disconnect_locked d = record (emit (teardown d.active) d) { active = nothing_active }

  -- A failure of the whole session: only an active one fails, and its end is announced.
  unfoldable pub fail_session : Message → Daemon F → Daemon F
  unfolding emit is_active
  fail_session message d =
      if is_active d.session.state
      then emit (Effect.session_ended d.session.session_id ∷ [])
          (record d { session = record (d.session) { state = error; error = some message } })
      else d

module _ (platform : Platform) where
  open platform use {F64, zero_seconds}

  unfoldable pub reset_session : Daemon F64 → Daemon F64
  reset_session d = record d { session = default_session zero_seconds }

  unfoldable pub disconnect : Daemon F64 → Daemon F64 × Response F64
  unfolding disconnect_locked reset_session
  disconnect d = with_status (reset_session (disconnect_locked d))

  unfoldable pub auto_stop : ℕ → Daemon F64 → Daemon F64
  unfolding disconnect_locked reset_session is_terminal
  auto_stop session_id d =
      if d.session.session_id == session_id && is_terminal d.session.state
      then reset_session (disconnect_locked d)
      else d
