-- ===== src/Daemon/Poll.antt =====
-- src/daemon.rs: one tick of `dlna_poll` and of `airplay_poll`; src/cast.rs: `publish_status`, what
-- the cast thread makes of a status. A poller that ends is `none`. What the receiver answers is a
-- `Reading`.
pub mod Watchdog
use unicast.Base.{
  ℕ, ◌+◌, ◌%◌, Bool, true, false, not, ◌&&◌, ◌||◌, Option, none, some, [], ◌∷◌, Text, codes, ◌==◌,
  leb, if◌then◌else◌, eq_text, u32_max, Platform,
}
use unicast.Daemon.State.{Daemon, Session, SessionState, Effect, Message}
use unicast.Daemon.Env.{emit}

-- `POLL_UNREACHABLE_LIMIT`
abbrev pub poll_unreachable_limit : ℕ
poll_unreachable_limit = 20

pub record Poller : Type 0 where
  pub session_id : ℕ
  -- whether the renderer has a volume service
  pub rendering : Bool
  pub seen_active : Bool
  pub ticks : ℕ
  pub unreachable : ℕ

pub record Reading (F : Type 0) : Type 0 where
  pub transport : Text
  pub duration : Option F
  pub position : Option F
  pub volume : Option ℕ
  pub muted : Option Bool
  -- what the cell that is shared with the daemon holds, and whether START_GRACE is over
  pub offset : F
  pub grace_over : Bool

pub record PlaybackInfo (F : Type 0) : Type 0 where
  pub playing : Bool
  pub position : F
  pub duration : F

-- The session's state, whether the receiver was ever active, and whether playback ended.
pub record Verdict : Type 0 where
  pub state : SessionState
  pub error : Option Message
  pub seen_active : Bool
  pub ended : Bool

running : SessionState → Option Message → Verdict
running state message = record { state = state; error = message; seen_active = true; ended = false }

over : SessionState → Option Message → Bool → Verdict
over state message seen = record {
  state = state;
  error = message;
  seen_active = seen;
  ended = true;
}

-- The transport state that the renderer reports.
unfoldable pub transport_verdict : Text → Bool → SessionState → Option Message → Verdict
unfolding running over
transport_verdict transport seen state message =
    if eq_text transport (codes "PLAYING")
    then running SessionState.playing message
    else (if eq_text transport (codes "PAUSED_PLAYBACK")
        then running SessionState.paused message
        else (if eq_text transport (codes "TRANSITIONING")
            then record {
              state = SessionState.buffering;
              error = message;
              seen_active = seen;
              ended = false;
            }
            else (if (eq_text transport (codes "STOPPED")
                    || eq_text transport (codes "NO_MEDIA_PRESENT"))
                  && seen
                then over SessionState.stopped message seen
                else record { state = state; error = message; seen_active = seen; ended = false })))

-- A renderer that went away, or that never started, does not leave the session hanging.
unfoldable pub watchdog : ℕ → Bool → Verdict → Verdict
unfolding over
watchdog unreachable grace_over v =
    if v.ended
    then v
    else (if leb poll_unreachable_limit unreachable
        then over SessionState.error (some Message.lost_connection) v.seen_active
        else (if not v.seen_active && grace_over
            then over SessionState.error (some Message.did_not_start) v.seen_active
            else v))

next_unreachable : Text → ℕ → ℕ
next_unreachable transport n = if eq_text transport (codes "UNKNOWN") then n + 1 else 0

unfoldable pub dlna_verdict : {F : Type 0} → Poller → Reading F → Session F → Verdict
unfolding next_unreachable transport_verdict watchdog
dlna_verdict poller reading session =
    watchdog (next_unreachable reading.transport poller.unreachable) reading.grace_over
      (transport_verdict reading.transport poller.seen_active session.state session.error)

-- The poller reads the volume on every third tick only, where the renderer has one.
reads_volume : Poller → Bool
reads_volume poller = poller.rendering && poller.ticks % 3 == 0

keep : {A : Type 0} → Option A → A → A
keep none a = a
keep (some b) a = b

keep_some : {A : Type 0} → Option A → Option A → Option A
keep_some none a = a
keep_some (some b) a = some b

-- The thread or the poller announces the end of its session.
unfoldable pub announce : {F : Type 0} → Bool → ℕ → Daemon F → Daemon F
unfolding emit
announce ended session_id d = if ended then emit (Effect.session_ended session_id ∷ []) d else d

pub data PlayerState : Type 0 where
  idle playing buffering paused : PlayerState

pub data IdleReason : Type 0 where
  cancelled interrupted finished error : IdleReason

-- An entry of a media status of the crate rust_cast. A media session is an i32 by its bits, so -1 is
-- `u32_max`.
pub record Entry (F : Type 0) : Type 0 where
  pub media_session_id : ℕ
  pub player_state : PlayerState
  pub idle_reason : Option IdleReason
  pub current_time : Option F
  pub duration : Option F
  -- the medium that the player holds
  pub content_id : Option Text

-- What an idle player makes of the session; `current` tells whether the entry is of the current
-- media session.
idle_verdict : Option IdleReason → Bool → SessionState → Option Message → Verdict
unfolding over
idle_verdict none current state message = record {
  state = state;
  error = message;
  seen_active = true;
  ended = false;
}
idle_verdict (some error) current state message =
    over SessionState.error (some Message.could_not_play) true
idle_verdict (some finished) current state message = over SessionState.stopped message true
idle_verdict (some cancelled) current state message =
    if current then over SessionState.stopped message true else running state message
idle_verdict (some interrupted) current state message =
    if current then over SessionState.stopped message true else running state message

unfoldable pub cast_verdict : {F : Type 0} → Entry F → ℕ → SessionState → Option Message → Verdict
unfolding running idle_verdict
cast_verdict entry media_session_id state message = elim entry.player_state [
  | playing ↦ running SessionState.playing message
  | buffering ↦ running SessionState.buffering message
  | paused ↦ running SessionState.paused message
  | idle ↦
      idle_verdict entry.idle_reason
        (media_session_id == 0 || entry.media_session_id == media_session_id) state message
]

module _ (platform : Platform) where
  open platform use {F64, zero_seconds, max_media_seconds, is_finite, lt, le, add}

  unfoldable pub media_seconds : F64 → F64
  media_seconds value =
      if is_finite value && (le zero_seconds value && le value max_media_seconds)
      then value
      else zero_seconds

  known_duration : Option F64 → F64 → F64
  known_duration none old = old
  known_duration (some duration) old = if lt zero_seconds duration then duration else old

  shifted : Option F64 → F64 → F64 → F64
  shifted none offset old = old
  shifted (some position) offset old = add position offset

  dlna_session : Bool → Reading F64 → Verdict → Session F64 → Session F64
  unfolding known_duration shifted keep keep_some
  dlna_session volume_read reading v session = record session {
    state = v.state;
    error = v.error;
    duration = known_duration reading.duration session.duration;
    position = shifted reading.position reading.offset session.position;
    volume = if volume_read then keep_some reading.volume session.volume else session.volume;
    muted = if volume_read then keep reading.muted session.muted else session.muted;
  }

  dlna_next : Poller → Reading F64 → Verdict → Option Poller
  unfolding next_unreachable
  dlna_next poller reading v =
      if v.ended
      then none
      else some (record poller {
        seen_active = v.seen_active;
        ticks = (poller.ticks + 1) % (u32_max + 1);
        unreachable = next_unreachable reading.transport poller.unreachable;
      })

  unfoldable pub dlna_tick : Poller → Reading F64 → Daemon F64 → Option Poller × Daemon F64
  unfolding dlna_session dlna_next dlna_verdict reads_volume announce
  dlna_tick poller reading d =
      let v = dlna_verdict poller reading d.session in
      if d.session.session_id == poller.session_id
      then (
        dlna_next poller reading v,
        announce v.ended poller.session_id
            (record d { session = dlna_session (reads_volume poller) reading v d.session }),
      )
      else (none, d)

  unfoldable pub airplay_verdict :
      Option (PlaybackInfo F64) → Bool → Bool → SessionState → Option Message → Verdict
  unfolding running over
  airplay_verdict (some info) seen grace_over state message =
      if info.playing
      then running SessionState.playing message
      else running SessionState.paused message
  airplay_verdict none seen grace_over state message =
      if seen
      then over SessionState.stopped message seen
      else (if grace_over
          then over SessionState.error (some Message.did_not_start) seen
          else record { state = state; error = message; seen_active = seen; ended = false })

  -- `offset == 0.0` is `not (offset < 0.0) && not (0.0 < offset)`: an offset is never NaN.
  airplay_times : Option (PlaybackInfo F64) → F64 → Session F64 → Session F64
  airplay_times none offset session = session
  airplay_times (some info) offset session = record session {
    position = add info.position offset;
    duration =
        if lt zero_seconds info.duration && (le offset zero_seconds && le zero_seconds offset)
        then info.duration
        else session.duration;
  }

  airplay_session : Option (PlaybackInfo F64) → F64 → Verdict → Session F64 → Session F64
  unfolding airplay_times
  airplay_session info offset v session = record (airplay_times info offset session) {
    state = v.state;
    error = v.error;
  }

  unfoldable pub airplay_tick :
      Poller → Option (PlaybackInfo F64) → F64 → Bool → Daemon F64 → Option Poller × Daemon F64
  unfolding airplay_session airplay_verdict announce
  airplay_tick poller info offset grace_over d =
      let v = airplay_verdict info poller.seen_active grace_over d.session.state d.session.error in
      if d.session.session_id == poller.session_id
      then (
        if v.ended then none else some (record poller { seen_active = v.seen_active }),
        announce v.ended poller.session_id
            (record d { session = airplay_session info offset v d.session }),
      )
      else (none, d)

  unfoldable pub cast_times : Entry F64 → F64 → Session F64 → Session F64
  unfolding media_seconds
  cast_times entry offset session = record session {
    position = elim entry.current_time [
      | none ↦ session.position
      | some position ↦ add (media_seconds position) offset
    ];
    duration = elim entry.duration [
      | none ↦ session.duration
      | some duration ↦
          if le session.duration zero_seconds then media_seconds duration else session.duration
    ];
  }

  -- `publish_status`, and the event that the thread sends where playback ended. A status without an
  -- entry changes nothing.
  unfoldable pub cast_tick : ℕ → Option (Entry F64) → ℕ → F64 → Daemon F64 → Bool × Daemon F64
  unfolding cast_times cast_verdict announce
  cast_tick session_id none media_session_id offset d = (false, d)
  cast_tick session_id (some entry) media_session_id offset d =
      let v = cast_verdict entry media_session_id d.session.state d.session.error in
      if d.session.session_id == session_id
      then (
        v.ended,
        announce v.ended session_id (record d {
          session = record (cast_times entry offset d.session) { state = v.state; error = v.error };
        }),
      )
      else (false, d)
