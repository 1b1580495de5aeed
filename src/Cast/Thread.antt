-- ===== src/Cast/Thread.antt =====
-- src/cast.rs: the thread of a cast: `run_session` after its handshake, a round of its loop at a
-- time. The session that it shares with the daemon is a field; the daemon writes it between rounds.
-- What the thread sends, and the event at its end, are listed in `sent`. Every media request goes to
-- the launched application. The read timeouts are not modelled.
pub mod Commands
pub mod Quiet
pub mod Rounds
pub mod Start
mod Tests
use unicast.Base.{
  ℕ, ◌+◌, ◌*◌, ◌%◌, Bool, true, false, not, ◌&&◌, ◌||◌, Option, none, some, List, [], ◌∷◌, ◌++◌,
  Text, codes, ◌==◌, ltb, if◌then◌else◌, u32_max, min, Platform,
}
use unicast.Daemon.State.{Session, SessionState, Message, CastCommand}
use unicast.Daemon.Poll.{Entry, cast_verdict, cast_times}
use unicast.Cast.Load.{
  CastOptions, Json, MediaResponse, status, load_failed, load_cancelled, invalid_request, error,
  other, Result, done, failed, Replies, load_media, edit_tracks,
}

pub record Volume (F : Type 0) : Type 0 where
  pub level : Option F
  pub muted : Option Bool

-- What the thread sends; `get_volume` is the receiver's status, `ended` the event to the daemon.
pub data Sent (F : Type 0) : Type 0 where
  connect : Text → Sent F
  ping launch_app pong get_volume : Sent F
  pause play stop get_status : ℕ → Sent F
  seek : ℕ → F → Sent F
  -- a level in percent
  set_volume : ℕ → Sent F
  set_muted : Bool → Sent F
  json : Json F → Sent F
  stop_app : Text → Sent F
  ended : ℕ → Sent F

-- How the thread ends: its session is gone, a command, the end of playback, or the lost connection.
pub data Ending : Type 0 where
  stale stopped finished : Ending
  lost : Text → Ending

pub record Thread (F : Type 0) : Type 0 where
  pub session_id : ℕ
  pub app_session : Text
  pub title : Text
  pub content_url : Text
  pub options : CastOptions F
  pub position_offset : F
  pub media_session_id : ℕ
  pub consecutive_errors : ℕ
  pub polls : ℕ
  pub running : Bool
  pub ending : Option Ending
  pub session : Session F
  pub sent : List (Sent F)

-- A command that the thread takes, and what the receiver answers to it.
pub record Order (F : Type 0) : Type 0 where
  pub command : CastCommand F
  -- whether a pause, a play or a seek is accepted
  pub accepted : Bool
  pub volume : Option (Volume F)
  pub replies : Replies F
  pub keyframe_at_or_before : F → Option F

-- What `receive` returns.
pub data Incoming (F : Type 0) : Type 0 where
  heartbeat unclaimed timeout : Incoming F
  receiver_status : Volume F → Incoming F
  media : MediaResponse F → Incoming F
  broken : Text → Incoming F

-- One round: the commands that wait, the message, and what the poll would learn.
pub record Round (F : Type 0) : Type 0 where
  pub orders : List (Order F)
  pub incoming : Incoming F
  pub interval_over : Bool
  pub polled_volume : Option (Volume F)
  pub polled_status : Option (List (Entry F))

paused_of : SessionState → SessionState
paused_of SessionState.playing = SessionState.paused
paused_of s = s

playing_of : SessionState → SessionState
playing_of SessionState.paused = SessionState.playing
playing_of s = s

is_watched : SessionState → Bool
is_watched SessionState.playing = true
is_watched SessionState.paused = true
is_watched _ = false

module _ {F : Type 0} where
  unfoldable pub send : Sent F → Thread F → Thread F
  send request t = record t { sent = t.sent ++ request ∷ [] }

  unfoldable pub is_stale : Thread F → Bool
  is_stale t = not (t.session.session_id == t.session_id)

  -- `update`, on the session: it is left alone where it is another one.
  unfoldable pub guarded : ℕ → (Session F → Session F) → Session F → Session F
  guarded session_id apply session =
      if session.session_id == session_id then apply session else session

  unfoldable pub update : (Session F → Session F) → Thread F → Thread F
  unfolding guarded
  update apply t = record t { session = guarded t.session_id apply t.session }

  error_session : Message → Session F → Session F
  error_session message session = record session {
    state = SessionState.error;
    error = some message;
  }

  unfoldable pub set_error : Message → Thread F → Thread F
  unfolding update error_session
  set_error message = update (error_session message)

  unfoldable pub teardown : Thread F → Thread F
  teardown t = record t {
    sent =
        t.sent
        ++ ((if t.media_session_id == 0 then [] else stop t.media_session_id ∷ [])
            ++ stop_app t.app_session ∷ []);
  }

  unfoldable pub end_with : Ending → Thread F → Thread F
  end_with how t = record t { ending = some how }

  unfoldable pub announce_end : Thread F → Thread F
  unfolding send
  announce_end t = send (ended t.session_id) t

  -- The end of playback.
  unfoldable pub finish : Thread F → Thread F
  unfolding teardown announce_end end_with
  finish t = end_with finished (announce_end (teardown t))

  unfoldable pub first_media_session : List (Entry F) → ℕ → ℕ
  first_media_session [] current = current
  first_media_session (entry ∷ entries) current = entry.media_session_id

  -- A status names the media session where none is known.
  unfoldable pub adopted : List (Entry F) → ℕ → ℕ
  adopted [] current = current
  adopted (entry ∷ entries) current =
      if current == 0 || entry.media_session_id == current then entry.media_session_id else current

  unfoldable pub adopt : List (Entry F) → Thread F → Thread F
  unfolding adopted
  adopt entries t = record t { media_session_id = adopted entries t.media_session_id }

  buffering_at : F → Session F → Session F
  buffering_at position session = record session {
    position = position;
    state = SessionState.buffering;
  }

  -- After a load: the new media session, and the position where it starts.
  unfoldable pub after_load : F → Result (List (Entry F)) → Thread F → Thread F
  unfolding first_media_session guarded buffering_at
  after_load position (failed m) t = t
  after_load position (done entries) t = record t {
    media_session_id = first_media_session entries t.media_session_id;
    session = guarded t.session_id (buffering_at position) t.session;
  }

  with_subtitle : Option ℕ → Session F → Session F
  with_subtitle track session = record session { subtitle = track }

  after_edit : Option ℕ → Result (Unit {0}) → Thread F → Thread F
  unfolding update with_subtitle
  after_edit track (failed m) t = t
  after_edit track (done _) t = update (with_subtitle track) t

  with_state : (SessionState → SessionState) → Session F → Session F
  with_state f session = record session { state = f session.state }

  -- A command that the receiver accepts changes the session's state.
  accepted_state : (SessionState → SessionState) → Bool → Thread F → Thread F
  unfolding update with_state
  accepted_state f accepted t = if accepted then update (with_state f) t else t

  unfoldable pub finish_where : Bool → Thread F → Thread F
  unfolding finish
  finish_where is_over t = if is_over then finish t else t

  -- Rounds, and what follows within one, are for a thread that has not ended.
  unfoldable pub by_ending : Option Ending → Thread F → Thread F → Thread F
  by_ending none u t = u
  by_ending (some how) u t = t

  unfoldable pub unless_ended : (Thread F → Thread F) → Thread F → Thread F
  unfolding by_ending
  unless_ended f t = by_ending t.ending (f t) t
