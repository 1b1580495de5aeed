-- ===== src/Cast/Thread/Rounds.antt =====
-- src/cast.rs: a round of the loop of `run_session`: the commands, one message, and the poll.
pub mod Closing
pub mod Parts
pub mod Run
pub mod Broken
use unicast.Base.{
  ℕ, ◌+◌, ◌%◌, ◌==◌, Bool, true, false, not, ◌&&◌, Option, none, some, List, [], ◌∷◌, Text, codes,
  ltb, u32_max, if◌then◌else◌, Platform,
}
use unicast.Daemon.State.{Message, Session}
use unicast.Daemon.Poll.{Entry}
use unicast.Cast.Load.{
  MediaResponse, status, load_failed, load_cancelled, invalid_request, error, other,
}
use unicast.Cast.Thread.{
  Thread, Round, Incoming, Ending, Sent, stale, stopped, lost, heartbeat, unclaimed, timeout,
  receiver_status, media, broken, send, is_stale, set_error, teardown, end_with, announce_end,
  finish, finish_where, is_watched, adopt, unless_ended,
}
use unicast.Cast.Thread.Commands.{
  obey_all, publish_volume, publish_answer, publish_status, status_ended,
}

module _ (platform : Platform) where
  open platform use {F64}

  -- A status of the player: where it ends playback, so does the thread.
  hear_status : List (Entry F64) → Thread F64 → Thread F64
  unfolding publish_status status_ended adopt finish_where
  hear_status entries t =
      finish_where (status_ended platform t.media_session_id entries t)
        (adopt entries (publish_status platform t.media_session_id entries t))

  fail_with : Message → Thread F64 → Thread F64
  unfolding set_error finish
  fail_with message t = finish (set_error message t)

  hear_media : MediaResponse F64 → Thread F64 → Thread F64
  unfolding hear_status fail_with
  hear_media (status id entries) t = hear_status entries t
  hear_media (load_failed id) t = fail_with Message.load_failed t
  hear_media (load_cancelled id) t = t
  hear_media (error m) t = fail_with (Message.receiver_reported m) t
  hear_media (invalid_request m) t = t
  hear_media other t = t

  -- Only a run of more than five errors means that the connection is lost.
  count_error : Text → Thread F64 → Thread F64
  unfolding set_error announce_end end_with
  count_error m t =
      if ltb 5 t.consecutive_errors
      then end_with (lost m) (announce_end (set_error Message.lost_connection t))
      else t

  received : Thread F64 → Thread F64
  received t = record t { consecutive_errors = 0 }

  unfoldable pub hear : Incoming F64 → Thread F64 → Thread F64
  unfolding received send hear_media publish_volume count_error
  hear heartbeat t = send Sent.pong (received t)
  hear (receiver_status volume) t = publish_volume platform volume (received t)
  hear (media response) t = hear_media response (received t)
  hear unclaimed t = received t
  hear timeout t = t
  hear (broken m) t = count_error m (record t { consecutive_errors = t.consecutive_errors + 1 })

  -- Every fifth poll asks for the volume too.
  poll_volume : Round F64 → Thread F64 → Thread F64
  unfolding send publish_answer
  poll_volume r t =
      if t.polls % 5 == 0
      then publish_answer platform r.polled_volume (send Sent.get_volume t)
      else t

  polled_answer : Option (List (Entry F64)) → Thread F64 → Thread F64
  unfolding publish_status status_ended finish_where
  polled_answer none t = t
  polled_answer (some entries) t =
      finish_where (status_ended platform t.media_session_id entries t)
        (publish_status platform t.media_session_id entries t)

  poll_media : Round F64 → Thread F64 → Thread F64
  unfolding send polled_answer
  poll_media r t =
      if t.media_session_id == 0
      then t
      else polled_answer r.polled_status (send (Sent.get_status t.media_session_id) t)

  count_poll : Thread F64 → Thread F64
  count_poll t = record t { polls = (t.polls + 1) % (u32_max + 1) }

  unfoldable pub poll : Round F64 → Thread F64 → Thread F64
  unfolding count_poll poll_volume poll_media is_stale is_watched
  poll r t =
      if (not (is_stale t) && is_watched t.session.state) && r.interval_over
      then poll_media r (poll_volume r (count_poll t))
      else t

  -- The round after its commands.
  unfoldable pub listen : Round F64 → Thread F64 → Thread F64
  unfolding end_with teardown is_stale hear poll unless_ended
  listen r t =
      if not t.running
      then end_with stopped (teardown t)
      else (if is_stale t then end_with stale t else unless_ended (poll r) (hear r.incoming t))

  unfoldable pub round_of : Round F64 → Thread F64 → Thread F64
  unfolding obey_all listen unless_ended
  round_of r = unless_ended λ t. listen r (obey_all platform r.orders t)

  -- Between rounds the daemon writes the session.
  pub data Move : Type 0 where
    round : Round F64 → Move
    written : Session F64 → Move

  unfoldable pub move : Move → Thread F64 → Thread F64
  unfolding round_of
  move (round r) t = round_of r t
  move (written session) t = record t { session = session }

  unfoldable pub run : List Move → Thread F64 → Thread F64
  unfolding move
  run [] t = t
  run (m ∷ moves) t = run moves (move m t)
