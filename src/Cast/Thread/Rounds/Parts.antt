-- ===== src/Cast/Thread/Rounds/Parts.antt =====
-- src/cast.rs: each part of a round, and the whole run, by what it leaves and how it ends.
use unicast.Base.{
  ℕ, ◌+◌, ◌%◌, Bool, true, false, not, ◌&&◌, Option, none, some, List, [], ◌∷◌, Text, ◌==◌, ltb,
  ◌≡◌, refl, ◌∙◌, ◌≢◌, inl, inr, arith, Bool-cases, Platform,
}
use unicast.Daemon.State.{Message}
use unicast.Daemon.Poll.{Entry}
use unicast.Cast.Load.{
  MediaResponse, status, load_failed, load_cancelled, invalid_request, error, other,
}
use unicast.Cast.Thread.{
  Thread, Round, Incoming, Sent, heartbeat, unclaimed, timeout, receiver_status, media, broken,
  send, is_stale, set_error, error_session, finish, finish_where, end_with, announce_end, teardown,
  adopt, adopted, is_watched,
}
use unicast.Cast.Thread.Quiet.{
  Quiet, Quiet-refl, Quiet-trans, Quiet-if, Quiet-untouched, send-Quiet, update-Quiet,
}
use unicast.Cast.Thread.Commands.Obeying.{
  publish_volume-Quiet, publish_answer-Quiet, publish_status-Quiet,
}
use unicast.Cast.Thread.Rounds.{
  hear, poll, listen, hear_status, hear_media, fail_with, count_error, received, poll_volume,
  poll_media, polled_answer, count_poll,
}
use unicast.Cast.Thread.Rounds.Closing.{
  Closes, Closes-Quiet, Closes-after, Closes-if, Closes-then, Closes-unless, finish-Closes,
  stopped-Closes, stale-Closes, lost-Closes,
}

module _ {F : Type 0} where
  finish_where-Closes : (b : Bool) (t : Thread F) → Closes t (finish_where b t)
  unfolding finish_where
  finish_where-Closes b t = Closes-if b (finish-Closes t) (Closes-Quiet (Quiet-refl true t))

  -- A media session that is known is not changed.
  adopted_known : (entries : List (Entry F)) (n : ℕ) → n ≢ 0 → adopted entries n ≡ n
  unfolding adopted
  adopted_known [] n known = refl
  adopted_known (entry ∷ entries) n known = ground arith

  adopt-Closes : (entries : List (Entry F)) (t : Thread F) → Closes t (adopt entries t)
  unfolding adopt
  adopt-Closes entries t = record {
    within = record { same_id = refl; same_profile = refl; foreign = λ h. refl };
    tallied = λ e k. record { events = k.events; stops = k.stops };
    same_media = adopted_known entries t.media_session_id;
  }

module _ (platform : Platform) where
  open platform use {F64}

  hear_status-Closes :
      (entries : List (Entry F64)) (t : Thread F64) → Closes t (hear_status platform entries t)
  unfolding hear_status
  hear_status-Closes entries t =
      Closes-after (publish_status-Quiet platform true t.media_session_id entries t)
        (Closes-then (adopt-Closes entries _) refl (finish_where-Closes _ _))

  fail_with-Closes : (message : Message) (t : Thread F64) → Closes t (fail_with platform message t)
  unfolding fail_with set_error error_session
  fail_with-Closes message t =
      Closes-after (update-Quiet true (error_session message) t λ s. refl) (finish-Closes _)

  hear_media-Closes :
      (response : MediaResponse F64) (t : Thread F64) → Closes t (hear_media platform response t)
  unfolding hear_media
  hear_media-Closes (status id entries) t = hear_status-Closes entries t
  hear_media-Closes (load_failed id) t = fail_with-Closes Message.load_failed t
  hear_media-Closes (load_cancelled id) t = Closes-Quiet (Quiet-refl true t)
  hear_media-Closes (error m) t = fail_with-Closes (Message.receiver_reported m) t
  hear_media-Closes (invalid_request m) t = Closes-Quiet (Quiet-refl true t)
  hear_media-Closes other t = Closes-Quiet (Quiet-refl true t)

  count_error-Closes : (m : Text) (t : Thread F64) → Closes t (count_error platform m t)
  unfolding count_error set_error error_session
  count_error-Closes m t =
      Closes-if (ltb 5 t.consecutive_errors)
        (Closes-after (update-Quiet true (error_session Message.lost_connection) t λ s. refl)
          (lost-Closes m _))
        (Closes-Quiet (Quiet-refl true t))

  errors-Closes : (n : ℕ) (t : Thread F64) → Closes t (record t { consecutive_errors = n })
  errors-Closes n t = record {
    within = record { same_id = refl; same_profile = refl; foreign = λ h. refl };
    tallied = λ e k. record { events = k.events; stops = k.stops };
    same_media = λ h. refl;
  }

  pub hear-Closes : (i : Incoming F64) (t : Thread F64) → Closes t (hear platform i t)
  unfolding hear received
  hear-Closes heartbeat t =
      Closes-then (errors-Closes 0 t) refl (Closes-Quiet (send-Quiet true Sent.pong _ refl refl))
  hear-Closes (receiver_status volume) t =
      Closes-then (errors-Closes 0 t) refl
        (Closes-Quiet (publish_volume-Quiet platform true volume _))
  hear-Closes (media response) t =
      Closes-then (errors-Closes 0 t) refl (hear_media-Closes response _)
  hear-Closes unclaimed t = errors-Closes 0 t
  hear-Closes timeout t = Closes-Quiet (Quiet-refl true t)
  hear-Closes (broken m) t =
      Closes-then (errors-Closes (t.consecutive_errors + 1) t) refl (count_error-Closes m _)

  poll_volume-Quiet : (r : Round F64) (t : Thread F64) → Quiet true t (poll_volume platform r t)
  unfolding poll_volume
  poll_volume-Quiet r t =
      Quiet-if (t.polls % 5 == 0)
        (Quiet-trans (send-Quiet true Sent.get_volume t refl refl)
          (publish_answer-Quiet platform true r.polled_volume _))
        (Quiet-refl true t)

  polled_answer-Closes :
      (answer : Option (List (Entry F64))) (t : Thread F64)
      → Closes t (polled_answer platform answer t)
  unfolding polled_answer
  polled_answer-Closes none t = Closes-Quiet (Quiet-refl true t)
  polled_answer-Closes (some entries) t =
      Closes-after (publish_status-Quiet platform true t.media_session_id entries t)
        (finish_where-Closes _ _)

  poll_media-Closes : (r : Round F64) (t : Thread F64) → Closes t (poll_media platform r t)
  unfolding poll_media
  poll_media-Closes r t = Closes-if (t.media_session_id == 0) (Closes-Quiet (Quiet-refl true t)) (
      Closes-after (send-Quiet true (Sent.get_status t.media_session_id) t refl refl)
        (polled_answer-Closes r.polled_status _))

  pub poll-Closes : (r : Round F64) (t : Thread F64) → Closes t (poll platform r t)
  unfolding poll count_poll
  poll-Closes r t =
      Closes-if ((not (is_stale t) && is_watched t.session.state) && r.interval_over)
        (Closes-after (Quiet-untouched refl refl refl refl refl refl)
          (Closes-after (poll_volume-Quiet r (count_poll platform t)) (poll_media-Closes r _)))
        (Closes-Quiet (Quiet-refl true t))

  pub listen-Closes : (r : Round F64) (t : Thread F64) → Closes t (listen platform r t)
  unfolding listen
  listen-Closes r t = Closes-if (not t.running) (stopped-Closes t) (
      Closes-if (is_stale t) (stale-Closes t)
        (Closes-unless (poll platform r) (hear-Closes r.incoming t) (poll-Closes r _)))

  finish_where-errors :
      (b : Bool) (t : Thread F64) → (finish_where b t).consecutive_errors ≡ t.consecutive_errors
  unfolding finish_where finish end_with announce_end teardown send
  finish_where-errors true t = refl
  finish_where-errors false t = refl

  polled_answer-errors :
      (answer : Option (List (Entry F64))) (t : Thread F64)
      → (polled_answer platform answer t).consecutive_errors ≡ t.consecutive_errors
  unfolding polled_answer
  polled_answer-errors none t = refl
  polled_answer-errors (some entries) t =
      finish_where-errors _ _
      ∙ (publish_status-Quiet platform true t.media_session_id entries t).same_errors

  poll_media-errors :
      (r : Round F64) (t : Thread F64)
      → (poll_media platform r t).consecutive_errors ≡ t.consecutive_errors
  unfolding poll_media send
  poll_media-errors r t = elim (Bool-cases (t.media_session_id == 0)) [
    | inl e ↦ simp e refl
    | inr e ↦
        simp e (polled_answer-errors r.polled_status (send (Sent.get_status t.media_session_id) t))
  ]

  -- A poll counts no error.
  pub poll-errors :
      (r : Round F64) (t : Thread F64)
      → (poll platform r t).consecutive_errors ≡ t.consecutive_errors
  unfolding poll count_poll
  poll-errors r t =
      elim (Bool-cases ((not (is_stale t) && is_watched t.session.state) && r.interval_over)) [
        | inl e ↦ simp e (
            poll_media-errors r (poll_volume platform r (count_poll platform t))
            ∙ (poll_volume-Quiet r (count_poll platform t)).same_errors)
        | inr e ↦ simp e refl
      ]
