-- ===== src/Cast/Thread/Tests.antt =====
-- src/cast.rs: the thread at concrete inputs.
use unicast.Base.{
  ℕ, ◌≡◌, refl, ◌≢◌, ◌⊎◌, inl, true, false, none, some, List, [], ◌∷◌, codes, map, arith,
}
use unicast.Sample.{platform}
use unicast.Daemon.State.{Session, CastCommand, SessionState, default_session}
use unicast.Daemon.Poll.{Entry, PlayerState}
use unicast.Cast.Load.{
  Replies, Result, load_media, load_reply, done, failed, MediaResponse, status, Found, mine,
  not_mine, refused,
}
use unicast.Cast.Load.Answers.{FindsMine}
use unicast.Cast.Thread.{
  first_media_session, Thread, Order, Incoming, Round, stale, stopped, broken, media, heartbeat,
}
use unicast.Cast.Thread.Quiet.{count, is_event, profile}
use unicast.Cast.Thread.Commands.Obeying.{all_keep}
use unicast.Cast.Thread.Commands.{
  publish_status, publish_answer, obey_command, seek_cast, seek_start,
}
use unicast.Cast.Thread.Commands.Loading.{Answered, Shifted, reload_adopts, seek_fails}
use unicast.Cast.Thread.Start.{
  Job, Setup, start, ready_result, open_channel, handshake, first_load, started, loaded_thread,
}
use unicast.Cast.Thread.Rounds.{round, round_of, run}
use unicast.Cast.Thread.Rounds.Closing.{Tallied}
use unicast.Cast.Thread.Rounds.Run.{run-start-Tallied, round_of_foreign, round_of_keeps}
use unicast.Cast.Thread.Rounds.Broken.{run_broken}

abbrev session : Session ℕ
session = record (default_session 0) {
  session_id = 7;
  state = SessionState.playing;
  ip = codes "tv";
}

abbrev playing : Entry ℕ
playing = record {
  media_session_id = 3;
  player_state = PlayerState.playing;
  idle_reason = none;
  current_time = some 12;
  duration = some 600;
  content_id = some (codes "http://a/media");
}

abbrev answer : MediaResponse ℕ
answer = status 5 (playing ∷ [])

-- A receiver that answers a load with one status, or with nothing at all.
abbrev of_found : Found (List (Entry ℕ)) → Result (List (Entry ℕ))
of_found not_mine = failed (codes "timed out")
of_found (mine entries) = done entries
of_found (refused m) = failed m

abbrev answering : Replies ℕ
answering = record {
  request_id = 5;
  send_error = none;
  find_status = λ f. of_found (f answer);
  find_done = λ f. done tt;
}

abbrev silent : Replies ℕ
silent = record answering { find_status = λ f. failed (codes "timed out") }

abbrev job : Job ℕ
job = record {
  host = codes "192.168.1.7";
  url = codes "http://a/media";
  title = codes "film";
  session_id = 7;
  options = record {
    duration = some 600;
    transcode = true;
    exact_seek = false;
    source = codes "/film.mkv";
    tracks = [];
    active_track = none;
  };
}

abbrev setup : Setup ℕ
setup = record {
  resolves = true;
  tcp_error = none;
  clone_error = none;
  timeout_error = none;
  name_error = none;
  tls_error = none;
  connect_error = none;
  ping_error = none;
  launch_error = none;
  app_connect_error = none;
  app_session = codes "app";
  app_transport = codes "transport";
  replies = answering;
  volume = none;
  poll_timeout_error = none;
}

abbrev begun : Thread ℕ
begun = record {
  session_id = 7;
  app_session = codes "app";
  title = codes "film";
  content_url = codes "http://a/media";
  options = job.options;
  position_offset = 0;
  media_session_id = 3;
  consecutive_errors = 0;
  polls = 0;
  running = true;
  ending = none;
  session = session;
  sent = [];
}

abbrev order_of : CastCommand ℕ → Replies ℕ → Order ℕ
order_of command replies = record {
  command = command;
  accepted = true;
  volume = none;
  replies = replies;
  keyframe_at_or_before = λ x. some 90;
}

abbrev round_with : List (Order ℕ) → Incoming ℕ → Round ℕ
round_with orders incoming = record {
  orders = orders;
  incoming = incoming;
  interval_over = true;
  polled_volume = none;
  polled_status = some (playing ∷ []);
}

abbrev failing : Round ℕ
failing = round_with [] (broken (codes "eof"))

abbrev shut_down : Round ℕ
shut_down = round_with (order_of CastCommand.shutdown answering ∷ []) heartbeat

-- The thread that starts here is the one that `start` gives.
started_here : (t : Thread ℕ) × (start platform job setup session ≡ done t)
unfolding start ready_result open_channel handshake first_load started loaded_thread load_media
    load_reply first_media_session publish_status publish_answer
started_here = (_, refl)

run-start-Tallied_example :
    Tallied (run platform (round failing ∷ round shut_down ∷ []) started_here.0)
run-start-Tallied_example =
    run-start-Tallied platform job setup session started_here.0
      (round failing ∷ round shut_down ∷ []) started_here.1

round_of_foreign_example :
    let t = record begun { session_id = 6 } in
    let u = round_of platform shut_down t in
    (u.session ≡ session)
    × ((u.ending ≡ some stale) ⊎ (u.ending ≡ some stopped))
    × (count is_event u.sent ≡ 0)
unfolding count
round_of_foreign_example =
    round_of_foreign platform shut_down (record begun { session_id = 6 }) refl (omega arith)

round_of_keeps_example :
    let u = round_of platform (round_with [] (media answer)) begun in
    (profile u.session ≡ profile session) × (u.media_session_id ≡ 3)
unfolding all_keep
round_of_keeps_example =
    round_of_keeps platform (round_with [] (media answer)) begun refl (omega arith)

run_broken_example :
    (run platform
      (map round (failing ∷ failing ∷ failing ∷ failing ∷ failing ∷ failing ∷ []))
      begun).ending
    ≢ none
run_broken_example =
    run_broken platform (failing ∷ failing ∷ failing ∷ failing ∷ failing ∷ failing ∷ []) begun
      (omega arith)
      ((
        (codes "eof", refl),
        (
          (codes "eof", refl),
          (
            (codes "eof", refl),
            ((codes "eof", refl), ((codes "eof", refl), ((codes "eof", refl), tt))),
          ),
        ),
      ))
      (omega arith)

answering-FindsMine : FindsMine (answer ∷ []) answering
answering-FindsMine f entries h = (answer, inl refl, found_mine (f answer) h)
  where
    found_mine : (r : Found (List (Entry ℕ))) → of_found r ≡ done entries → r ≡ mine entries
    found_mine not_mine e = cc
    found_mine (mine _) e = cc
    found_mine (refused m) e = cc

reload_adopts_example :
    let url = codes "http://a/next" in
    let order = order_of (CastCommand.reload url false true 40) answering in
    let n =
      (obey_command platform (CastCommand.reload url false true 40) order begun).media_session_id in
    (n ≡ 3) ⊎ Answered ℕ (answer ∷ []) 5 url 3 n
reload_adopts_example =
    reload_adopts platform (answer ∷ [])
      (order_of (CastCommand.reload (codes "http://a/next") false true 40) answering)
      (codes "http://a/next") true 40 begun answering-FindsMine

seek_fails_example :
    let order = order_of (CastCommand.seek 100) silent in
    Shifted platform begun playing 12
      (seek_start platform order job.options 100)
      (seek_cast platform order 100 begun)
seek_fails_example =
    seek_fails platform (order_of (CastCommand.seek 100) silent) 100 begun playing 12 refl
      (λ f. (codes "timed out", refl)) refl refl
