-- ===== src/Cast/Thread/Rounds/Run.antt =====
-- src/cast.rs: the rounds of the thread, one after the other.
use unicast.Base.{
  true, false, Option, none, some, List, [], ◌∷◌, ◌==◌, ◌≡◌, refl, ◌∙◌, sym, ap, ◌≢◌, ◌⊎◌, inl, inr,
  arith, Bool-cases, subst, Platform,
}
use unicast.Cast.Load.{Holds, done}
use unicast.Daemon.State.{Session}
use unicast.Cast.Thread.{
  Thread, Round, Ending, stale, stopped, is_stale, by_ending, unless_ended, end_with, teardown,
}
use unicast.Cast.Thread.Quiet.{Within, Within-refl, Within-trans, profile, count, is_event}
use unicast.Cast.Thread.Commands.{obey_all}
use unicast.Cast.Thread.Commands.Obeying.{obey_all-Quiet, all_keep}
use unicast.Cast.Thread.Start.{Job, Setup, start}
use unicast.Cast.Thread.Start.Fresh.{start-Tallied}
use unicast.Cast.Thread.Rounds.{listen, round_of, Move, round, written, move, run}
use unicast.Cast.Thread.Rounds.Closing.{Tallied, Quiet-Tallied, tear_down-counts}
use unicast.Cast.Thread.Rounds.Parts.{listen-Closes}

foreign_still :
    {F : Type 0} {t u : Thread F}
    → Within t u
    → t.session.session_id ≢ t.session_id
    → (u.session.session_id == u.session_id) ≡ false
foreign_still {t} {u} h other =
    let same : u.session.session_id ≡ t.session.session_id = ap (λ p. p.0) h.same_profile in
    let id = h.same_id in ground arith

module _ (platform : Platform) where
  open platform use {F64}

  round_of-Within : (r : Round F64) (t : Thread F64) → Within t (round_of platform r t)
  unfolding round_of unless_ended
  round_of-Within r t = by_cases t.ending
    where
      after : Thread F64
      after = listen platform r (obey_all platform r.orders t)

      by_cases : (o : Option Ending) → Within t (by_ending o after t)
      by_cases none =
          Within-trans (obey_all-Quiet platform r.orders t).within
            (listen-Closes platform r _).within
      by_cases (some how) = Within-refl t

  round_of-Tallied : (r : Round F64) (t : Thread F64) → Tallied t → Tallied (round_of platform r t)
  unfolding round_of unless_ended by_ending
  round_of-Tallied r t tally = by_cases t.ending refl
    where
      after : Thread F64
      after = listen platform r (obey_all platform r.orders t)

      by_cases : (o : Option Ending) → t.ending ≡ o → Tallied (by_ending o after t)
      by_cases (some how) e = tally
      by_cases none e =
          let quiet = obey_all-Quiet platform r.orders t in
          (listen-Closes platform r _).tallied (quiet.same_ending ∙ e) (Quiet-Tallied quiet tally)

  pub run-Tallied :
      (moves : List (Move platform)) (t : Thread F64) → Tallied t → Tallied (run platform moves t)
  unfolding run move
  run-Tallied [] t tally = tally
  run-Tallied (round r ∷ moves) t tally = run-Tallied moves _ (round_of-Tallied r t tally)
  run-Tallied (written session ∷ moves) t tally =
      run-Tallied moves _ (record { events = tally.events; stops = tally.stops })

  -- However the thread runs once it has started, whatever the daemon writes to the session: while
  -- it runs it has neither announced an end nor stopped the application; it announces the end once
  -- where playback ended or the connection was lost, and stops the application once where playback
  -- ended or a command shut it down; a thread whose session is gone does neither.
  pub run-start-Tallied :
      (job : Job F64) (setup : Setup F64) (session : Session F64) (t : Thread F64)
      (moves : List (Move platform))
      → start platform job setup session ≡ done t
      → Tallied (run platform moves t)
  run-start-Tallied job setup session t moves h =
      run-Tallied moves t (subst (Holds Tallied) h (start-Tallied platform job setup session))

  -- A thread that runs while the session is another one leaves that session alone, announces
  -- nothing, and is over after the round: by itself, or as a command shuts it down.
  pub round_of_foreign :
      (r : Round F64) (t : Thread F64)
      → t.ending ≡ none
      → t.session.session_id ≢ t.session_id
      → let u = round_of platform r t in
        (u.session ≡ t.session)
        × ((u.ending ≡ some stale) ⊎ (u.ending ≡ some stopped))
        × (count is_event u.sent ≡ count is_event t.sent)
  unfolding round_of unless_ended by_ending listen is_stale end_with teardown
  round_of_foreign r t going other =
      let quiet = obey_all-Quiet platform r.orders t in
      let a = obey_all platform r.orders t in
      let gone : (a.session.session_id == a.session_id) ≡ false =
        foreign_still quiet.within other in
      elim (Bool-cases a.running) [
        | inl runs ↦
            simp (going, runs, gone) (quiet.within.foreign other, inl refl, quiet.same_events)
        | inr shut ↦
            simp (going, shut)
              (quiet.within.foreign other, inr refl, (tear_down-counts a).0 ∙ quiet.same_events)
      ]

  -- A round without a command that loads keeps the media session that is known, whatever statuses
  -- arrive, and of the session what the daemon alone decides (its number, receiver, file, boost and
  -- subtitle tracks).
  pub round_of_keeps :
      (r : Round F64) (t : Thread F64)
      → all_keep r.orders ≡ true
      → t.media_session_id ≢ 0
      → let u = round_of platform r t in
        (profile u.session ≡ profile t.session) × (u.media_session_id ≡ t.media_session_id)
  unfolding round_of unless_ended by_ending
  round_of_keeps r t loads_nothing known = by_cases t.ending
    where
      after : Thread F64
      after = listen platform r (obey_all platform r.orders t)

      by_cases :
          (o : Option Ending)
          → let u = by_ending o after t in
            (profile u.session ≡ profile t.session) × (u.media_session_id ≡ t.media_session_id)
      by_cases (some how) = (refl, refl)
      by_cases none =
          let quiet = obey_all-Quiet platform r.orders t in
          let heard = listen-Closes platform r (obey_all platform r.orders t) in
          let kept = quiet.same_media loads_nothing in
          (
            heard.within.same_profile ∙ quiet.within.same_profile,
            heard.same_media (λ z. known (sym kept ∙ z)) ∙ kept,
          )
