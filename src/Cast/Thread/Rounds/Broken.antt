-- ===== src/Cast/Thread/Rounds/Broken.antt =====
-- src/cast.rs: a connection that only fails.
use unicast.Base.{
  ℕ, ◌+◌, ◌≤◌, Bool, true, false, not, Option, none, some, List, [], ◌∷◌, Text, ltb, ◌≡◌, refl, ◌∙◌,
  sym, ap, ◌≢◌, ◌⊎◌, inl, inr, arith, if◌then◌else◌, length, map, subst, Platform,
}
use unicast.Daemon.State.{Message}
use unicast.Cast.Thread.{
  Thread, Round, Ending, broken, lost, stopped, stale, is_stale, by_ending, unless_ended, end_with,
  set_error, announce_end,
}
use unicast.Cast.Thread.Commands.{obey_all}
use unicast.Cast.Thread.Commands.Obeying.{obey_all-Quiet}
use unicast.Cast.Thread.Rounds.{hear, poll, listen, round_of, round, move, run, count_error}
use unicast.Cast.Thread.Rounds.Parts.{poll-errors}

-- Every round receives an error that is no timeout.
abbrev pub AllBroken : {F : Type 0} → List (Round F) → Type 0
AllBroken [] = Unit {0}
AllBroken (r ∷ rounds) = ((m : Text) × (r.incoming ≡ broken m)) × AllBroken rounds

ended-ne-none : (how : Ending) → ◌≡◌ {A = Option Ending} (some how) none → ⊥
ended-ne-none how h = cc

module _ (platform : Platform) where
  open platform use {F64}

  -- A thread that has ended, or one that has counted another error.
  Counts : ℕ → Thread F64 → Type 0
  Counts n u = (u.ending ≢ none) ⊎ ((u.consecutive_errors ≡ n) × (n ≤ 5))

  Counts-if :
      (n : ℕ) (u v : Thread F64) (b : Bool)
      → (b ≡ true → Counts n u)
      → (b ≡ false → Counts n v)
      → Counts n (if b then u else v)
  Counts-if n u v true h k = h refl
  Counts-if n u v false h k = k refl

  -- A poll adds no error.
  Counts-poll :
      (r : Round F64) (u : Thread F64)
      → u.consecutive_errors ≤ 5
      → Counts u.consecutive_errors (unless_ended (poll platform r) u)
  unfolding Counts unless_ended by_ending
  Counts-poll r u few = by_cases u.ending refl
    where
      by_cases :
          (o : Option Ending)
          → u.ending ≡ o
          → Counts u.consecutive_errors (by_ending o (poll platform r u) u)
      by_cases none e = inr (poll-errors platform r u, few)
      by_cases (some how) e = inr (refl, few)

  count_error-Counts :
      (r : Round F64) (m : Text) (t : Thread F64)
      → Counts t.consecutive_errors (unless_ended (poll platform r) (count_error platform m t))
  unfolding Counts count_error unless_ended by_ending end_with
  count_error-Counts r m t = by_cases (ltb 5 t.consecutive_errors) refl
    where
      given_up : Thread F64
      given_up = end_with (lost m) (announce_end (set_error Message.lost_connection t))

      by_cases :
          (b : Bool)
          → ltb 5 t.consecutive_errors ≡ b
          → Counts t.consecutive_errors (unless_ended (poll platform r) (if b then given_up else t))
      by_cases true e = inl (ended-ne-none (lost m))
      by_cases false e = Counts-poll r t (ground arith)

  listen_broken :
      (r : Round F64) (a : Thread F64) (m : Text)
      → r.incoming ≡ broken m
      → Counts (a.consecutive_errors + 1) (listen platform r a)
  unfolding Counts listen hear end_with
  listen_broken r a m breaks =
      Counts-if _ _ _ (not a.running) (λ shut. inl (ended-ne-none stopped))
        (λ runs.
          Counts-if _ _ _ (is_stale a) (λ gone. inl (ended-ne-none stale))
            (λ here.
              subst
                (λ i.
                  Counts (a.consecutive_errors + 1)
                    (unless_ended (poll platform r) (hear platform i a)))
                (sym breaks)
                (count_error-Counts r m
                  (record a { consecutive_errors = a.consecutive_errors + 1 }))))

  round_broken :
      (r : Round F64) (t : Thread F64) (m : Text)
      → r.incoming ≡ broken m
      → Counts (t.consecutive_errors + 1) (round_of platform r t)
  unfolding Counts round_of unless_ended by_ending
  round_broken r t m breaks = by_cases t.ending refl
    where
      after : Thread F64
      after = listen platform r (obey_all platform r.orders t)

      by_cases :
          (o : Option Ending)
          → t.ending ≡ o
          → Counts (t.consecutive_errors + 1) (by_ending o after t)
      by_cases (some how) e = inl (λ z. ended-ne-none how (sym e ∙ z))
      by_cases none e =
          let quiet = obey_all-Quiet platform r.orders t in
          subst (λ n. Counts n after) (ap (λ n. n + 1) quiet.same_errors)
            (listen_broken r (obey_all platform r.orders t) m breaks)

  round_of_ended : (r : Round F64) (t : Thread F64) → t.ending ≢ none → round_of platform r t ≡ t
  unfolding round_of unless_ended by_ending
  round_of_ended r t over = by_cases t.ending refl
    where
      after : Thread F64
      after = listen platform r (obey_all platform r.orders t)

      by_cases : (o : Option Ending) → t.ending ≡ o → by_ending o after t ≡ t
      by_cases none e = absurd (over e)
      by_cases (some how) e = refl

  run_ended :
      (rounds : List (Round F64)) (t : Thread F64)
      → t.ending ≢ none
      → (run platform (map round rounds) t).ending ≢ none
  unfolding run move
  run_ended [] t over = over
  run_ended (r ∷ rounds) t over =
      subst (λ u. (run platform (map round rounds) u).ending ≢ none) (sym (round_of_ended r t over))
        (run_ended rounds t over)

  -- However the receiver and the daemon's commands behave, a thread that receives nothing but errors
  -- ends within the rounds that take its run of errors to six, so within six from a good message.
  pub run_broken :
      (rounds : List (Round F64)) (t : Thread F64)
      → t.consecutive_errors ≤ 5
      → AllBroken rounds
      → 6 ≤ t.consecutive_errors + length rounds
      → (run platform (map round rounds) t).ending ≢ none
  unfolding run move Counts
  run_broken [] t few breaks enough = absurd (omega arith)
  run_broken (r ∷ rounds) t few ((m, breaks), later) enough = elim (round_broken r t m breaks) [
    | inl over ↦ run_ended rounds (round_of platform r t) over
    | inr (counted, few_still) ↦
        run_broken rounds (round_of platform r t) (omega (arith, counted)) later
          (omega (arith, counted))
  ]
