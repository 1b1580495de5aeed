-- ===== src/Daemon/Poll/Watchdog.antt =====
-- src/daemon.rs: `dlna_poll` as a sequence of ticks, for a renderer that no longer answers.
use unicast.Base.{
  ℕ, ◌+◌, ◌≤◌, ◌<◌, ◌≡◌, refl, sym, ◌∙◌, ap, subst, Bool, true, false, not, ◌&&◌, ◌==◌, leb, Option,
  none, some, List, [], ◌∷◌, ◌++◌, codes, u32_max, ◌%◌, arith, length, inl, inr, ◌⊎◌, Bool-cases,
  Platform, eq_text,
}
use unicast.Daemon.State.{Daemon, Session, SessionState, Effect, Message}
use unicast.Daemon.Env.{emit}
use unicast.Daemon.Poll.{
  Poller, Reading, Verdict, transport_verdict, watchdog, over, next_unreachable, dlna_verdict,
  dlna_next, dlna_session, dlna_tick, announce, reads_volume, poll_unreachable_limit,
}

-- What a tick makes of a renderer that does not answer.
module _ {F : Type 0} (poller : Poller) (reading : Reading F) (session : Session F) where
  -- Before the watchdog.
  abbrev waiting : Verdict
  waiting = record {
    state = session.state;
    error = session.error;
    seen_active = poller.seen_active;
    ended = false;
  }

  silent_verdict :
      reading.transport ≡ codes "UNKNOWN"
      → dlna_verdict poller reading session
        ≡ watchdog (poller.unreachable + 1) reading.grace_over waiting
  unfolding dlna_verdict transport_verdict next_unreachable eq_text
  silent_verdict silent = simp silent refl

  lost_verdict :
      (n : ℕ)
      → leb poll_unreachable_limit n ≡ true
      → watchdog n reading.grace_over waiting
        ≡ over SessionState.error (some Message.lost_connection) poller.seen_active
  unfolding watchdog
  lost_verdict n lost = simp lost refl

  late_verdict :
      (n : ℕ)
      → leb poll_unreachable_limit n ≡ false
      → (not poller.seen_active && reading.grace_over) ≡ true
      → watchdog n reading.grace_over waiting
        ≡ over SessionState.error (some Message.did_not_start) poller.seen_active
  unfolding watchdog
  late_verdict n few late = simp (few, late) refl

  waiting_verdict :
      (n : ℕ)
      → leb poll_unreachable_limit n ≡ false
      → (not poller.seen_active && reading.grace_over) ≡ false
      → watchdog n reading.grace_over waiting ≡ waiting
  unfolding watchdog
  waiting_verdict n few waits = simp (few, waits) refl

module _ (platform : Platform) where
  open platform use {F64}

  abbrev Outcome : Type 0
  Outcome = Option Poller × Daemon F64

  -- The loop goes on where the poller has not ended.
  resume : Outcome → (Poller → Daemon F64 → Outcome) → Outcome
  resume (none, d) rest = (none, d)
  resume (some poller, d) rest = rest poller d

  -- The ticks of one poller, until it ends.
  unfoldable pub poll : Poller → List (Reading F64) → Daemon F64 → Option Poller × Daemon F64
  unfolding resume
  poll poller [] d = (some poller, d)
  poll poller (reading ∷ readings) d =
      resume (dlna_tick platform poller reading d) λ p e. poll p readings e

  resume_ended :
      (r : Outcome) (rest : Poller → Daemon F64 → Outcome)
      → r.0 ≡ none
      → resume r rest ≡ (none, r.1)
  unfolding resume
  resume_ended (none, d) rest h = refl
  resume_ended (some p, d) rest h = cc h

  resume_running :
      (r : Outcome) (rest : Poller → Daemon F64 → Outcome) {p : Poller}
      → r.0 ≡ some p
      → resume r rest ≡ rest p (r.1)
  unfolding resume
  resume_running (none, d) rest h = cc h
  resume_running (some q, d) rest h = cc h

  abbrev pub AllSilent : List (Reading F64) → Type 0
  AllSilent [] = Unit
  AllSilent (reading ∷ readings) = (reading.transport ≡ codes "UNKNOWN") × AllSilent readings

  -- The poller has ended, the session has failed, and its end was announced once.
  pub record Failed (d : Daemon F64) (poller : Poller) (r : Option Poller × Daemon F64)
      : Type 0 where
    pub ended : r.0 ≡ none
    pub state : r.1.session.state ≡ SessionState.error
    pub announced : r.1.effects ≡ d.effects ++ Effect.session_ended poller.session_id ∷ []

  -- The poller goes on, having counted one more tick.
  record Counted (d : Daemon F64) (poller : Poller) (r : Option Poller × Daemon F64) : Type 0 where
    next : Poller
    goes_on : r.0 ≡ some next
    counted : next.unreachable ≡ poller.unreachable + 1
    same_poller : next.session_id ≡ poller.session_id
    same_session : r.1.session.session_id ≡ d.session.session_id
    silent : r.1.effects ≡ d.effects

  -- A tick of the poller whose session is current, by its verdict.
  by_verdict : Poller → Reading F64 → Daemon F64 → Verdict → Option Poller × Daemon F64
  unfolding reads_volume
  by_verdict poller reading d v = (
    dlna_next platform poller reading v,
    announce v.ended poller.session_id
        (record d { session = dlna_session platform (reads_volume poller) reading v d.session }),
  )

  dlna_tick-by_verdict :
      (poller : Poller) (reading : Reading F64) (d : Daemon F64) {v : Verdict}
      → d.session.session_id ≡ poller.session_id
      → dlna_verdict poller reading d.session ≡ v
      → dlna_tick platform poller reading d ≡ by_verdict poller reading d v
  unfolding dlna_tick by_verdict
  dlna_tick-by_verdict poller reading d same e =
      let mine : (d.session.session_id == poller.session_id) ≡ true = ground arith in
      subst (λ v. dlna_tick platform poller reading d ≡ by_verdict poller reading d v) e
        (simp mine refl)

  tick_fails :
      (poller : Poller) (reading : Reading F64) (d : Daemon F64) (message : Message) (seen : Bool)
      → Failed d poller (by_verdict poller reading d (over SessionState.error (some message) seen))
  unfolding by_verdict over dlna_next dlna_session announce emit
  tick_fails poller reading d message seen = record { ended = refl; state = refl; announced = refl }

  tick_counts :
      (poller : Poller) (reading : Reading F64) (d : Daemon F64) (v : Verdict)
      → reading.transport ≡ codes "UNKNOWN"
      → v.ended ≡ false
      → Counted d poller (by_verdict poller reading d v)
  unfolding by_verdict dlna_next dlna_session announce emit next_unreachable eq_text
  tick_counts poller reading d v silent goes_on = record {
    next = record poller {
      seen_active = v.seen_active;
      ticks = (poller.ticks + 1) % (u32_max + 1);
      unreachable = poller.unreachable + 1;
    };
    goes_on = simp (goes_on, silent) refl;
    counted = refl;
    same_poller = refl;
    same_session = simp goes_on refl;
    silent = simp goes_on refl;
  }

  silent_tick :
      (poller : Poller) (reading : Reading F64) (d : Daemon F64)
      → d.session.session_id ≡ poller.session_id
      → reading.transport ≡ codes "UNKNOWN"
      → let r = dlna_tick platform poller reading d in
        Failed d poller r ⊎ (Counted d poller r × (poller.unreachable + 1 < poll_unreachable_limit))
  silent_tick poller reading d same silent =
      let verdict = silent_verdict poller reading d.session silent in
      let counted = poller.unreachable + 1 in
      elim (Bool-cases (leb poll_unreachable_limit counted)) [
        | inl lost ↦
            rw
              (dlna_tick-by_verdict poller reading d same
                (verdict ∙ lost_verdict poller reading d.session counted lost))
              (inl (tick_fails poller reading d Message.lost_connection poller.seen_active))
        | inr few ↦ elim (Bool-cases (not poller.seen_active && reading.grace_over)) [
          | inl late ↦
              rw
                (dlna_tick-by_verdict poller reading d same
                  (verdict ∙ late_verdict poller reading d.session counted few late))
                (inl (tick_fails poller reading d Message.did_not_start poller.seen_active))
          | inr waits ↦
              rw
                (dlna_tick-by_verdict poller reading d same
                  (verdict ∙ waiting_verdict poller reading d.session counted few waits))
                (inr (
                  tick_counts poller reading d (waiting poller reading d.session) silent refl,
                  ground arith,
                ))
        ]
      ]

  -- A renderer that leaves as many ticks in a row unanswered as the poller still waits for (20 from
  -- its last answer): the poller ends, the session has failed, and its end was announced once.
  pub poll_silent :
      (poller : Poller) (readings : List (Reading F64)) (d : Daemon F64)
      → d.session.session_id ≡ poller.session_id
      → poller.unreachable < poll_unreachable_limit
      → AllSilent readings
      → poll_unreachable_limit ≤ poller.unreachable + length readings
      → Failed d poller (poll poller readings d)
  unfolding poll
  poll_silent poller [] d same few silent enough = absurd (omega arith)
  poll_silent poller (reading ∷ readings) d same few (silent, later) enough =
      elim (silent_tick poller reading d same silent) [
        | inl failed ↦
            rw (resume_ended (dlna_tick platform poller reading d) _ failed.ended)
              (record { ended = refl; state = failed.state; announced = failed.announced })
        | inr (counted, few_still) ↦
            let rest =
              poll_silent counted.next readings (dlna_tick platform poller reading d).1
                (counted.same_session ∙ (same ∙ sym counted.same_poller)) (omega arith) later
                (omega (arith, counted.counted)) in
            rw (resume_running (dlna_tick platform poller reading d) _ counted.goes_on) (record {
              ended = rest.ended;
              state = rest.state;
              announced =
                  rest.announced
                  ∙ (ap
                        (λ n.
                          (dlna_tick platform poller reading d).1.effects
                          ++ Effect.session_ended n ∷ [])
                        counted.same_poller
                      ∙ ap (λ es. es ++ Effect.session_ended poller.session_id ∷ [])
                          counted.silent);
            })
      ]
