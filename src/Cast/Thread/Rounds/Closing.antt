-- ===== src/Cast/Thread/Rounds/Closing.antt =====
-- src/cast.rs: how the thread ends: the event that it sends, and the application that it stops.
use unicast.Base.{
  ℕ, ◌+◌, Bool, true, false, Option, none, some, Text, ◌==◌, if◌then◌else◌, ◌≡◌, refl, ◌∙◌, sym, ap,
  ◌≢◌, inl, inr, arith, Bool-cases,
}
use unicast.Cast.Thread.{
  Thread, Ending, stale, stopped, finished, lost, send, teardown, end_with, announce_end, finish,
  by_ending, unless_ended,
}
use unicast.Cast.Thread.Quiet.{
  Within, Within-trans, Quiet, is_event, is_app_stop, count, count-append,
}

-- The events and the stops of the application that an ending comes with.
abbrev pub events_of : Option Ending → ℕ
events_of none = 0
events_of (some stale) = 0
events_of (some stopped) = 0
events_of (some finished) = 1
events_of (some (lost m)) = 1

abbrev pub stops_of : Option Ending → ℕ
stops_of none = 0
stops_of (some stale) = 0
stops_of (some stopped) = 1
stops_of (some finished) = 1
stops_of (some (lost m)) = 0

module _ {F : Type 0} where
  pub record Tallied (t : Thread F) : Type 0 where
    pub events : count is_event t.sent ≡ events_of t.ending
    pub stops : count is_app_stop t.sent ≡ stops_of t.ending

  -- A part of a round, which may end the thread.
  pub record Closes (t u : Thread F) : Type 0 where
    pub within : Within t u
    pub tallied : t.ending ≡ none → Tallied t → Tallied u
    pub same_media : t.media_session_id ≢ 0 → u.media_session_id ≡ t.media_session_id

  pub Quiet-Tallied : {m : Bool} {t u : Thread F} → Quiet m t u → Tallied t → Tallied u
  Quiet-Tallied h k = record {
    events = h.same_events ∙ (k.events ∙ sym (ap events_of h.same_ending));
    stops = h.same_stops ∙ (k.stops ∙ sym (ap stops_of h.same_ending));
  }

  pub Closes-Quiet : {t u : Thread F} → Quiet true t u → Closes t u
  Closes-Quiet h = record {
    within = h.within;
    tallied = λ e k. Quiet-Tallied h k;
    same_media = λ e. h.same_media refl;
  }

  pub Closes-after : {t u v : Thread F} → Quiet true t u → Closes u v → Closes t v
  Closes-after h k = record {
    within = Within-trans h.within k.within;
    tallied = λ e tally. k.tallied (h.same_ending ∙ e) (Quiet-Tallied h tally);
    same_media = λ e. k.same_media (λ z. e (sym (h.same_media refl) ∙ z)) ∙ h.same_media refl;
  }

  pub Closes-if :
      {t u v : Thread F} (b : Bool) → Closes t u → Closes t v → Closes t (if b then u else v)
  Closes-if true h k = h
  Closes-if false h k = k

  pub Closes-then : {t u v : Thread F} → Closes t u → u.ending ≡ t.ending → Closes u v → Closes t v
  Closes-then h same k = record {
    within = Within-trans h.within k.within;
    tallied = λ e tally. k.tallied (same ∙ e) (h.tallied e tally);
    same_media = λ m. k.same_media (λ z. m (sym (h.same_media m) ∙ z)) ∙ h.same_media m;
  }

  -- What follows within a round, where the thread has not ended.
  pub Closes-unless :
      {t u : Thread F} (f : Thread F → Thread F)
      → Closes t u
      → Closes u (f u)
      → Closes t (unless_ended f u)
  unfolding unless_ended by_ending
  Closes-unless {t} {u} f h k = by_cases u.ending refl
    where
      by_cases : (o : Option Ending) → u.ending ≡ o → Closes t (by_ending o (f u) u)
      by_cases (some how) e = h
      by_cases none e = record {
        within = Within-trans h.within k.within;
        tallied = λ open_still tally. k.tallied e (h.tallied open_still tally);
        same_media = λ m. k.same_media (λ z. m (sym (h.same_media m) ∙ z)) ∙ h.same_media m;
      }

  pub tear_down-counts :
      (t : Thread F)
      → (count is_event (teardown t).sent ≡ count is_event t.sent)
        × (count is_app_stop (teardown t).sent ≡ count is_app_stop t.sent + 1)
  unfolding teardown count
  tear_down-counts t = elim (Bool-cases (t.media_session_id == 0)) [
    | inl e ↦ simp e (
      count-append is_event t.sent _ ∙ omega arith,
      count-append is_app_stop t.sent _ ∙ omega arith,
    )
    | inr e ↦ simp e (
      count-append is_event t.sent _ ∙ omega arith,
      count-append is_app_stop t.sent _ ∙ omega arith,
    )
  ]

  pub finish-Closes : (t : Thread F) → Closes t (finish t)
  unfolding finish teardown end_with announce_end send count
  finish-Closes t = record {
    within = record { same_id = refl; same_profile = refl; foreign = λ h. refl };
    tallied = λ e k. record {
      events =
          count-append is_event (teardown t).sent _
          ∙ omega (arith, (tear_down-counts t).0, k.events, ap events_of e);
      stops =
          count-append is_app_stop (teardown t).sent _
          ∙ omega (arith, (tear_down-counts t).1, k.stops, ap stops_of e);
    };
    same_media = λ h. refl;
  }

  pub stopped-Closes : (t : Thread F) → Closes t (end_with stopped (teardown t))
  unfolding end_with teardown
  stopped-Closes t = record {
    within = record { same_id = refl; same_profile = refl; foreign = λ h. refl };
    tallied = λ e k. record {
      events = omega (arith, (tear_down-counts t).0, k.events, ap events_of e);
      stops = omega (arith, (tear_down-counts t).1, k.stops, ap stops_of e);
    };
    same_media = λ h. refl;
  }

  pub stale-Closes : (t : Thread F) → Closes t (end_with stale t)
  unfolding end_with
  stale-Closes t = record {
    within = record { same_id = refl; same_profile = refl; foreign = λ h. refl };
    tallied = λ e k. record { events = k.events ∙ ap events_of e; stops = k.stops ∙ ap stops_of e };
    same_media = λ h. refl;
  }

  pub lost-Closes : (m : Text) (t : Thread F) → Closes t (end_with (lost m) (announce_end t))
  unfolding end_with announce_end send count
  lost-Closes m t = record {
    within = record { same_id = refl; same_profile = refl; foreign = λ h. refl };
    tallied = λ e k. record {
      events = count-append is_event t.sent _ ∙ omega (arith, k.events, ap events_of e);
      stops = count-append is_app_stop t.sent _ ∙ omega (arith, k.stops, ap stops_of e);
    };
    same_media = λ h. refl;
  }
