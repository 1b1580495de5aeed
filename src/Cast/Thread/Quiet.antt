-- ===== src/Cast/Thread/Quiet.antt =====
-- src/cast.rs: what an operation of the thread leaves as it was.
use unicast.Base.{
  ℕ, ◌+◌, Bool, true, false, List, [], ◌∷◌, ◌++◌, Text, ◌==◌, if◌then◌else◌, ◌≡◌, refl, ◌∙◌, sym,
  ap, ◌≢◌, inl, inr, arith, Bool-cases,
}
use unicast.Daemon.State.{Session, Protocol}
use unicast.Subtitles.{SubtitleTrack}
use unicast.Cast.Thread.{Thread, Sent, stop_app, ended, send, update, guarded}

-- What the daemon alone decides of a session.
abbrev pub profile :
    {F : Type 0} → Session F → ℕ × Text × Text × Protocol × Text × ℕ × List SubtitleTrack
profile s = (s.session_id, s.ip, s.name, s.protocol, s.file, s.boost, s.subtitles)

abbrev pub is_event : {F : Type 0} → Sent F → Bool
is_event (ended _) = true
is_event _ = false

abbrev pub is_app_stop : {F : Type 0} → Sent F → Bool
is_app_stop (stop_app _) = true
is_app_stop _ = false

unfoldable pub count : {A : Type 0} → (A → Bool) → List A → ℕ
count p [] = 0
count p (x ∷ xs) = (if p x then 1 else 0) + count p xs

pub count-append :
    {A : Type 0} (p : A → Bool) (xs ys : List A) → count p (xs ++ ys) ≡ count p xs + count p ys
unfolding count
count-append p [] ys = omega arith
count-append p (x ∷ xs) ys = omega (arith, count-append p xs ys)

module _ {F : Type 0} where
  -- A session of another number is left alone, and of its own the daemon's part.
  pub record Within (t u : Thread F) : Type 0 where
    pub same_id : u.session_id ≡ t.session_id
    pub same_profile : profile u.session ≡ profile t.session
    pub foreign : t.session.session_id ≢ t.session_id → u.session ≡ t.session

  -- An operation that does not end the thread; `m` tells whether it keeps the media session.
  pub record Quiet (m : Bool) (t u : Thread F) : Type 0 where
    pub within : Within t u
    pub same_events : count is_event u.sent ≡ count is_event t.sent
    pub same_stops : count is_app_stop u.sent ≡ count is_app_stop t.sent
    pub same_ending : u.ending ≡ t.ending
    pub same_errors : u.consecutive_errors ≡ t.consecutive_errors
    pub same_media : m ≡ true → u.media_session_id ≡ t.media_session_id

  pub Within-refl : (t : Thread F) → Within t t
  Within-refl t = record { same_id = refl; same_profile = refl; foreign = λ h. refl }

  pub Within-trans : {t u v : Thread F} → Within t u → Within u v → Within t v
  Within-trans {t} {u} h k = record {
    same_id = k.same_id ∙ h.same_id;
    same_profile = k.same_profile ∙ h.same_profile;
    foreign = λ other. k.foreign (still other) ∙ h.foreign other;
  }
    where
      still : t.session.session_id ≢ t.session_id → u.session.session_id ≢ u.session_id
      still other e = other (sym (ap (λ p. p.0) h.same_profile) ∙ (e ∙ h.same_id))

  pub Quiet-refl : (m : Bool) (t : Thread F) → Quiet m t t
  Quiet-refl m t = record {
    within = Within-refl t;
    same_events = refl;
    same_stops = refl;
    same_ending = refl;
    same_errors = refl;
    same_media = λ h. refl;
  }

  pub Quiet-trans : {m : Bool} {t u v : Thread F} → Quiet m t u → Quiet m u v → Quiet m t v
  Quiet-trans h k = record {
    within = Within-trans h.within k.within;
    same_events = k.same_events ∙ h.same_events;
    same_stops = k.same_stops ∙ h.same_stops;
    same_ending = k.same_ending ∙ h.same_ending;
    same_errors = k.same_errors ∙ h.same_errors;
    same_media = λ e. k.same_media e ∙ h.same_media e;
  }

  pub Quiet-weaken :
      {m n : Bool} {t u : Thread F} → (n ≡ true → m ≡ true) → Quiet m t u → Quiet n t u
  Quiet-weaken w h = record {
    within = h.within;
    same_events = h.same_events;
    same_stops = h.same_stops;
    same_ending = h.same_ending;
    same_errors = h.same_errors;
    same_media = λ e. h.same_media (w e);
  }

  pub Quiet-if :
      {m : Bool} {t u v : Thread F} (b : Bool)
      → Quiet m t u
      → Quiet m t v
      → Quiet m t (if b then u else v)
  Quiet-if true h k = h
  Quiet-if false h k = k

  pub Quiet-untouched :
      {m : Bool} {t u : Thread F}
      → u.session_id ≡ t.session_id
      → u.session ≡ t.session
      → u.sent ≡ t.sent
      → u.ending ≡ t.ending
      → u.consecutive_errors ≡ t.consecutive_errors
      → u.media_session_id ≡ t.media_session_id
      → Quiet m t u
  Quiet-untouched id session sent ending errors media = record {
    within = record { same_id = id; same_profile = ap profile session; foreign = λ h. session };
    same_events = ap (count is_event) sent;
    same_stops = ap (count is_app_stop) sent;
    same_ending = ending;
    same_errors = errors;
    same_media = λ h. media;
  }

  pub send-Quiet :
      (m : Bool) (x : Sent F) (t : Thread F)
      → is_event x ≡ false
      → is_app_stop x ≡ false
      → Quiet m t (send x t)
  unfolding send count
  send-Quiet m x t no_event no_stop = record {
    within = record { same_id = refl; same_profile = refl; foreign = λ h. refl };
    same_events = added is_event no_event;
    same_stops = added is_app_stop no_stop;
    same_ending = refl;
    same_errors = refl;
    same_media = λ h. refl;
  }
    where
      added : (p : Sent F → Bool) → p x ≡ false → count p (t.sent ++ x ∷ []) ≡ count p t.sent
      added p plain = count-append p t.sent (x ∷ []) ∙ rw plain (omega arith)

  pub guarded-profile :
      (id : ℕ) (f : Session F → Session F) (s : Session F)
      → ((s : Session F) → profile (f s) ≡ profile s)
      → profile (guarded id f s) ≡ profile s
  unfolding guarded
  guarded-profile id f s h = elim (Bool-cases (s.session_id == id)) [
    | inl e ↦ simp e (h s)
    | inr e ↦ simp e refl
  ]

  pub guarded_foreign :
      (id : ℕ) (f : Session F → Session F) (s : Session F) → s.session_id ≢ id → guarded id f s ≡ s
  unfolding guarded
  guarded_foreign id f s h =
      let other : (s.session_id == id) ≡ false = ground arith in simp other refl

  pub update-Quiet :
      (m : Bool) (f : Session F → Session F) (t : Thread F)
      → ((s : Session F) → profile (f s) ≡ profile s)
      → Quiet m t (update f t)
  unfolding update
  update-Quiet m f t h = record {
    within = record {
      same_id = refl;
      same_profile = guarded-profile t.session_id f t.session h;
      foreign = guarded_foreign t.session_id f t.session;
    };
    same_events = refl;
    same_stops = refl;
    same_ending = refl;
    same_errors = refl;
    same_media = λ h. refl;
  }
