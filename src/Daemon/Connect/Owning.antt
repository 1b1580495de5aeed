-- ===== src/Daemon/Connect/Owning.antt =====
-- src/daemon.rs: every way in which `connect` ends, and what is held then.
use unicast.Base.{
  ℕ, ◌+◌, ◌<◌, ◌≡◌, ◌≢◌, refl, true, Option, none, some, List, Text, arith, sym, ap, ◌∙◌, subst,
  Platform,
}
use unicast.Net.{Ipv4, parse_ipv4}
use unicast.Daemon.State.{
  Daemon, Effect, MediaServer, ServeContext, ServePlan, Protocol, cast, dlna, airplay, unknown,
  SessionState, is_active, connecting, nothing_active,
}
use unicast.Daemon.Env.{Env, Checked, good, bad, emit}
use unicast.Daemon.Serve.{with_stream}
use unicast.Daemon.Owner.{Owner, IsValid, profile, present, served_protocol}
use unicast.Daemon.Connect.{
  start_media, start_server, install_cast, cast_attempts, cast_started, connect_cast, install_dlna,
  dlna_played, dlna_started, connect_dlna, install_airplay, airplay_played, airplay_started,
  connect_airplay, connect_protocol,
}

-- A session that is being set up: it has its number and its protocol, and holds nothing yet.
pub record Starting {F : Type 0} (q : Protocol) (id : ℕ) (d : Daemon F) : Type 0 where
  pub holds_nothing : d.active ≡ nothing_active
  pub numbered : d.session.session_id ≡ id
  pub next : d.next_session_id ≡ id + 1
  pub not_zero : 0 < id
  pub protocol : d.session.protocol ≡ q
  pub begun : d.session.state ≡ connecting

-- A session that was set up.
pub record Started {F : Type 0} (id : ℕ) (e : Daemon F) : Type 0 where
  pub valid : IsValid e
  pub numbered : e.session.session_id ≡ id
  pub next : e.next_session_id ≡ id + 1
  pub serving : e.active.serve ≢ none
  pub active : is_active e.session.state ≡ true

-- The result of setting up: a started session, or an error after which only the numbering is known.
abbrev pub Result : {F : Type 0} → ℕ → Daemon F × Checked (Unit {0}) → Type 0
Result id (e, good x) = Started id e
Result id (e, bad m) = e.next_session_id ≡ id + 1

active_connecting : (s : SessionState) → s ≡ connecting → is_active s ≡ true
unfolding is_active
active_connecting s h = ap (λ s. is_active s) h

some-ne-none : {A : Type 0} {a : A} → Option.some a ≢ none
some-ne-none h = cc

module _ {F : Type 0} {q : Protocol} {id : ℕ} (d : Daemon F) (h : Starting q id d) where
  open h use {numbered, next, not_zero, protocol, begun}

  no_session : {n : ℕ} → n ≡ id → n ≡ 0 → ⊥
  no_session e z = omega arith

  -- What was put in place for the receiver makes a started session.
  build :
      (e : Daemon F) {r : Protocol}
      → e.session ≡ d.session
      → e.next_session_id ≡ d.next_session_id
      → Owner q (present e.active.cast) (present e.active.dlna) (present e.active.airplay) (some r)
      → served_protocol e.active.serve ≡ some r
      → Started id e
  unfolding profile served_protocol
  build e {r} s n o c =
      let number : e.session.session_id ≡ id = ap (λ s. s.session_id) s ∙ numbered in
      let following : e.next_session_id ≡ id + 1 = n ∙ next in
      record {
        valid = record {
          profile_valid = record {
            handed_out = omega arith;
            owner =
                subst
                  (λ c.
                    Owner e.session.protocol (present e.active.cast) (present e.active.dlna)
                      (present e.active.airplay) c)
                  (sym c)
                  (subst
                    (λ p.
                      Owner p (present e.active.cast) (present e.active.dlna)
                        (present e.active.airplay) (some r))
                    (sym (ap (λ s. s.protocol) s ∙ protocol)) o);
            unowned = λ z. absurd (no_session number z);
          };
          media_owned = λ m. absurd (some-ne-none (sym c ∙ m));
        };
        numbered = number;
        next = following;
        serving = λ m. some-ne-none (sym c ∙ ap (λ c. served_protocol c) m);
        active = active_connecting e.session.state (ap (λ s. s.state) s ∙ begun);
      }

module _ (platform : Platform) where
  open platform use {F64}

  -- A daemon that holds a media server at most.
  abbrev pub with_media : Option MediaServer → List (Effect F64) → Daemon F64 → Daemon F64
  with_media m effects d = record d {
    active = record { media = m; cast = none; dlna = none; airplay = none; serve = none };
    effects = effects;
  }

  cast_attempts-Result :
      {id : ℕ} (first retry : Option Text) (context : ServeContext F64) (url : Text)
      (plan : ServePlan) (subtitle : Option ℕ) (m : Option MediaServer) (x : List (Effect F64))
      (d : Daemon F64)
      → Starting cast id d
      → context.device.protocol ≡ cast
      → Result id (
          cast_attempts platform first retry context url plan subtitle d.session.session_id
            (with_media m x d))
  unfolding cast_attempts install_cast emit with_stream served_protocol present
  cast_attempts-Result none retry context url plan subtitle m x d h c =
      build d h _ refl refl (refl, c) refl
  cast_attempts-Result (some first) none context url plan subtitle m x d h c =
      build d h _ refl refl (refl, c) refl
  cast_attempts-Result (some first) (some again) context url plan subtitle m x d h c = h.next

  cast_started-Result :
      {id : ℕ} (env : Env F64) (failed : Option Text) (ip : Option Ipv4)
      (context : ServeContext F64) (plan : ServePlan) (subtitle : Option ℕ) (x : List (Effect F64))
      (d : Daemon F64)
      → Starting cast id d
      → context.device.protocol ≡ cast
      → Result id (
          cast_started platform env context plan subtitle d.session.session_id
            (start_server platform failed ip context plan (with_media none x d)))
  unfolding cast_started start_server emit
  cast_started-Result env failed none context plan subtitle x d h c = h.next
  cast_started-Result env (some failed) (some ip) context plan subtitle x d h c = h.next
  cast_started-Result env none (some ip) context plan subtitle x d h c =
      cast_attempts-Result env.cast_error env.cast_retry_error context _ plan subtitle _ _ d h c

  dlna_played-Result :
      {id : ℕ} (failed : Option Text) (context : ServeContext F64) (url : Text) (plan : ServePlan)
      (control : Text) (m : Option MediaServer) (x : List (Effect F64)) (d : Daemon F64)
      → Starting dlna id d
      → context.device.protocol ≡ dlna
      → Result id (
          dlna_played platform failed context url plan control d.session.session_id
            (with_media m x d))
  unfolding dlna_played install_dlna emit with_stream served_protocol present
  dlna_played-Result none context url plan control m x d h c = build d h _ refl refl (refl, c) refl
  dlna_played-Result (some failed) context url plan control m x d h c = h.next

  dlna_started-Result :
      {id : ℕ} (env : Env F64) (failed : Option Text) (ip : Option Ipv4)
      (context : ServeContext F64) (plan : ServePlan) (control : Text) (subtitle : Option ℕ)
      (x : List (Effect F64)) (d : Daemon F64)
      → Starting dlna id d
      → context.device.protocol ≡ dlna
      → Result id (
          dlna_started platform env context plan control subtitle d.session.session_id
            (start_server platform failed ip context plan (with_media none x d)))
  unfolding dlna_started start_server emit
  dlna_started-Result env failed none context plan control subtitle x d h c = h.next
  dlna_started-Result env (some failed) (some ip) context plan control subtitle x d h c = h.next
  dlna_started-Result env none (some ip) context plan control subtitle x d h c =
      dlna_played-Result env.play_error context _ plan control _ _ d h c

  airplay_played-Result :
      {id : ℕ} (failed : Option Text) (context : ServeContext F64) (url : Text) (plan : ServePlan)
      (m : Option MediaServer) (x : List (Effect F64)) (d : Daemon F64)
      → Starting airplay id d
      → context.device.protocol ≡ airplay
      → Result id
          (airplay_played platform failed context url plan d.session.session_id (with_media m x d))
  unfolding airplay_played install_airplay emit with_stream served_protocol present
  airplay_played-Result none context url plan m x d h c = build d h _ refl refl (refl, c) refl
  airplay_played-Result (some failed) context url plan m x d h c = h.next

  airplay_started-Result :
      {id : ℕ} (env : Env F64) (failed : Option Text) (ip : Option Ipv4)
      (context : ServeContext F64) (plan : ServePlan) (x : List (Effect F64)) (d : Daemon F64)
      → Starting airplay id d
      → context.device.protocol ≡ airplay
      → Result id (
          airplay_started platform env context plan d.session.session_id
            (start_server platform failed ip context plan (with_media none x d)))
  unfolding airplay_started start_server emit
  airplay_started-Result env failed none context plan x d h c = h.next
  airplay_started-Result env (some failed) (some ip) context plan x d h c = h.next
  airplay_started-Result env none (some ip) context plan x d h c =
      airplay_played-Result env.airplay_error context _ plan _ _ d h c

  connect_dlna-Result :
      {id : ℕ} (env : Env F64) (control : Option Text) (context : ServeContext F64) (boost : ℕ)
      (subtitle : Option ℕ) (x : List (Effect F64)) (d : Daemon F64)
      → Starting dlna id d
      → context.device.protocol ≡ dlna
      → Result id (
          connect_dlna platform env control context boost subtitle d.session.session_id
            (with_media none x d))
  unfolding connect_dlna start_media
  connect_dlna-Result env none context boost subtitle x d h c = h.next
  connect_dlna-Result env (some control) context boost subtitle x d h c =
      dlna_started-Result env env.server_error (parse_ipv4 context.ip) context _ control subtitle x
        d h c

  pub connect_protocol-Result :
      {id : ℕ} (env : Env F64) (p : Protocol) (context : ServeContext F64) (boost : ℕ)
      (subtitle : Option ℕ) (x : List (Effect F64)) (d : Daemon F64)
      → Starting p id d
      → context.device.protocol ≡ p
      → Result id (
          connect_protocol platform env p context boost subtitle d.session.session_id
            (with_media none x d))
  unfolding connect_protocol connect_cast connect_airplay start_media
  connect_protocol-Result env cast context boost subtitle x d h c =
      cast_started-Result env env.server_error (parse_ipv4 context.ip) context _ subtitle x d h c
  connect_protocol-Result env dlna context boost subtitle x d h c =
      connect_dlna-Result env context.device.control_url context boost subtitle x d h c
  connect_protocol-Result env airplay context boost subtitle x d h c =
      airplay_started-Result env env.server_error (parse_ipv4 context.ip) context _ x d h c
  connect_protocol-Result env (unknown other) context boost subtitle x d h c = h.next
