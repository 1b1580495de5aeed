-- ===== src/Daemon/Restream/Keeping.antt =====
-- src/daemon.rs: pointing the receiver at a new stream leaves the ownership as it is.
use unicast.Base.{
  ℕ, ◌≡◌, ◌≢◌, refl, Option, none, some, Text, inl, inr, Bool-cases, sym, ap, ◌∙◌, Platform,
}
use unicast.Net.{Ipv4, parse_ipv4}
use unicast.Daemon.State.{
  MediaServer, Daemon, DlnaSession, AirplaySession, ServeContext, Protocol, cast, dlna, airplay,
  unknown, Message, ServePlan, is_active,
}
use unicast.Daemon.Env.{Env, Checked, good, bad, emit}
use unicast.Daemon.Lifecycle.{fail_session}
use unicast.Daemon.Serve.{with_stream}
use unicast.Daemon.Connect.{start_media, start_server}
use unicast.Daemon.Owner.{
  Profile, Keeps, profile, present, served_protocol, Keeps-refl, Keeps-trans,
}
use unicast.Daemon.Restream.{
  fail_with, same_message, restart_dlna, restart_airplay, restart_dlna_session,
  restart_airplay_session, replay_dlna, replay_airplay, reload_cast, repoint, serve_again,
  restream_context, restream_inner, restream, abort_pollers, stop_server, stop_media, playing_at,
}

pub fail_session-Keeps : {F : Type 0} (m : Message) (d : Daemon F) → Keeps d (fail_session m d)
unfolding fail_session profile emit
fail_session-Keeps m d = elim (Bool-cases (is_active d.session.state)) [
  | inl e ↦ rw e (record { same_profile = refl; same_media = λ n. refl })
  | inr e ↦ rw e (Keeps-refl d)
]

some-ne-none : {A : Type 0} {a : A} → Option.some a ≢ none
some-ne-none h = cc

fail_with-Keeps :
    {F : Type 0} (describe : Message → Message) (d : Daemon F) (r : Daemon F × Checked (Unit {0}))
    → Keeps d (r.0)
    → Keeps d ((fail_with describe r).0)
unfolding fail_with
fail_with-Keeps describe d (e, good x) k = k
fail_with-Keeps describe d (e, bad m) k = Keeps-trans d k (fail_session-Keeps (describe m) e)

module _ (platform : Platform) where
  open platform use {F64}

  restart_dlna_session-Keeps :
      (env : Env F64) (c : Option (ServeContext F64)) (t : Option (DlnaSession F64))
      (position : F64) (d : Daemon F64)
      → t ≡ d.active.dlna
      → Keeps d ((restart_dlna_session platform env c t position d).0)
  unfolding restart_dlna_session replay_dlna playing_at emit profile
  restart_dlna_session-Keeps env none t position d e = Keeps-refl d
  restart_dlna_session-Keeps env (some context) none position d e = Keeps-refl d
  restart_dlna_session-Keeps env (some context) (some s) position d e =
      fail_with-Keeps same_message d (replay_dlna platform env context s position d) (record {
        same_profile = ap (λ b. record (profile d) { plays_dlna = b }) (ap (λ t. present t) e);
        same_media = λ n. refl;
      })

  pub restart_dlna-Keeps :
      (env : Env F64) (position : F64) (d : Daemon F64)
      → Keeps d ((restart_dlna platform env position d).0)
  unfolding restart_dlna
  restart_dlna-Keeps env position d =
      restart_dlna_session-Keeps env d.active.serve d.active.dlna position d refl

  restart_airplay_session-Keeps :
      (env : Env F64) (c : Option (ServeContext F64)) (t : Option (AirplaySession F64))
      (position : F64) (d : Daemon F64)
      → t ≡ d.active.airplay
      → Keeps d ((restart_airplay_session platform env c t position d).0)
  unfolding restart_airplay_session replay_airplay playing_at emit profile
  restart_airplay_session-Keeps env none t position d e = Keeps-refl d
  restart_airplay_session-Keeps env (some context) none position d e = Keeps-refl d
  restart_airplay_session-Keeps env (some context) (some s) position d e =
      fail_with-Keeps Message.stream_rejected d (replay_airplay platform env context s position d)
        (record {
          same_profile = ap (λ b. record (profile d) { plays_airplay = b }) (ap (λ t. present t) e);
          same_media = λ n. refl;
        })

  pub restart_airplay-Keeps :
      (env : Env F64) (position : F64) (d : Daemon F64)
      → Keeps d ((restart_airplay platform env position d).0)
  unfolding restart_airplay
  restart_airplay-Keeps env position d =
      restart_airplay_session-Keeps env d.active.serve d.active.airplay position d refl

  reload_cast-Keeps :
      (t : Option ℕ) (context : ServeContext F64) (position : F64) (d : Daemon F64)
      → Keeps d ((reload_cast platform t context position d).0)
  unfolding reload_cast emit profile
  reload_cast-Keeps none context position d = Keeps-refl d
  reload_cast-Keeps (some thread) context position d = record {
    same_profile = refl;
    same_media = λ n. refl;
  }

  repoint-Keeps :
      (env : Env F64) (p : Protocol) (context : ServeContext F64) (position : F64) (d : Daemon F64)
      → Keeps d ((repoint platform env p context position d).0)
  unfolding repoint
  repoint-Keeps env cast context position d = reload_cast-Keeps d.active.cast context position d
  repoint-Keeps env dlna context position d = restart_dlna-Keeps env position d
  repoint-Keeps env airplay context position d = restart_airplay-Keeps env position d
  repoint-Keeps env (unknown other) context position d = Keeps-refl d

  -- While a file is served, its media server may come and go.
  swapped :
      {d e : Daemon F64} → profile e ≡ profile d → served_protocol d.active.serve ≢ none → Keeps d e
  swapped h n = record { same_profile = h; same_media = λ m. absurd (n m) }

  stop_media-profile :
      (m : Option MediaServer) (d : Daemon F64) → profile (stop_media m d) ≡ profile d
  unfolding stop_media emit profile
  stop_media-profile none d = refl
  stop_media-profile (some server) d = refl

  start_server-profile :
      (failed : Option Text) (ip : Option Ipv4) (context : ServeContext F64) (plan : ServePlan)
      (d : Daemon F64)
      → profile ((start_server platform failed ip context plan d).0) ≡ profile d
  unfolding start_server emit profile
  start_server-profile failed none context plan d = refl
  start_server-profile (some error) (some ip) context plan d = refl
  start_server-profile none (some ip) context plan d = refl

  serve_again-profile :
      (env : Env F64) (context : ServeContext F64) (plan : ServePlan) (boost : ℕ) (position : F64)
      (d : Daemon F64) (r : Daemon F64 × Checked Text)
      → profile (r.0) ≡ profile d
      → served_protocol d.active.serve ≡ some context.device.protocol
      → profile ((serve_again platform env context plan boost position r).0) ≡ profile d
  unfolding serve_again with_stream profile served_protocol
  serve_again-profile env context plan boost position d (e, bad m) h n = h
  serve_again-profile env context plan boost position d (e, good url) h n =
      (repoint-Keeps env context.device.protocol _ position _).same_profile
      ∙ (ap {A = Profile} (λ p. record p { serves = some context.device.protocol }) h
          ∙ ap (λ q. record (profile d) { serves = q }) (sym n))

  restream_context-Keeps :
      (env : Env F64) (c : Option (ServeContext F64)) (boost : ℕ) (position : F64) (d : Daemon F64)
      → c ≡ d.active.serve
      → Keeps d ((restream_context platform env c boost position d).0)
  unfolding restream_context stop_server start_media served_protocol
  restream_context-Keeps env none boost position d e = Keeps-refl d
  restream_context-Keeps env (some context) boost position d e =
      swapped
        (serve_again-profile env context _ boost position d _
          (start_server-profile env.server_error (parse_ipv4 context.ip) context _ _
            ∙ stop_media-profile d.active.media d)
          (sym (ap (λ c. served_protocol c) e)))
        (λ m. some-ne-none (ap (λ c. served_protocol c) e ∙ m))

  pub restream-Keeps :
      (env : Env F64) (boost : ℕ) (position : F64) (d : Daemon F64)
      → Keeps d ((restream platform env boost position d).0)
  unfolding restream restream_inner abort_pollers emit profile
  restream-Keeps env boost position d =
      fail_with-Keeps Message.could_not_restart d (restream_inner platform env boost position d) (
        Keeps-trans d (record { same_profile = refl; same_media = λ n. refl })
          (restream_context-Keeps env d.active.serve boost position (abort_pollers d) refl))
