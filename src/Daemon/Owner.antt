-- ===== src/Daemon/Owner.antt =====
-- src/daemon.rs: who owns the receiver. The profile of the daemon is what decides which operations
-- reach a receiver: the session's number and protocol, and which of the receivers is held.
use unicast.Base.{ℕ, ◌<◌, ◌≡◌, refl, Bool, true, false, Option, none, some, sym, ap, ◌∙◌, subst}
use unicast.Daemon.State.{Daemon, ServeContext, Protocol, cast, dlna, airplay}

pub record Profile : Type 0 where
  pub next_session_id : ℕ
  pub session_id : ℕ
  pub protocol : Protocol
  pub casts : Bool
  pub plays_dlna : Bool
  pub plays_airplay : Bool
  pub serves : Option Protocol

unfoldable pub present : {A : Type 0} → Option A → Bool
present none = false
present (some a) = true

unfoldable pub served_protocol : {F : Type 0} → Option (ServeContext F) → Option Protocol
served_protocol none = none
served_protocol (some context) = some context.device.protocol

unfoldable pub profile : {F : Type 0} → Daemon F → Profile
unfolding present served_protocol
profile d = record {
  next_session_id = d.next_session_id;
  session_id = d.session.session_id;
  protocol = d.session.protocol;
  casts = present d.active.cast;
  plays_dlna = present d.active.dlna;
  plays_airplay = present d.active.airplay;
  serves = served_protocol d.active.serve;
}

-- At most one receiver is held, the file is served for it, and it is of the session's protocol.
abbrev pub Owner : Protocol → Bool → Bool → Bool → Option Protocol → Type 0
Owner p false false false none = Unit {0}
Owner p true false false (some q) = (p ≡ cast) × (q ≡ cast)
Owner p false true false (some q) = (p ≡ dlna) × (q ≡ dlna)
Owner p false false true (some q) = (p ≡ airplay) × (q ≡ airplay)
Owner p _ _ _ _ = ⊥

-- The session's number was handed out; without a session nothing is served; a media server runs
-- only while a file is served.
pub record IsValidProfile (p : Profile) : Type 0 where
  pub handed_out : p.session_id < p.next_session_id
  pub owner : Owner p.protocol p.casts p.plays_dlna p.plays_airplay p.serves
  pub unowned : p.session_id ≡ 0 → p.serves ≡ none

pub record IsValid {F : Type 0} (d : Daemon F) : Type 0 where
  pub profile_valid : IsValidProfile (profile d)
  pub media_owned : served_protocol d.active.serve ≡ none → d.active.media ≡ none

-- An operation that leaves the ownership as it is.
pub record Keeps {F : Type 0} (d e : Daemon F) : Type 0 where
  pub same_profile : profile e ≡ profile d
  pub same_media : served_protocol d.active.serve ≡ none → e.active.media ≡ d.active.media

module _ {F : Type 0} where
  pub Keeps-refl : (d : Daemon F) → Keeps d d
  Keeps-refl d = record { same_profile = refl; same_media = λ h. refl }

  pub Keeps-trans : (d : Daemon F) {e f : Daemon F} → Keeps d e → Keeps e f → Keeps d f
  unfolding profile
  Keeps-trans d {e} {f} h k = record {
    same_profile = k.same_profile ∙ h.same_profile;
    same_media = λ n. k.same_media (ap (λ p. p.serves) h.same_profile ∙ n) ∙ h.same_media n;
  }

  pub Keeps-IsValid : (d : Daemon F) {e : Daemon F} → Keeps d e → IsValid d → IsValid e
  unfolding profile
  Keeps-IsValid d {e} k v = record {
    profile_valid = subst IsValidProfile (sym (k.same_profile)) (v.profile_valid);
    media_owned = λ n.
        let m = sym (ap (λ p. p.serves) k.same_profile) ∙ n in k.same_media m ∙ v.media_owned m;
  }
