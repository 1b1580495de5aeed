-- ===== src/Daemon/Connect/Ending.antt =====
-- src/daemon.rs: every way in which `connect` ends.
use unicast.Base.{
  ◌+◌, ◌<◌, ◌≡◌, refl, true, Option, none, some, Text, arith, sym, ap, subst, Platform,
}
use unicast.Firewall.Open.{Answer, ok, err}
use unicast.Daemon.State.{
  Daemon, Device, Message, Response, SessionState, is_active, default_session, nothing_active,
  connecting, idle, buffering, playing, paused, stopped, error,
}
use unicast.Daemon.Env.{Env, Checked, good, bad, emit, status_of}
use unicast.Daemon.Lifecycle.{disconnect_locked, reset_session}
use unicast.Daemon.Owner.{IsValid, profile}
use unicast.Daemon.Target.{Target, check_target, begin}
use unicast.Daemon.Target.Search.{SameSession, find_receiver-SameSession}
use unicast.Daemon.Connect.{
  connect_protocol, give_up, finish, with_firewall, connect_device, connect_found, connect_checked,
  connect, context_of, describe, no_longer_connecting, is_connecting,
}
use unicast.Daemon.Connect.Owning.{Starting, Started, Result, connect_protocol-Result}

-- Refused before anything happened; given up, with nothing left; or started.
pub data Ending {F : Type 0} (zero_seconds : F) (d : Daemon F)
    : Daemon F × Response F → Type 0 where
  refused : (m : Message) → Ending zero_seconds d (d, Response.error_response m)
  gave_up :
      (m : Message) {e : Daemon F}
      → e.active ≡ nothing_active
      → e.session ≡ default_session zero_seconds
      → e.next_session_id ≡ d.next_session_id + 1
      → Ending zero_seconds d (e, Response.error_response m)
  casting :
      {e : Daemon F}
      → Started d.next_session_id e
      → Ending zero_seconds d (e, Response.status (status_of e))

still_active : (s : SessionState) → is_active s ≡ true → is_active (no_longer_connecting s) ≡ true
unfolding no_longer_connecting is_connecting is_active
still_active idle h = h
still_active connecting h = refl
still_active buffering h = refl
still_active playing h = refl
still_active paused h = refl
still_active stopped h = h
still_active error h = refl

module _ (platform : Platform) where
  open platform use {F64, zero_seconds}

  give_up-Ending :
      (m : Message) (d e : Daemon F64)
      → e.next_session_id ≡ d.next_session_id + 1
      → Ending zero_seconds d (give_up platform m e)
  unfolding give_up reset_session disconnect_locked emit
  give_up-Ending m d e n = gave_up m refl refl n

  finish-Ending :
      (env : Env F64) (ip : Text) (d : Daemon F64) (r : Daemon F64 × Checked (Unit {0}))
      → Result d.next_session_id r
      → Ending zero_seconds d (finish platform env ip r)
  unfolding finish profile
  finish-Ending env ip d (e, bad m) h = give_up-Ending m d e h
  finish-Ending env ip d (e, good x) h = casting (record {
    valid = record { profile_valid = h.valid.profile_valid; media_owned = h.valid.media_owned };
    numbered = h.numbered;
    next = h.next;
    serving = h.serving;
    active = still_active e.session.state (h.active);
  })

  with_firewall-Ending :
      (env : Env F64) (answer : Answer) (target : Target) (device : Device) (d e : Daemon F64)
      → Starting device.protocol d.next_session_id e
      → Ending zero_seconds d (with_firewall platform env answer target device e)
  unfolding with_firewall context_of
  with_firewall-Ending env (err refusal) target device d e h = give_up-Ending _ d e (h.next)
  with_firewall-Ending env ok target device d e h = finish-Ending env target.ip d _ (
      subst
        (λ a. Result d.next_session_id (
          connect_protocol platform env device.protocol (context_of platform env target device)
            e.session.boost e.session.subtitle e.session.session_id (record e { active = a })))
        (sym (h.holds_nothing))
        (connect_protocol-Result platform env device.protocol
          (context_of platform env target device) e.session.boost e.session.subtitle e.effects e h
          refl))

  connect_found-Ending :
      (env : Env F64) (target : Target) (d : Daemon F64) (r : Daemon F64 × Option Device)
      → IsValid d
      → SameSession (begin platform target d) (r.0)
      → Ending zero_seconds d (connect_found platform env target r)
  unfolding connect_found connect_device describe begin disconnect_locked reset_session emit profile
  connect_found-Ending env target d (e, none) v s = gave_up _ (s.same_active) refl (s.same_next)
  connect_found-Ending env target d (e, some device) v s =
      let fresh : d.session.session_id < d.next_session_id = v.profile_valid.handed_out in
      with_firewall-Ending env _ target device d _ (record {
        holds_nothing = s.same_active;
        numbered = ap (λ s. s.session_id) s.same_session;
        next = s.same_next;
        not_zero = omega arith;
        protocol = refl;
        begun = ap (λ s. s.state) s.same_session;
      })

  connect_checked-Ending :
      (env : Env F64) (checked : Checked Target) (d : Daemon F64)
      → IsValid d
      → Ending zero_seconds d (connect_checked platform env checked d)
  unfolding connect_checked
  connect_checked-Ending env (bad m) d v = refused m
  connect_checked-Ending env (good target) d v =
      connect_found-Ending env target d _ v
        (find_receiver-SameSession platform env target.ip (begin platform target d))

  -- A connection attempt from a valid state ends in one of three ways. It answers an error and
  -- changes nothing; or it answers an error, holds nothing and has reset the session, with one
  -- session number used; or it answers the status of a valid state whose active session has the
  -- next number and serves a file.
  pub connect-Ending :
      (env : Env F64) (ip file : Text) (d : Daemon F64)
      → IsValid d
      → Ending zero_seconds d (connect platform env ip file d)
  unfolding connect
  connect-Ending env ip file d v =
      connect_checked-Ending env (check_target platform env ip file) d v
