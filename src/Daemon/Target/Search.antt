-- ===== src/Daemon/Target/Search.antt =====
-- src/daemon.rs: the search for a receiver changes nothing but the cache of receivers.
use unicast.Base.{
  ◌≡◌, refl, Bool, true, false, Option, none, some, List, Text, if◌then◌else◌, Platform,
}
use unicast.Daemon.State.{Daemon, Device}
use unicast.Daemon.Env.{Env}
use unicast.Daemon.Target.{
  discover, find_receiver, search_cache, discovered, search_found, probe_receiver, find_device,
}

-- The session, what it holds, the numbering and the manual addresses are as they were.
pub record SameSession {F : Type 0} (d e : Daemon F) : Type 0 where
  pub same_session : e.session ≡ d.session
  pub same_active : e.active ≡ d.active
  pub same_next : e.next_session_id ≡ d.next_session_id
  pub same_manual : e.manual_ips ≡ d.manual_ips

pub SameSession-refl : {F : Type 0} (d : Daemon F) → SameSession d d
SameSession-refl d = record {
  same_session = refl;
  same_active = refl;
  same_next = refl;
  same_manual = refl;
}

module _ (platform : Platform) where
  open platform use {F64}

  choose :
      (b : Bool) (d : Daemon F64) (r s : Daemon F64 × List Device)
      → SameSession d (r.0)
      → SameSession d (s.0)
      → SameSession d ((if b then r else s).0)
  choose true d r s h k = h
  choose false d r s h k = k

  pub discover-SameSession :
      (env : Env F64) (force : Bool) (d : Daemon F64)
      → SameSession d ((discover platform env force d).0)
  unfolding discover
  discover-SameSession env force d =
      choose _ d _ _ (SameSession-refl d)
        (record { same_session = refl; same_active = refl; same_next = refl; same_manual = refl })

  probe-SameSession :
      (probed : Option Device) (ip : Text) (d e : Daemon F64)
      → SameSession d e
      → SameSession d ((probe_receiver platform probed ip e).0)
  unfolding probe_receiver
  probe-SameSession none ip d e h = h
  probe-SameSession (some device) ip d e h = record {
    same_session = h.same_session;
    same_active = h.same_active;
    same_next = h.same_next;
    same_manual = h.same_manual;
  }

  search-SameSession :
      (env : Env F64) (found : Option Device) (ip : Text) (d e : Daemon F64)
      → SameSession d e
      → SameSession d ((search_found platform env found ip e).0)
  unfolding search_found
  search-SameSession env none ip d e h = probe-SameSession env.probed ip d e h
  search-SameSession env (some device) ip d e h = h

  discovered-SameSession :
      (env : Env F64) (ip : Text) (d : Daemon F64) (r : Daemon F64 × List Device)
      → SameSession d (r.0)
      → SameSession d ((discovered platform env ip r).0)
  unfolding discovered
  discovered-SameSession env ip d (e, found) h =
      search-SameSession env (find_device ip found) ip d e h

  cache-SameSession :
      (env : Env F64) (found : Option Device) (ip : Text) (d : Daemon F64)
      → SameSession d ((search_cache platform env found ip d).0)
  unfolding search_cache
  cache-SameSession env (some device) ip d = SameSession-refl d
  cache-SameSession env none ip d =
      discovered-SameSession env ip d _ (discover-SameSession env false d)

  pub find_receiver-SameSession :
      (env : Env F64) (ip : Text) (d : Daemon F64)
      → SameSession d ((find_receiver platform env ip d).0)
  unfolding find_receiver
  find_receiver-SameSession env ip d = cache-SameSession env (find_device ip d.devices) ip d
