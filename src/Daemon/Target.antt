-- ===== src/Daemon/Target.antt =====
-- src/daemon.rs: the checks and the search for the receiver with which `connect` starts.
pub mod Search
use unicast.Base.{
  ℕ, ◌+◌, Bool, true, false, not, ◌&&◌, ◌||◌, Option, none, some, List, [], ◌∷◌, ◌++◌, Text, codes,
  ◌==◌, if◌then◌else◌, eq_text, is_empty, Platform,
}
use unicast.Net.{Ipv4, lan_ipv4, valid_receiver_ip}
use unicast.Paths.{is_absolute, expand_tilde, is_media_extension}
use unicast.Cast.Plan.{has_media_stream}
use unicast.Daemon.State.{Daemon, Session, Device, Message, connecting, default_session}
use unicast.Daemon.Env.{Env, Checked, good, bad, ◌>>=◌, ◌>>◌, require, get_ok, multicast_discovery}
use unicast.Daemon.Lifecycle.{disconnect_locked}

pub record Target : Type 0 where
  pub ip : Text
  pub path : Text
  pub bind : Ipv4

find_device : Text → List Device → Option Device
find_device ip [] = none
find_device ip (device ∷ devices) =
    if eq_text device.ip ip then some device else find_device ip devices

without_ip : Text → List Device → List Device
without_ip ip [] = []
without_ip ip (device ∷ devices) =
    if eq_text device.ip ip then without_ip ip devices else device ∷ without_ip ip devices

no_devices : List Device → Bool
no_devices [] = true
no_devices (_ ∷ _) = false

module _ (platform : Platform) where
  open platform use {F64, zero_seconds}

  player_file : Env F64 → Text
  player_file env = elim env.player_path [
    | none ↦ []
    | some path ↦ if is_media_extension platform path then path else []
  ]

  -- The checks before anything is disturbed.
  unfoldable pub check_target : Env F64 → Text → Text → Checked Target
  unfolding player_file
  check_target env value file = do
    ip ← get_ok (valid_receiver_ip value) Message.not_on_local_network
    let from_player = is_empty file
    let chosen = if from_player then player_file env else file
    require (not (is_empty chosen)) Message.no_player_file
    let path = expand_tilde env.home chosen
    require (is_absolute path) Message.not_absolute
    require (env.opens path) Message.file_not_found
    require (not from_player || has_media_stream (env.probe path)) Message.player_file_not_media
    bind ← get_ok (env.route ip) (Message.no_route ip)
    require (lan_ipv4 bind) (Message.route_not_lan ip bind)
    good (record { ip = ip; path = path; bind = bind })

  -- The old session is gone, and the new one is published as connecting.
  unfoldable pub begin : Target → Daemon F64 → Daemon F64
  unfolding disconnect_locked
  begin target d =
      let e = disconnect_locked d in
      record e {
        next_session_id = e.next_session_id + 1;
        session = record (default_session zero_seconds) {
          session_id = e.next_session_id;
          state = connecting;
          ip = target.ip;
          name = target.ip;
          file = target.path;
        };
      }

  -- `discover`: the cache serves unless it is empty, old or refused.
  unfoldable pub discover : Env F64 → Bool → Daemon F64 → Daemon F64 × List Device
  unfolding no_devices multicast_discovery
  discover env force d =
      let found = env.discovered d.manual_ips (multicast_discovery d.settings) in
      if not force && not (no_devices d.devices) && env.cache_fresh
      then (d, d.devices)
      else (record d { devices = found }, found)

  -- The address itself is asked, and a receiver that answers is remembered.
  probe_receiver : Option Device → Text → Daemon F64 → Daemon F64 × Option Device
  unfolding without_ip
  probe_receiver none ip d = (d, none)
  probe_receiver (some device) ip d =
      (record d { devices = without_ip ip d.devices ++ device ∷ [] }, some device)

  search_found : Env F64 → Option Device → Text → Daemon F64 → Daemon F64 × Option Device
  unfolding probe_receiver
  search_found env (some device) ip d = (d, some device)
  search_found env none ip d = probe_receiver env.probed ip d

  discovered : Env F64 → Text → Daemon F64 × List Device → Daemon F64 × Option Device
  unfolding search_found find_device
  discovered env ip (d, found) = search_found env (find_device ip found) ip d

  search_cache : Env F64 → Option Device → Text → Daemon F64 → Daemon F64 × Option Device
  unfolding discovered discover
  search_cache env (some device) ip d = (d, some device)
  search_cache env none ip d = discovered env ip (discover env false d)

  -- The cache of receivers, then a scan, then a probe of the address itself.
  unfoldable pub find_receiver : Env F64 → Text → Daemon F64 → Daemon F64 × Option Device
  unfolding search_cache find_device
  find_receiver env ip d = search_cache env (find_device ip d.devices) ip d
