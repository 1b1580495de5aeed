-- ===== src/Daemon/Stored.antt =====
-- src/daemon.rs: the operations on what is stored: manual addresses, settings, firewall rules.
pub mod Keeping
pub mod Addresses
use unicast.Base.{
  ℕ, Bool, true, false, not, ◌&&◌, Option, none, some, List, [], ◌∷◌, ◌++◌, Text, codes,
  if◌then◌else◌, eq_text, mem_text, Platform,
}
use unicast.Net.{valid_receiver_ip}
use unicast.Firewall.Open.{clear}
use unicast.Daemon.State.{Daemon, Message, Response, Device}
use unicast.Daemon.Env.{Env, with_status, set_setting, emit}
use unicast.Daemon.Target.{discover}
use unicast.Daemon.Connect.{ufw_effects}

without : Text → List Text → List Text
without ip [] = []
without ip (entry ∷ entries) =
    if eq_text entry ip then without ip entries else entry ∷ without ip entries

module _ (platform : Platform) where
  open platform use {F64}

  -- A write that fails leaves the file as it was.
  unfoldable pub write_manual_ips : Env F64 → List Text → Daemon F64 → Daemon F64
  write_manual_ips env ips d = if env.saves then record d { manual_ips = ips } else d

  unfoldable pub answer_devices : Daemon F64 × List Device → Daemon F64 × Response F64
  answer_devices (d, found) = (d, Response.devices found)

  add_manual : Env F64 → Option Text → Daemon F64 → Daemon F64 × Response F64
  unfolding answer_devices write_manual_ips
  add_manual env none d = (d, Response.error_response Message.enter_local_address)
  add_manual env (some ip) d = answer_devices (
      discover platform env true
        (if mem_text ip d.manual_ips then d else write_manual_ips env (d.manual_ips ++ ip ∷ []) d))

  unfoldable pub add_ip : Env F64 → Text → Daemon F64 → Daemon F64 × Response F64
  unfolding add_manual
  add_ip env value d = add_manual env (valid_receiver_ip value) d

  remove_manual : Env F64 → Option Text → Daemon F64 → Daemon F64 × Response F64
  unfolding answer_devices without write_manual_ips
  remove_manual env none d = (d, Response.error_response Message.invalid_address)
  remove_manual env (some ip) d =
      answer_devices (discover platform env true (write_manual_ips env (without ip d.manual_ips) d))

  unfoldable pub remove_ip : Env F64 → Text → Daemon F64 → Daemon F64 × Response F64
  unfolding remove_manual
  remove_ip env value d = remove_manual env (env.parse_ip value) d

  unfoldable pub save_multicast : Env F64 → Text → Daemon F64 → Daemon F64 × Response F64
  save_multicast env value d =
      if not (eq_text value (codes "true")) && not (eq_text value (codes "false"))
      then (d, Response.error_response Message.invalid_setting)
      else with_status (record d {
        settings = set_setting env.saves (codes "multicastDiscovery") value d.settings;
      })

  unfoldable pub clear_firewall : Env F64 → Daemon F64 → Daemon F64 × Response F64
  unfolding emit
  clear_firewall env d =
      let cleared = clear env.ufw env.cast_port d.ledger in
      with_status (record (emit (ufw_effects cleared.commands) d) { ledger = cleared.ledger })
