-- ===== src/Daemon/Stored/Keeping.antt =====
-- src/daemon.rs: the operations on what is stored leave the ownership as it is.
use unicast.Base.{
  refl, ap, Bool, true, false, Option, none, some, List, Text, if◌then◌else◌, Platform, mem_text,
}
use unicast.Net.{valid_receiver_ip}
use unicast.Daemon.State.{Daemon, Response}
use unicast.Daemon.Env.{Env, emit}
use unicast.Daemon.Owner.{Keeps, Keeps-refl, Keeps-trans, profile}
use unicast.Daemon.Target.{discover}
use unicast.Daemon.Target.Search.{SameSession, discover-SameSession}
use unicast.Daemon.Stored.{
  write_manual_ips, answer_devices, add_manual, add_ip, remove_manual, remove_ip, save_multicast,
  clear_firewall,
}

module _ (platform : Platform) where
  open platform use {F64}

  if-Keeps :
      (b : Bool) (d : Daemon F64) {e f : Daemon F64}
      → Keeps d e
      → Keeps d f
      → Keeps d (if b then e else f)
  if-Keeps true d h k = h
  if-Keeps false d h k = k

  answer-Keeps :
      (b : Bool) (d : Daemon F64) (r s : Daemon F64 × Response F64)
      → Keeps d (r.0)
      → Keeps d (s.0)
      → Keeps d ((if b then r else s).0)
  answer-Keeps true d r s h k = h
  answer-Keeps false d r s h k = k

  SameSession-Keeps : (d e : Daemon F64) → SameSession d e → Keeps d e
  unfolding profile
  SameSession-Keeps d e h = record {
    same_profile = λ i. profile (record d {
      session = h.same_session i;
      active = h.same_active i;
      next_session_id = h.same_next i;
    });
    same_media = λ n. ap (λ a. a.media) h.same_active;
  }

  pub discover-Keeps :
      (env : Env F64) (force : Bool) (d : Daemon F64) → Keeps d ((discover platform env force d).0)
  discover-Keeps env force d = SameSession-Keeps d _ (discover-SameSession platform env force d)

  write_manual_ips-Keeps :
      (env : Env F64) (ips : List Text) (d : Daemon F64)
      → Keeps d (write_manual_ips platform env ips d)
  unfolding write_manual_ips profile
  write_manual_ips-Keeps env ips d =
      if-Keeps env.saves d (record { same_profile = refl; same_media = λ n. refl }) (Keeps-refl d)

  scanned :
      (env : Env F64) (d : Daemon F64) {e : Daemon F64}
      → Keeps d e
      → Keeps d ((answer_devices platform (discover platform env true e)).0)
  unfolding answer_devices
  scanned env d {e} h = Keeps-trans d h (discover-Keeps env true e)

  add_manual-Keeps :
      (env : Env F64) (ip : Option Text) (d : Daemon F64)
      → Keeps d ((add_manual platform env ip d).0)
  unfolding add_manual
  add_manual-Keeps env none d = Keeps-refl d
  add_manual-Keeps env (some ip) d =
      scanned env d
        (if-Keeps (mem_text ip d.manual_ips) d (Keeps-refl d) (write_manual_ips-Keeps env _ d))

  pub add_ip-Keeps :
      (env : Env F64) (value : Text) (d : Daemon F64) → Keeps d ((add_ip platform env value d).0)
  unfolding add_ip
  add_ip-Keeps env value d = add_manual-Keeps env (valid_receiver_ip value) d

  remove_manual-Keeps :
      (env : Env F64) (ip : Option Text) (d : Daemon F64)
      → Keeps d ((remove_manual platform env ip d).0)
  unfolding remove_manual
  remove_manual-Keeps env none d = Keeps-refl d
  remove_manual-Keeps env (some ip) d = scanned env d (write_manual_ips-Keeps env _ d)

  pub remove_ip-Keeps :
      (env : Env F64) (value : Text) (d : Daemon F64) → Keeps d ((remove_ip platform env value d).0)
  unfolding remove_ip
  remove_ip-Keeps env value d = remove_manual-Keeps env (env.parse_ip value) d

  pub save_multicast-Keeps :
      (env : Env F64) (value : Text) (d : Daemon F64)
      → Keeps d ((save_multicast platform env value d).0)
  unfolding save_multicast profile
  save_multicast-Keeps env value d =
      answer-Keeps _ d _ _ (Keeps-refl d) (record { same_profile = refl; same_media = λ n. refl })

  pub clear_firewall-Keeps :
      (env : Env F64) (d : Daemon F64) → Keeps d ((clear_firewall platform env d).0)
  unfolding clear_firewall profile emit
  clear_firewall-Keeps env d = record { same_profile = refl; same_media = λ n. refl }
