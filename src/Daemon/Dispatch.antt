-- ===== src/Daemon/Dispatch.antt =====
-- src/daemon.rs: `dispatch`.
use unicast.Base.{Option, none, some, Platform}
use unicast.Daemon.State.{Daemon, Message, Response}
use unicast.Daemon.Env.{Env, with_status}
use unicast.Daemon.Request.{
  Request, Command, command_of, ping, status, deps, discover, connect, disconnect, pause, resume,
  seek, set_volume, set_mute, set_boost, set_subtitle, add_ip, remove_ip, save_multicast,
  clear_firewall, shutdown, other,
}
use unicast.Daemon.Lifecycle
use unicast.Daemon.Connect
use unicast.Daemon.Target
use unicast.Daemon.Control
use unicast.Daemon.Stored

module _ (platform : Platform) where
  open platform use {F64}

  -- The missing position is -1.0.
  unfoldable pub seek_request : Env F64 → Option F64 → Daemon F64 → Daemon F64 × Response F64
  seek_request env none d = with_status d
  seek_request env (some position) d = Control.seek platform env position d

  unfoldable pub run : Env F64 → Request F64 → Command → Daemon F64 → Daemon F64 × Response F64
  unfolding seek_request
  run env request ping d = (d, Response.ok)
  run env request status d = with_status d
  run env request deps d = (d, Response.deps env.has_ffmpeg env.has_ffprobe)
  run env request discover d =
      Stored.answer_devices platform (Target.discover platform env request.force d)
  run env request connect d = Connect.connect platform env request.ip request.file d
  run env request disconnect d = Lifecycle.disconnect platform d
  run env request pause d = Control.pause d
  run env request resume d = Control.resume d
  run env request seek d = seek_request env request.position d
  run env request set_volume d = Control.set_volume platform env request.value d
  run env request set_mute d = Control.set_mute env request.value d
  run env request set_boost d = Control.set_boost platform env request.value d
  run env request set_subtitle d = Control.set_subtitle platform env request.value d
  run env request add_ip d = Stored.add_ip platform env request.ip d
  run env request remove_ip d = Stored.remove_ip platform env request.ip d
  run env request save_multicast d = Stored.save_multicast platform env request.value d
  run env request clear_firewall d = Stored.clear_firewall platform env d
  run env request shutdown d = (d, Response.ok)
  run env request (other name) d = (d, Response.error_response (Message.unknown_command name))

  unfoldable pub dispatch : Env F64 → Request F64 → Daemon F64 → Daemon F64 × Response F64
  dispatch env request d = run env request (command_of request.cmd) d
