-- ===== src/Daemon/Request.antt =====
-- src/protocol.rs, src/daemon.rs: a request of a client, and the command that it names.
use unicast.Base.{Bool, Option, List, [], ◌∷◌, Text, codes, if◌then◌else◌, eq_text}

-- The fields of a request; a text that is left out is empty.
pub record Request (F : Type 0) : Type 0 where
  pub cmd : Text
  pub ip : Text
  pub file : Text
  pub value : Text
  pub position : Option F
  pub force : Bool

pub data Command : Type 0 where
  ping status deps discover connect disconnect pause resume seek set_volume set_mute : Command
  set_boost set_subtitle add_ip remove_ip save_multicast clear_firewall shutdown : Command
  other : Text → Command

first_match : Text → List (Text × Command) → Command
first_match name [] = other name
first_match name ((key, command) ∷ rest) =
    if eq_text name key then command else first_match name rest

abbrev commands : List (Text × Command)
commands =
    (codes "ping", Command.ping)
    ∷ (codes "status", Command.status)
    ∷ (codes "deps", Command.deps)
    ∷ (codes "discover", Command.discover)
    ∷ (codes "connect", Command.connect)
    ∷ (codes "disconnect", Command.disconnect)
    ∷ (codes "stop", Command.disconnect)
    ∷ (codes "pause", Command.pause)
    ∷ (codes "resume", Command.resume)
    ∷ (codes "seek", Command.seek)
    ∷ (codes "set-volume", Command.set_volume)
    ∷ (codes "set-mute", Command.set_mute)
    ∷ (codes "set-boost", Command.set_boost)
    ∷ (codes "set-subtitle", Command.set_subtitle)
    ∷ (codes "add-ip", Command.add_ip)
    ∷ (codes "remove-ip", Command.remove_ip)
    ∷ (codes "save-multicast", Command.save_multicast)
    ∷ (codes "clear-firewall", Command.clear_firewall)
    ∷ (codes "shutdown", Command.shutdown)
    ∷ []

unfoldable pub command_of : Text → Command
unfolding first_match
command_of name = first_match name commands
