-- ===== src/Firewall/Open.antt =====
-- src/firewall.rs: opening the firewall for a receiver, and clearing the daemon's rules. `Ufw` is
-- what the system answers: whether ufw is on, its saved rules, and `pkexec ufw …`.
pub mod Written
pub mod Effects
use unicast.Base.{
  ℕ, Bool, true, false, Option, none, some, List, [], ◌∷◌, ◌++◌, map, Text, codes, if◌then◌else◌,
  filter_map, sorted_set,
}
use unicast.Net.{Ipv4, show_ipv4, lan_ipv4, valid_receiver_ip}
use unicast.Firewall.{Rule, parse, line, covers, ufw_args, rule_was_added}
use unicast.Firewall.Scan.{scan_user_rules}

pub record Ufw : Type 0 where
  pub active : Bool
  pub decode : List ℕ → Text
  pub user_rules : Option (List ℕ)
  pub run_output : List Text → Option Text

pub data Refusal : Type 0 where
  not_a_lan_receiver : Refusal
  cannot_read_rules : Rule → Refusal
  authorization_declined : Refusal

pub data Answer : Type 0 where
  ok : Answer
  err : Refusal → Answer

-- The ledger afterwards, the commands that were run, and the answer.
pub record Outcome : Type 0 where
  pub ledger : List Text
  pub commands : List (List Text)
  pub answer : Answer

unfoldable pub ledger_rules : ℕ → List Text → List Rule
ledger_rules legacy_port ledger = filter_map (λ text. parse text legacy_port) ledger

unfoldable pub write_ledger : List Rule → List Text
write_ledger rules = sorted_set (map line rules)

abbrev pub any_covers : List Rule → Text → Text → ℕ → Bool
any_covers [] receiver bind port = false
any_covers (rule ∷ rules) receiver bind port =
    if covers rule receiver bind port then true else any_covers rules receiver bind port

unfoldable pub user_rules_have : Ufw → Rule → Option Bool
user_rules_have ufw rule = elim ufw.user_rules [
  | none ↦ none
  | some bytes ↦ scan_user_rules ufw.decode bytes rule
]

abbrev pub allow_args : Rule → List Text
allow_args rule = codes "allow" ∷ ufw_args rule

abbrev pub delete_args : Rule → List Text
delete_args rule = codes "--force" ∷ codes "delete" ∷ codes "allow" ∷ ufw_args rule

abbrev nothing_run : List Text → Answer → Outcome
nothing_run ledger answer = record { ledger = ledger; commands = []; answer = answer }

-- After `ufw allow`: only "Rule added" puts the rule into the ledger.
record_added : List Rule → Rule → List Text → Option Text → Outcome
record_added rules rule ledger none = record {
  ledger = ledger;
  commands = allow_args rule ∷ [];
  answer = err authorization_declined;
}
record_added rules rule ledger (some stdout) = record {
  ledger = if rule_was_added stdout then write_ledger (rules ++ rule ∷ []) else ledger;
  commands = allow_args rule ∷ [];
  answer = ok;
}

ask_ufw : Ufw → List Rule → Rule → List Text → Option Bool → Outcome
ask_ufw ufw rules rule ledger (some true) = nothing_run ledger ok
ask_ufw ufw rules rule ledger (some false) =
    record_added rules rule ledger (ufw.run_output (allow_args rule))
ask_ufw ufw rules rule ledger none = nothing_run ledger (err (cannot_read_rules rule))

open_lan : Ufw → ℕ → List Text → Text → Text → ℕ → Outcome
open_lan ufw legacy_port ledger receiver bind port =
    let rules = ledger_rules legacy_port ledger in
    let rule : Rule = record { receiver = receiver; bind = bind; port = port } in
    if any_covers rules receiver bind port
    then nothing_run ledger ok
    else ask_ufw ufw rules rule ledger (user_rules_have ufw rule)

open_receiver : Ufw → ℕ → List Text → Ipv4 → ℕ → Option Text → Outcome
open_receiver ufw legacy_port ledger bind port none = nothing_run ledger (err not_a_lan_receiver)
open_receiver ufw legacy_port ledger bind port (some receiver) =
    if lan_ipv4 bind
    then open_lan ufw legacy_port ledger receiver (show_ipv4 bind) port
    else nothing_run ledger (err not_a_lan_receiver)

unfoldable pub open_rule : Ufw → ℕ → List Text → Text → Ipv4 → ℕ → Outcome
unfolding record_added ask_ufw open_lan open_receiver
open_rule ufw legacy_port ledger receiver bind port =
    if ufw.active
    then open_receiver ufw legacy_port ledger bind port (valid_receiver_ip receiver)
    else nothing_run ledger ok

-- The rules whose deletion failed.
pub remaining : Ufw → List Rule → List Rule
remaining ufw [] = []
remaining ufw (rule ∷ rules) = elim (ufw.run_output (delete_args rule)) [
  | none ↦ rule ∷ remaining ufw rules
  | some stdout ↦ remaining ufw rules
]

unfoldable pub clear : Ufw → ℕ → List Text → Outcome
unfolding remaining
clear ufw legacy_port ledger =
    let rules = ledger_rules legacy_port ledger in
    if ufw.active
    then record {
      ledger = write_ledger (remaining ufw rules);
      commands = map delete_args rules;
      answer = ok;
    }
    else record { ledger = write_ledger []; commands = []; answer = ok }
