-- ===== src/Firewall/Open/Effects.antt =====
-- src/firewall.rs: what `open` and `clear` do to the ledger and to ufw.
use unicast.Base.{
  arith, ℕ, ◌<◌, ◌≤◌, ◌≡◌, refl, sym, ◌∙◌, ap, ◌↔◌, ◌⊎◌, inl, inr, Bool, true, false, Option, none,
  some, List, [], ◌∷◌, ◌++◌, map, Text, In, In-append, Bool-cases, u16_max, if◌then◌else◌,
}
use unicast.Net.{Ipv4, IsIpv4, show_ipv4, lan_ipv4, valid_receiver_ip}
use unicast.Net.Canonical.{valid_receiver_ip_canonical}
use unicast.Firewall.{Rule, IsRule, rule_was_added}
use unicast.Firewall.Open.{
  Ufw, Outcome, ledger_rules, any_covers, user_rules_have, allow_args, delete_args, open_rule,
  open_receiver, open_lan, ask_ufw, record_added, remaining, clear,
}
use unicast.Firewall.Open.Written.{
  In-write_ledger, ledger_rules-AllRules, AllRules-append, remaining-AllRules, In-remaining,
}

-- While ufw is on, `clear` runs one deletion for each rule of the ledger and for nothing else, and
-- keeps in the ledger exactly the rules whose deletion failed. While ufw is off it runs nothing, and
-- no rule is left in the ledger, although none was deleted.
pub clear_keeps_failed :
    (ufw : Ufw) (legacy_port : ℕ) (ledger : List Text) (rule : Rule)
    → ((clear ufw legacy_port ledger).commands
        ≡ (if ufw.active then map delete_args (ledger_rules legacy_port ledger) else []))
      × (In rule (ledger_rules legacy_port (clear ufw legacy_port ledger).ledger) ↔ (
          (ufw.active ≡ true)
          × In rule (ledger_rules legacy_port ledger)
          × (ufw.run_output (delete_args rule) ≡ none)))
unfolding clear
clear_keeps_failed ufw legacy_port ledger rule =
    let rules = ledger_rules legacy_port ledger in
    let written =
      In-write_ledger legacy_port rule (remaining ufw rules)
        (remaining-AllRules ufw legacy_port rules (ledger_rules-AllRules legacy_port ledger)) in
    let kept = In-remaining ufw rule rules in
    elim (Bool-cases ufw.active) [
      | inl on ↦ rw on (
        refl,
        (
          λ h. let (i, failed) = kept.0 (written.0 h) in (refl, i, failed),
          λ (e, i, failed). written.1 (kept.1 (i, failed)),
        ),
      )
      | inr off ↦ rw off (
        refl,
        (
          λ h. absurd ((In-write_ledger legacy_port rule [] tt).0 h),
          λ (e, i, failed). absurd (ground arith),
        ),
      )
    ]

-- The rule that `open` is asked for, and why it is asked of ufw: ufw is on, the receiver's address is
-- read as a local one, so is the daemon's own address, no rule of the ledger covers the traffic, and
-- the whole of ufw's saved rules was read and held no rule for it.
pub record Wanted (ufw : Ufw) (legacy_port : ℕ) (before : List Text) (receiver : Text) (bind : Ipv4)
    (port : ℕ) (rule : Rule) : Type 0 where
  pub on : ufw.active ≡ true
  pub accepted : valid_receiver_ip receiver ≡ some rule.receiver
  pub bind_lan : lan_ipv4 bind ≡ true
  pub to_bind : rule.bind ≡ show_ipv4 bind
  pub to_port : rule.port ≡ port
  pub uncovered :
      any_covers (ledger_rules legacy_port before) rule.receiver rule.bind rule.port ≡ false
  pub free : user_rules_have ufw rule ≡ some false
  pub sound : IsRule legacy_port rule

-- What a call of `open` did.
pub data Opened (ufw : Ufw) (legacy_port : ℕ) (before : List Text) (receiver : Text) (bind : Ipv4)
    (port : ℕ) (after : Outcome) : Type 0 where
  untouched :
      ((rule : Rule) → Wanted ufw legacy_port before receiver bind port rule → ⊥)
      → after.ledger ≡ before
      → after.commands ≡ []
      → Opened ufw legacy_port before receiver bind port after
  allowed :
      (rule : Rule)
      → Wanted ufw legacy_port before receiver bind port rule
      → after.commands ≡ allow_args rule ∷ []
      → after.ledger ≡ before
      → Opened ufw legacy_port before receiver bind port after
  recorded :
      (rule : Rule) (stdout : Text)
      → Wanted ufw legacy_port before receiver bind port rule
      → after.commands ≡ allow_args rule ∷ []
      → ufw.run_output (allow_args rule) ≡ some stdout
      → rule_was_added stdout ≡ true
      → ((r : Rule)
          → In r (ledger_rules legacy_port after.ledger)
            ↔ (In r (ledger_rules legacy_port before) ⊎ (r ≡ rule)))
      → Opened ufw legacy_port before receiver bind port after

module _ (ufw : Ufw) (legacy_port : ℕ) (ledger : List Text) (receiver : Text) (bind : Ipv4)
    (port : ℕ) where
  abbrev Did : Outcome → Type 0
  Did after = Opened ufw legacy_port ledger receiver bind port after

  abbrev IsWanted : Rule → Type 0
  IsWanted rule = Wanted ufw legacy_port ledger receiver bind port rule

  -- There is one rule that can be wanted.
  Wanted-same :
      (host : Text) (rule : Rule)
      → valid_receiver_ip receiver ≡ some host
      → IsWanted rule
      → rule ≡ record { receiver = host; bind = show_ipv4 bind; port = port }
  Wanted-same host rule accepted w =
      let again = w.accepted in
      let same : rule.receiver ≡ host = cc (accepted, again) in
      λ i. record { receiver = same i; bind = w.to_bind i; port = w.to_port i }

  record_added-Opened :
      (rule : Rule)
      → IsWanted rule
      → (out : Option Text) → ufw.run_output (allow_args rule) ≡ out
      → Did (record_added (ledger_rules legacy_port ledger) rule ledger out)
  unfolding record_added
  record_added-Opened rule h none ran = allowed rule h refl refl
  record_added-Opened rule h (some stdout) ran = elim (Bool-cases (rule_was_added stdout)) [
    | inr no_new ↦ allowed rule h refl (rw no_new)
    | inl new ↦ recorded rule stdout h refl ran new λ r.
        let rules = ledger_rules legacy_port ledger in
        let written = In-write_ledger legacy_port r (rules ++ rule ∷ []) (
          AllRules-append legacy_port rules rule (ledger_rules-AllRules legacy_port ledger)
            h.sound) in
        let split = In-append r rules (rule ∷ []) in
        rw new (
          λ i. elim (split.0 (written.0 i)) [
            | inl k ↦ inl k
            | inr k ↦ elim k [ inl e ↦ inr e | inr none_left ↦ absurd none_left ]
          ],
          elim [ inl k ↦ written.1 (split.1 (inl k)) | inr e ↦ written.1 (split.1 (inr (inl e))) ],
        )
  ]

  ask_ufw-Opened :
      (rule : Rule) (have : Option Bool)
      → ((other : Rule) → IsWanted other → have ≡ some false)
      → (have ≡ some false → IsWanted rule)
      → Did (ask_ufw ufw (ledger_rules legacy_port ledger) rule ledger have)
  unfolding ask_ufw
  ask_ufw-Opened rule none only wanted =
      untouched (λ other w. let e = only other w in cc e) refl refl
  ask_ufw-Opened rule (some true) only wanted =
      untouched (λ other w. let e = only other w in cc e) refl refl
  ask_ufw-Opened rule (some false) only wanted = record_added-Opened rule (wanted refl) _ refl

  open_lan-Opened :
      (host : Text)
      → ufw.active ≡ true
      → valid_receiver_ip receiver ≡ some host
      → lan_ipv4 bind ≡ true
      → IsIpv4 bind
      → 0 < port
      → port ≤ u16_max
      → Did (open_lan ufw legacy_port ledger host (show_ipv4 bind) port)
  unfolding open_lan
  open_lan-Opened host on accepted lan octets p u =
      let rules = ledger_rules legacy_port ledger in
      let rule : Rule = record { receiver = host; bind = show_ipv4 bind; port = port } in
      let covered : (other : Rule)
          → IsWanted other
          → any_covers rules host (show_ipv4 bind) port ≡ true
          → ⊥ =
        λ other w e.
          let same =
            ap (λ q. any_covers rules q.receiver q.bind q.port)
              (Wanted-same host other accepted w) in
          let free = w.uncovered in cc (same, e, free) in
      let only : (other : Rule) → IsWanted other → user_rules_have ufw rule ≡ some false =
        λ other w.
          let same = ap (λ q. user_rules_have ufw q) (Wanted-same host other accepted w) in
          sym same ∙ w.free in
      elim (Bool-cases (any_covers rules host (show_ipv4 bind) port)) [
        | inl e ↦ rw e (untouched (λ other w. covered other w e) refl refl)
        | inr e ↦ rw e (
            ask_ufw-Opened rule (user_rules_have ufw rule) only λ free. record {
              on = on;
              accepted = accepted;
              bind_lan = lan;
              to_bind = refl;
              to_port = refl;
              uncovered = e;
              free = free;
              sound = record {
                receiver_lan = (valid_receiver_ip_canonical receiver {t = host} accepted).0;
                target = inr (record { ip = bind; octets = octets; lan = lan; shown = refl }, p, u);
              };
            })
      ]

  open_receiver-Opened :
      ufw.active ≡ true
      → IsIpv4 bind
      → 0 < port
      → port ≤ u16_max
      → (who : Option Text) → valid_receiver_ip receiver ≡ who
      → Did (open_receiver ufw legacy_port ledger bind port who)
  unfolding open_receiver
  open_receiver-Opened on octets p u none e =
      untouched (λ other w. let accepted = w.accepted in cc (e, accepted)) refl refl
  open_receiver-Opened on octets p u (some host) e = elim (Bool-cases (lan_ipv4 bind)) [
    | inr far ↦ rw far (untouched (λ other w. let lan = w.bind_lan in cc (far, lan)) refl refl)
    | inl lan ↦ rw lan (open_lan-Opened host on e lan octets p u)
  ]

-- Whatever the receiver, the bind address and the ledger are, `open` runs one `ufw allow`, for the
-- receiver it was asked for, at a local address, on the local bind address and the port it was asked
-- for, where ufw is on, no rule of the ledger covers that traffic, and the whole of ufw's saved rules
-- was read and held no rule for it; in all other cases it leaves the ledger and runs nothing.
-- The ledger gains that rule, and no other, only where ufw answered "Rule added"; else it stays as
-- it was.
pub open_rule-Opened :
    (ufw : Ufw) (legacy_port : ℕ) (ledger : List Text) (receiver : Text) (bind : Ipv4) (port : ℕ)
    → IsIpv4 bind
    → 0 < port
    → port ≤ u16_max
    → Opened ufw legacy_port ledger receiver bind port
        (open_rule ufw legacy_port ledger receiver bind port)
unfolding open_rule
open_rule-Opened ufw legacy_port ledger receiver bind port b p u = elim (Bool-cases ufw.active) [
  | inr e ↦ simp e (untouched (λ other w. let on = w.on in cc (e, on)) refl refl)
  | inl e ↦ simp e (open_receiver-Opened ufw legacy_port ledger receiver bind port e b p u _ refl)
]
