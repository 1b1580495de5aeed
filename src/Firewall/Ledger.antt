-- ===== src/Firewall/Ledger.antt =====
-- src/firewall.rs: ledger lines and rules.
use unicast.Base.{
  ℕ, ◌<◌, ◌≤◌, ◌≡◌, some, inl, inr, List, [], ◌∷◌, Text, arith, IsWord-digits, eq_text, eq_text_iff,
  eq_text_refl, split_whitespace, split_whitespace-append, split_whitespace_word, print_nat,
  print_nat-IsDigits, print_nat-ne-nil, parse_uint-print_nat, parse_uint_le, subst, ap, ◌∙◌, ◌⊎◌,
  u16_max, Bool-cases, Option-cases,
}
use unicast.Net.{parse_ipv4, valid_receiver_ip}
use unicast.Net.Canonical.{
  IsLan, IsLan-IsWord, IsLan-ne-nil, IsLan-ne-any, valid_receiver_ip-IsLan,
  valid_receiver_ip_canonical, parse_ipv4-show_ipv4, parse_ipv4-IsIpv4,
}
use unicast.Firewall.{Rule, IsRule, any_bind, rule_fields, check_receiver, parse, line}

check_receiver_of_IsLan : (rule : Rule) → IsLan rule.receiver → check_receiver rule ≡ some rule
unfolding check_receiver
check_receiver_of_IsLan rule l =
    rw (valid_receiver_ip-IsLan rule.receiver l, eq_text_refl rule.receiver)

split-line :
    (rule : Rule)
    → IsLan rule.receiver
    → IsLan rule.bind
    → split_whitespace (line rule) ≡ rule.receiver ∷ rule.bind ∷ print_nat rule.port ∷ []
unfolding line
split-line rule l b = elim (Bool-cases (eq_text rule.bind any_bind)) [
  | inl e ↦ absurd (IsLan-ne-any rule.bind b ((eq_text_iff rule.bind any_bind).0 e))
  | inr e ↦ rw e (
      rw (
        split_whitespace-append rule.receiver _ (IsLan-IsWord rule.receiver l)
            (IsLan-ne-nil rule.receiver l),
        split_whitespace-append rule.bind _ (IsLan-IsWord rule.bind b) (IsLan-ne-nil rule.bind b),
        split_whitespace_word (print_nat rule.port) (IsWord-digits _ (print_nat-IsDigits rule.port))
            (print_nat-ne-nil rule.port),
      ))
]

rule_fields_of_target :
    (rule : Rule) (legacy_port : ℕ)
    → IsLan rule.bind
    → 0 < rule.port
    → rule.port ≤ u16_max
    → rule_fields (rule.receiver ∷ rule.bind ∷ print_nat rule.port ∷ []) legacy_port ≡ some rule
unfolding rule_fields
rule_fields_of_target rule legacy_port b p u =
    let e : parse_ipv4 rule.bind ≡ some b.ip = rw b.shown (parse_ipv4-show_ipv4 b.ip b.octets) in
    ground (arith, e, b.lan, b.shown, parse_uint-print_nat u16_max rule.port)

line_of_any : (rule : Rule) → rule.bind ≡ any_bind → line rule ≡ rule.receiver
unfolding line
line_of_any rule b = ground (arith, eq_text_iff rule.bind any_bind)

old_rule :
    (rule : Rule) (legacy_port : ℕ)
    → rule.bind ≡ any_bind
    → rule.port ≡ legacy_port
    → ◌≡◌ {A = Rule} (record { receiver = rule.receiver; bind = any_bind; port = legacy_port }) rule
old_rule rule legacy_port b p = ground arith

-- What the daemon writes into its ledger is read back as the same rule.
pub parse-line :
    (legacy_port : ℕ) (rule : Rule)
    → IsRule legacy_port rule
    → parse (line rule) legacy_port ≡ some rule
unfolding parse
parse-line legacy_port rule h = elim h.target [
  | inl (b, p) ↦
      rw
        (
          line_of_any rule b,
          split_whitespace_word rule.receiver (IsLan-IsWord rule.receiver h.receiver_lan)
              (IsLan-ne-nil rule.receiver h.receiver_lan),
        )
        (ap check_receiver (old_rule rule legacy_port b p)
          ∙ check_receiver_of_IsLan rule h.receiver_lan)
  | inr (b, p, u) ↦
      rw (split-line rule h.receiver_lan b, rule_fields_of_target rule legacy_port b p u)
        (check_receiver_of_IsLan rule h.receiver_lan)
]

-- The target of a rule, before its receiver is checked.
record HasTarget (legacy_port : ℕ) (rule : Rule) : Type 0 where
  target :
      ((rule.bind ≡ any_bind) × (rule.port ≡ legacy_port))
      ⊎ (IsLan rule.bind × (0 < rule.port) × (rule.port ≤ u16_max))

new_rule-HasTarget :
    (receiver bind port : Text) (legacy_port : ℕ) {rule : Rule}
    → rule_fields (receiver ∷ bind ∷ port ∷ []) legacy_port ≡ some rule
    → HasTarget legacy_port rule
unfolding rule_fields
new_rule-HasTarget receiver bind port legacy_port {rule} h = elim (Option-cases (parse_ipv4 bind)) [
  | inl e ↦ ground arith
  | inr (ip, e) ↦ record {
    target = inr (
      record {
        ip = ip;
        octets = parse_ipv4-IsIpv4 bind {ip = ip} e;
        lan = ground arith;
        shown = ground arith;
      },
      ground arith,
      ground (arith, parse_uint_le u16_max port {n = rule.port}),
    );
  }
]

rule_fields-HasTarget :
    (fields : List Text) (legacy_port : ℕ) {rule : Rule}
    → rule_fields fields legacy_port ≡ some rule
    → HasTarget legacy_port rule
rule_fields-HasTarget (receiver ∷ []) legacy_port h =
    unfold rule_fields in record { target = inl (ground arith, ground arith) }
rule_fields-HasTarget (receiver ∷ bind ∷ port ∷ []) legacy_port {rule} h =
    new_rule-HasTarget receiver bind port legacy_port {rule = rule} h
rule_fields-HasTarget fields legacy_port h = unfold rule_fields in ground arith

check_receiver-IsRule :
    (legacy_port : ℕ) (fields : Rule) {rule : Rule}
    → HasTarget legacy_port fields
    → check_receiver fields ≡ some rule
    → IsRule legacy_port rule
unfolding check_receiver
check_receiver-IsRule legacy_port fields {rule} t h =
    elim (Option-cases (valid_receiver_ip fields.receiver)) [
      | inl e ↦ ground arith
      | inr (ip, e) ↦
          let same : rule ≡ fields = ground (arith, eq_text_iff ip fields.receiver) in
          let kept : ip ≡ fields.receiver = ground (arith, eq_text_iff ip fields.receiver) in
          rw same (record {
            receiver_lan =
                subst IsLan kept (valid_receiver_ip_canonical fields.receiver {t = ip} e).0;
            target = t.target;
          })
    ]

-- Whatever a ledger line holds, it is read as a rule that the daemon may hold, or refused.
pub parse-IsRule :
    (text : Text) (legacy_port : ℕ) {rule : Rule}
    → parse text legacy_port ≡ some rule
    → IsRule legacy_port rule
unfolding parse
parse-IsRule text legacy_port {rule} h =
    elim (Option-cases (rule_fields (split_whitespace text) legacy_port)) [
      | inl e ↦ ground arith
      | inr (fields, e) ↦
          check_receiver-IsRule legacy_port fields {rule = rule}
            (rule_fields-HasTarget (split_whitespace text) legacy_port {rule = fields} e)
            (ground arith)
    ]
