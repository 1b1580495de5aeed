-- ===== src/Firewall.antt =====
-- src/firewall.rs: the rules that the daemon adds to ufw, and what it reads of ufw's own files.
pub mod Ledger
pub mod Scan
pub mod Open
mod Tests
use unicast.Base.{
  ℕ, ◌<◌, ◌≤◌, ◌≡◌, ◌⊎◌, Bool, true, false, not, ◌&&◌, ◌||◌, Option, none, some, List, [], ◌∷◌,
  ◌++◌, map, Text, codes, eq_text, ltb, ◌==◌, if◌then◌else◌, is_empty, contains_char, lines, trim,
  trim_char, strip_prefix, strip_suffix, split_whitespace, split_once_text, print_nat, parse_uint,
  u16_max,
}
use unicast.Net.{Ipv4, parse_ipv4, show_ipv4, lan_ipv4, valid_receiver_ip}
use unicast.Net.Canonical.{IsLan}

abbrev pub any_of : (Text → Bool) → List Text → Bool
any_of p [] = false
any_of p (s ∷ rest) = p s || any_of p rest

enabled_line : Text → Bool
enabled_line line = elim (strip_prefix (codes "ENABLED=") (trim line)) [
  | none ↦ false
  | some value ↦ eq_text (trim_char b'"' (trim value)) (codes "yes")
]

unfoldable pub enabled_in : Text → Bool
unfolding enabled_line
enabled_in conf = any_of enabled_line (lines conf)

pub record Rule : Type 0 where
  pub receiver : Text
  pub bind : Text
  pub port : ℕ

abbrev pub any_bind : Text
any_bind = codes "any"

infixl 5 ◌>>=◌
abbrev ◌>>=◌ {ℓ κ} : {A : Type ℓ} {B : Type κ} → Option A → (A → Option B) → Option B
none >>= k = none
some x >>= k = k x

-- The fields of a ledger line, with the receiver still unchecked.
rule_fields : List Text → ℕ → Option Rule
rule_fields (receiver ∷ []) legacy_port =
    some (record { receiver = receiver; bind = any_bind; port = legacy_port })
rule_fields (receiver ∷ bind ∷ port ∷ []) legacy_port = do
  ip ← parse_ipv4 bind
  lan ← (if lan_ipv4 ip then some ip else none)
  number ← parse_uint u16_max port
  open_port ← (if ltb 0 number then some number else none)
  some (record { receiver = receiver; bind = show_ipv4 lan; port = open_port })
rule_fields _ legacy_port = none

-- `valid_receiver_ip(receiver).filter(|ip| ip == receiver)`.
check_receiver : Rule → Option Rule
check_receiver rule = do
  receiver ← valid_receiver_ip rule.receiver
  if eq_text receiver rule.receiver then some (record rule { receiver = receiver }) else none

unfoldable pub parse : Text → ℕ → Option Rule
unfolding rule_fields check_receiver
parse line legacy_port = do
  rule ← rule_fields (split_whitespace line) legacy_port
  check_receiver rule

unfoldable pub line : Rule → Text
line rule =
    if eq_text rule.bind any_bind
    then rule.receiver
    else rule.receiver ++ 32 ∷ (rule.bind ++ 32 ∷ print_nat rule.port)

unfoldable pub covers : Rule → Text → Text → ℕ → Bool
covers rule receiver bind port =
    eq_text rule.receiver receiver
    && rule.port == port
    && (eq_text rule.bind any_bind || eq_text rule.bind bind)

unfoldable pub ufw_args : Rule → List Text
ufw_args rule =
    codes "from"
    ∷ rule.receiver
    ∷ codes "proto"
    ∷ codes "tcp"
    ∷ codes "to"
    ∷ rule.bind
    ∷ codes "port"
    ∷ print_nat rule.port
    ∷ codes "comment"
    ∷ (codes "universal-cast-" ++ rule.receiver)
    ∷ []

-- A rule that the daemon may hold: a local receiver, and either one local bind address with a
-- usable port or, in the old form, every address with the configured port.
pub record IsRule (legacy_port : ℕ) (rule : Rule) : Type 0 where
  pub receiver_lan : IsLan rule.receiver
  pub target :
      ((rule.bind ≡ any_bind) × (rule.port ≡ legacy_port))
      ⊎ (IsLan rule.bind × (0 < rule.port) × (rule.port ≤ u16_max))

-- A `### tuple ###` line cut into its nine parts; the shorter forms are filled up.
pub record Tuple : Type 0 where
  pub action : Text
  pub proto : Text
  pub dport : Text
  pub dst : Text
  pub sport : Text
  pub src : Text
  pub dapp : Text
  pub sapp : Text
  pub direction : Text

abbrev dash : Text
dash = codes "-"

tuple_fields : List Text → Option Tuple
tuple_fields (a ∷ p ∷ dp ∷ d ∷ sp ∷ s ∷ []) = some (record {
  action = a;
  proto = p;
  dport = dp;
  dst = d;
  sport = sp;
  src = s;
  dapp = dash;
  sapp = dash;
  direction = codes "in";
})
tuple_fields (a ∷ p ∷ dp ∷ d ∷ sp ∷ s ∷ dir ∷ []) = some (record {
  action = a;
  proto = p;
  dport = dp;
  dst = d;
  sport = sp;
  src = s;
  dapp = dash;
  sapp = dash;
  direction = dir;
})
tuple_fields (a ∷ p ∷ dp ∷ d ∷ sp ∷ s ∷ da ∷ sa ∷ []) = some (record {
  action = a;
  proto = p;
  dport = dp;
  dst = d;
  sport = sp;
  src = s;
  dapp = da;
  sapp = sa;
  direction = codes "in";
})
tuple_fields (a ∷ p ∷ dp ∷ d ∷ sp ∷ s ∷ da ∷ sa ∷ dir ∷ []) = some (record {
  action = a;
  proto = p;
  dport = dp;
  dst = d;
  sport = sp;
  src = s;
  dapp = da;
  sapp = sa;
  direction = dir;
})
tuple_fields _ = none

-- An address without the `/32` that means the one address.
bare : Text → Text
bare address = elim (strip_suffix (codes "/32") address) [ none ↦ address | some rest ↦ rest ]

same_traffic : Tuple → Rule → Bool
unfolding bare
same_traffic t rule =
    not (contains_char b':' t.action)
    && eq_text t.proto (codes "tcp")
    && eq_text t.dport (print_nat rule.port)
    && eq_text t.sport (codes "any")
    && eq_text (bare t.dst) rule.bind
    && eq_text (bare t.src) rule.receiver
    && eq_text t.dapp dash
    && eq_text t.sapp dash
    && eq_text t.direction (codes "in")

-- Everything from the first " comment=" is dropped.
before_comment : Text → Text
before_comment tuple = elim (split_once_text (codes " comment=") tuple) [
  | none ↦ tuple
  | some (head, rest) ↦ head
]

unfoldable pub tuple_matches : Text → Rule → Bool
unfolding tuple_fields same_traffic before_comment
tuple_matches line rule = elim (strip_prefix (codes "### tuple ###") line) [
  | none ↦ false
  | some tuple ↦ elim (tuple_fields (split_whitespace (before_comment tuple))) [
    | none ↦ false
    | some t ↦ same_traffic t rule
  ]
]

unfoldable pub rule_was_added : Text → Bool
rule_was_added stdout = any_of (λ line. eq_text (trim line) (codes "Rule added")) (lines stdout)
