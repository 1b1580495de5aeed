-- ===== src/Firewall/Tests.antt =====
-- src/firewall.rs at concrete inputs.
use unicast.Base.{
  if◌then◌else◌, ℕ, refl, ◌≡◌, ◌↔◌, some, none, codes, arith, print_nat, Text, List, is_empty,
  strip_prefix, split_once_text, contains_char, [], ◌∷◌, map, true, false, In, inr, eq_text,
  split_whitespace,
}
use unicast.Net.{show_ipv4, Ipv4, lan_ipv4}
use unicast.Net.Canonical.{IsLan}
use unicast.Firewall.{Rule, IsRule, parse, line, tuple_matches}
use unicast.Firewall.Ledger.{parse-line, parse-IsRule}
use unicast.Firewall.Scan.{
  scan_user_rules, scan_user_rules-answer, scan_user_rules-NoneMatch, answer, NoneMatch,
  user_rules_max_line, whole_lines, read_until, ends_line,
}
use unicast.Firewall.Open.{Ufw, open_rule, clear, ledger_rules, delete_args}
use unicast.Firewall.Open.Effects.{Opened, open_rule-Opened, clear_keeps_failed}

abbrev tv : Ipv4
tv = record { a = 192; b = 168; c = 50; d = 20 }

abbrev desktop : Ipv4
desktop = record { a = 192; b = 168; c = 50; d = 10 }

tv-IsLan : IsLan (codes "192.168.50.20")
tv-IsLan = record { ip = tv; octets = omega arith; lan = tv_lan; shown = tv_shown }
  where
    tv_lan : lan_ipv4 tv ≡ true
    tv_lan = unfold lan_ipv4 in refl

    tv_shown : codes "192.168.50.20" ≡ show_ipv4 tv
    tv_shown = unfold show_ipv4 print_nat in refl

desktop-IsLan : IsLan (codes "192.168.50.10")
desktop-IsLan = record {
  ip = desktop;
  octets = omega arith;
  lan = desktop_lan;
  shown = desktop_shown;
}
  where
    desktop_lan : lan_ipv4 desktop ≡ true
    desktop_lan = unfold lan_ipv4 in refl

    desktop_shown : codes "192.168.50.10" ≡ show_ipv4 desktop
    desktop_shown = unfold show_ipv4 print_nat in refl

abbrev tv_rule : Rule
tv_rule = record { receiver = codes "192.168.50.20"; bind = codes "192.168.50.10"; port = 60020 }

abbrev tv_line : Text
tv_line = codes "192.168.50.20 192.168.50.10 60020"

tv_rule-IsRule : IsRule 60020 tv_rule
tv_rule-IsRule = record {
  receiver_lan = tv-IsLan;
  target = inr (desktop-IsLan, omega arith, omega arith);
}

parse-line_example : parse (line tv_rule) 60020 ≡ some tv_rule
parse-line_example = parse-line 60020 tv_rule tv_rule-IsRule

tv_line_lem : line tv_rule ≡ tv_line
unfolding line print_nat eq_text
tv_line_lem = refl

read : parse tv_line 60020 ≡ some tv_rule
read = rw (← tv_line_lem) parse-line_example

parse-IsRule_example : IsRule 60020 tv_rule
parse-IsRule_example = parse-IsRule tv_line 60020 {rule = tv_rule} read

-- One rule for other traffic.
abbrev saved : List ℕ
saved = codes "### tuple ### allow tcp 22 0.0.0.0/0 any 0.0.0.0/0 in\n"

-- ufw is on, and authorization is given.
abbrev ufw : Ufw
ufw = record {
  active = true;
  decode = λ bytes. bytes;
  user_rules = some saved;
  run_output = λ args. some (codes "Rule added\n");
}

scan_user_rules-answer_example :
    scan_user_rules (λ bytes. bytes) saved tv_rule
    ≡ answer (λ l. tuple_matches l tv_rule) user_rules_max_line (whole_lines saved)
scan_user_rules-answer_example = scan_user_rules-answer (λ bytes. bytes) saved tv_rule

no_such_rule : scan_user_rules (λ bytes. bytes) saved tv_rule ≡ some false
unfolding scan_user_rules tuple_matches split_whitespace eq_text print_nat read_until ends_line
    is_empty strip_prefix split_once_text contains_char
no_such_rule = refl

scan_user_rules-NoneMatch_example :
    NoneMatch (λ l. tuple_matches l tv_rule) user_rules_max_line (whole_lines saved)
scan_user_rules-NoneMatch_example =
    scan_user_rules-NoneMatch (λ bytes. bytes) saved tv_rule no_such_rule

open_rule-Opened_example :
    Opened ufw 60020 []
      (codes "192.168.50.20")
      desktop
      60020
      (open_rule ufw 60020 [] (codes "192.168.50.20") desktop 60020)
open_rule-Opened_example =
    open_rule-Opened ufw 60020 [] (codes "192.168.50.20") desktop 60020 (omega arith) (omega arith)
      (omega arith)

clear_keeps_failed_example :
    ((clear ufw 60020 (tv_line ∷ [])).commands
      ≡ (if ufw.active then map delete_args (ledger_rules 60020 (tv_line ∷ [])) else []))
    × (In tv_rule (ledger_rules 60020 (clear ufw 60020 (tv_line ∷ [])).ledger) ↔ (
        (ufw.active ≡ true)
        × In tv_rule (ledger_rules 60020 (tv_line ∷ []))
        × (ufw.run_output (delete_args tv_rule) ≡ none)))
clear_keeps_failed_example = clear_keeps_failed ufw 60020 (tv_line ∷ []) tv_rule
