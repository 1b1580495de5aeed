-- ===== src/Net/Tests.antt =====
-- src/util.rs: addresses at concrete inputs.
use unicast.Base.{refl, ◌≡◌, some, none, codes, parse_digits, print_nat, split, trim, is_whitespace}
use unicast.Net.{valid_receiver_ip, parse_ipv4, show_ipv4}
use unicast.Net.Canonical.{IsLan, valid_receiver_ip_canonical}

accepted : valid_receiver_ip (codes " 192.168.50.20 ") ≡ some (codes "192.168.50.20")
unfolding valid_receiver_ip parse_ipv4 show_ipv4 parse_digits print_nat split trim is_whitespace
accepted = refl

leading_zero : valid_receiver_ip (codes "192.168.050.20") ≡ none
unfolding valid_receiver_ip parse_ipv4 show_ipv4 parse_digits print_nat split trim is_whitespace
leading_zero = refl

public_address : valid_receiver_ip (codes "8.8.8.8") ≡ none
unfolding valid_receiver_ip parse_ipv4 show_ipv4 parse_digits print_nat split trim is_whitespace
public_address = refl

valid_receiver_ip_canonical_example :
    IsLan (codes "192.168.50.20")
    × (valid_receiver_ip (codes "192.168.50.20") ≡ some (codes "192.168.50.20"))
valid_receiver_ip_canonical_example =
    valid_receiver_ip_canonical (codes " 192.168.50.20 ") {t = codes "192.168.50.20"} accepted
