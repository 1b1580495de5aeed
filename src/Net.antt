-- ===== src/Net.antt =====
-- src/util.rs: which addresses the daemon deals with. `Ipv4Addr` of the standard library is a
-- record of four octets, with its parser and printer.
pub mod Canonical
mod Tests
use unicast.Base.{
  ℕ, ◌+◌, ◌≤◌, Bool, true, false, not, ◌&&◌, ◌||◌, Option, none, some, List, [], ◌∷◌, ◌++◌, Text,
  leb, ◌==◌, if◌then◌else◌, u8_max, parse_digits, print_nat, split, trim, length,
}

pub record Ipv4 : Type 0 where
  pub a : ℕ
  pub b : ℕ
  pub c : ℕ
  pub d : ℕ

-- Each octet is a `u8`.
pub record IsIpv4 (ip : Ipv4) : Type 0 where
  pub a_small : ip.a ≤ u8_max
  pub b_small : ip.b ≤ u8_max
  pub c_small : ip.c ≤ u8_max
  pub d_small : ip.d ≤ u8_max

-- One field of an address: one to three digits, no leading zero, at most 255.
unfoldable pub read_octet : Text → Option ℕ
read_octet [] = none
read_octet (c ∷ []) = parse_digits u8_max (c ∷ [])
read_octet (c ∷ e ∷ s) =
    if c == b'0' || leb 4 (length (c ∷ e ∷ s)) then none else parse_digits u8_max (c ∷ e ∷ s)

infixl 5 ◌>>=◌
abbrev ◌>>=◌ {ℓ κ} : {A : Type ℓ} {B : Type κ} → Option A → (A → Option B) → Option B
none >>= k = none
some x >>= k = k x

unfoldable pub read_fields : List Text → Option Ipv4
unfolding read_octet
read_fields (p ∷ q ∷ r ∷ s ∷ []) = do
  a ← read_octet p
  b ← read_octet q
  c ← read_octet r
  d ← read_octet s
  some (record { a = a; b = b; c = c; d = d })
read_fields _ = none

-- `value.parse::<Ipv4Addr>()`.
unfoldable pub parse_ipv4 : Text → Option Ipv4
unfolding read_fields
parse_ipv4 s = read_fields (split b'.' s)

-- `ip.to_string()`.
unfoldable pub show_ipv4 : Ipv4 → Text
show_ipv4 ip =
    print_nat ip.a
    ++ (b'.' ∷ (print_nat ip.b ++ (b'.' ∷ (print_nat ip.c ++ (b'.' ∷ print_nat ip.d)))))

unfoldable pub is_private : Ipv4 → Bool
is_private ip =
    ip.a == 10 || (ip.a == 172 && leb 16 ip.b && leb ip.b 31) || (ip.a == 192 && ip.b == 168)

unfoldable pub is_link_local : Ipv4 → Bool
is_link_local ip = ip.a == 169 && ip.b == 254

unfoldable pub is_broadcast : Ipv4 → Bool
is_broadcast ip = ip.a == 255 && ip.b == 255 && ip.c == 255 && ip.d == 255

unfoldable pub lan_ipv4 : Ipv4 → Bool
unfolding is_private is_link_local is_broadcast
lan_ipv4 ip = (is_private ip || is_link_local ip) && not (is_broadcast ip)

unfoldable pub valid_receiver_ip : Text → Option Text
unfolding lan_ipv4
valid_receiver_ip value = do
  ip ← parse_ipv4 (trim value)
  if lan_ipv4 ip then some (show_ipv4 ip) else none
