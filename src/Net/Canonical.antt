-- ===== src/Net/Canonical.antt =====
-- Addresses read and written by src/util.rs are in one canonical form.

use unicast.Base.{
  holds_below, holds_below-at, codes, append-ne-nil, ◌≢◌, ℕ, ◌≤◌, ◌≡◌, refl, Bool, true, false,
  none, some, List, [], ◌∷◌, ◌++◌, Text, IsWord, Lacks, arith, ◌==◌, print_nat, parse_digits,
  print_nat-IsDigits, split, split-append, split_whole, trim, trim_of_word, IsWord-append,
  IsWord-digits, Lacks-digits, parse_digits_le, Option-cases, inl, inr, is_whitespace, u8_max,
}
use unicast.Net.{
  Ipv4, IsIpv4, read_octet, read_fields, parse_ipv4, show_ipv4, lan_ipv4, valid_receiver_ip,
}

reads_back : ℕ → Bool
unfolding read_octet
reads_back n = elim (read_octet (print_nat n)) [ none ↦ false | some m ↦ m == n ]

octets_read_back : holds_below reads_back 256 ≡ true
unfolding holds_below reads_back print_nat parse_digits
octets_read_back = refl

pub read_octet-print_nat : (n : ℕ) → n ≤ u8_max → read_octet (print_nat n) ≡ some n
read_octet-print_nat n h =
    let e = holds_below-at reads_back 256 n (omega arith) octets_read_back in
    unfold reads_back in ground arith

pub show_ipv4-IsWord : (ip : Ipv4) → IsWord (show_ipv4 ip)
unfolding show_ipv4
show_ipv4-IsWord ip =
    join ip.a _ (join ip.b _ (join ip.c _ (IsWord-digits _ (print_nat-IsDigits ip.d))))
  where
    join : (n : ℕ) (s : Text) → IsWord s → IsWord (print_nat n ++ (b'.' ∷ s))
    join n s h =
        IsWord-append (print_nat n) (b'.' ∷ s) (IsWord-digits _ (print_nat-IsDigits n))
          (unfold is_whitespace in (refl, h))

split-show_ipv4 :
    (ip : Ipv4)
    → split b'.' (show_ipv4 ip)
      ≡ print_nat ip.a ∷ print_nat ip.b ∷ print_nat ip.c ∷ print_nat ip.d ∷ []
unfolding show_ipv4
split-show_ipv4 ip = rw (
  split-append b'.' (print_nat ip.a) _ (no_dot ip.a),
  split-append b'.' (print_nat ip.b) _ (no_dot ip.b),
  split-append b'.' (print_nat ip.c) _ (no_dot ip.c),
  split_whole b'.' (print_nat ip.d) (no_dot ip.d),
)
  where
    no_dot : (n : ℕ) → Lacks b'.' (print_nat n)
    no_dot n = Lacks-digits b'.' (print_nat n) (omega arith) (print_nat-IsDigits n)

-- A printed address parses back to itself.
pub parse_ipv4-show_ipv4 : (ip : Ipv4) → IsIpv4 ip → parse_ipv4 (show_ipv4 ip) ≡ some ip
unfolding parse_ipv4
parse_ipv4-show_ipv4 ip h = rw (
  split-show_ipv4 ip,
  read_fields,
  read_octet-print_nat ip.a h.a_small,
  read_octet-print_nat ip.b h.b_small,
  read_octet-print_nat ip.c h.c_small,
  read_octet-print_nat ip.d h.d_small,
)

read_octet_le : (s : Text) {n : ℕ} → read_octet s ≡ some n → n ≤ u8_max
unfolding read_octet
read_octet_le [] h = ground arith
read_octet_le (c ∷ []) {n} h = parse_digits_le u8_max (c ∷ []) {n = n} h
read_octet_le (c ∷ e ∷ s) {n} h = ground (arith, parse_digits_le u8_max (c ∷ e ∷ s) {n = n})

read_fields-IsIpv4 : (parts : List Text) {ip : Ipv4} → read_fields parts ≡ some ip → IsIpv4 ip
unfolding read_fields
read_fields-IsIpv4 (p ∷ q ∷ r ∷ s ∷ []) {ip} h = ground (
  arith,
  read_octet_le p {n = ip.a},
  read_octet_le q {n = ip.b},
  read_octet_le r {n = ip.c},
  read_octet_le s {n = ip.d},
)
read_fields-IsIpv4 parts h = ground arith

pub parse_ipv4-IsIpv4 : (s : Text) {ip : Ipv4} → parse_ipv4 s ≡ some ip → IsIpv4 ip
unfolding parse_ipv4
parse_ipv4-IsIpv4 s {ip} h = read_fields-IsIpv4 (split b'.' s) {ip = ip} h

-- The text is the canonical form of an address on the local network.
pub record IsLan (s : Text) : Type 0 where
  pub ip : Ipv4
  pub octets : IsIpv4 ip
  pub lan : lan_ipv4 ip ≡ true
  pub shown : s ≡ show_ipv4 ip

pub valid_receiver_ip-show_ipv4 :
    (ip : Ipv4)
    → IsIpv4 ip
    → lan_ipv4 ip ≡ true
    → valid_receiver_ip (show_ipv4 ip) ≡ some (show_ipv4 ip)
unfolding valid_receiver_ip
valid_receiver_ip-show_ipv4 ip h l =
    rw (trim_of_word (show_ipv4 ip) (show_ipv4-IsWord ip), parse_ipv4-show_ipv4 ip h, l)

valid_receiver_ip-inv : (s : Text) {t : Text} → valid_receiver_ip s ≡ some t → IsLan t
unfolding valid_receiver_ip
valid_receiver_ip-inv s {t} h = elim (Option-cases (parse_ipv4 (trim s))) [
  | inl e ↦ ground arith
  | inr (ip, e) ↦ record {
    ip = ip;
    octets = parse_ipv4-IsIpv4 (trim s) {ip = ip} e;
    lan = ground arith;
    shown = ground arith;
  }
]

-- An accepted receiver address is a local one in canonical form, and is accepted again as it is.
pub valid_receiver_ip_canonical :
    (s : Text) {t : Text} → valid_receiver_ip s ≡ some t → IsLan t × (valid_receiver_ip t ≡ some t)
valid_receiver_ip_canonical s {t} h = let l = valid_receiver_ip-inv s {t = t} h in (l, subst_back l)
  where
    subst_back : IsLan t → valid_receiver_ip t ≡ some t
    subst_back l = rw l.shown (valid_receiver_ip-show_ipv4 l.ip l.octets l.lan)

-- Exactly the canonical local addresses are accepted as they stand.
pub valid_receiver_ip-IsLan : (t : Text) → IsLan t → valid_receiver_ip t ≡ some t
valid_receiver_ip-IsLan t l = rw l.shown (valid_receiver_ip-show_ipv4 l.ip l.octets l.lan)

pub IsLan-IsWord : (t : Text) → IsLan t → IsWord t
IsLan-IsWord t l = rw l.shown (show_ipv4-IsWord l.ip)

pub IsLan-ne-nil : (t : Text) → IsLan t → t ≢ []
IsLan-ne-nil t l = rw l.shown (unfold show_ipv4 in append-ne-nil (print_nat l.ip.a) _ b'.')

-- The word that stands for every address in an old ledger line is no address.
pub IsLan-ne-any : (t : Text) → IsLan t → t ≢ codes "any"
IsLan-ne-any t l e =
    let accepted : valid_receiver_ip (codes "any") ≡ some (codes "any") =
      rw e at (valid_receiver_ip-IsLan t l) in
    not_accepted accepted
  where
    not_accepted : ¬ (valid_receiver_ip (codes "any") ≡ some (codes "any"))
    not_accepted h =
        unfold valid_receiver_ip parse_ipv4 trim split is_whitespace parse_digits in cc h
