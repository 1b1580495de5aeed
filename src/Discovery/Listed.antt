-- ===== src/Discovery/Listed.antt =====
-- src/discovery.rs: which receivers are listed.
use unicast.Base.{
  ◌≤◌, ◌≡◌, refl, sym, ◌∙◌, subst, ap, ◌⊎◌, inl, inr, Bool, true, not, ltb, Option, none, some,
  List, [], ◌∷◌, ◌++◌, Text, In, eq_text, eq_text_iff, filter_map, In-filter_map, filter_map_all,
  arith, Bool-cases, Platform,
}
use unicast.Net.{Ipv4, valid_receiver_ip}
use unicast.Net.Canonical.{IsLan, valid_receiver_ip_canonical, valid_receiver_ip-IsLan}
use unicast.Daemon.State.{Device}
use unicast.Discovery.{
  preference, joined, preferred, absorb, absorb_all, lists_as, lists, candidates, before,
  insert_device, sort_into, merge, discover, promote_cast_capable,
}

-- A device at the same address, whose protocol is preferred as much or more.
pub record Covered (d : Device) (devices : List Device) : Type 0 where
  pub by : Device
  pub listed : In by devices
  pub same_ip : by.ip ≡ d.ip
  pub preferred_more : preference d.protocol ≤ preference by.protocol

preferred_ip : (d e : Device) → e.ip ≡ d.ip → (preferred d e).ip ≡ d.ip
unfolding preferred joined
preferred_ip d e same = elim (Bool-cases (ltb (preference e.protocol) (preference d.protocol))) [
  | inl more ↦ simp more refl
  | inr less ↦ simp less same
]

preferred_le :
    (d e : Device)
    → (preference d.protocol ≤ preference (preferred d e).protocol)
      × (preference e.protocol ≤ preference (preferred d e).protocol)
unfolding preferred joined
preferred_le d e = elim (Bool-cases (ltb (preference e.protocol) (preference d.protocol))) [
  | inl more ↦ simp more (omega arith, ground arith)
  | inr less ↦ simp less (ground arith, omega arith)
]

Covered-first : (x d : Device) (ds : List Device) → x ≡ d → Covered x (d ∷ ds)
Covered-first x d ds e = record {
  by = d;
  listed = inl refl;
  same_ip = ap (λ d. d.ip) (sym e);
  preferred_more = subst (λ d. preference x.protocol ≤ preference d.protocol) e (omega arith);
}

Covered-rest : (x d : Device) (ds : List Device) → Covered x ds → Covered x (d ∷ ds)
Covered-rest x d ds c = record {
  by = c.by;
  listed = inr c.listed;
  same_ip = c.same_ip;
  preferred_more = c.preferred_more;
}

Covered-absorb_new : (d : Device) (ds : List Device) → Covered d (absorb d ds)
unfolding absorb
Covered-absorb_new d [] = Covered-first d d [] refl
Covered-absorb_new d (e ∷ ds) = elim (Bool-cases (eq_text e.ip d.ip)) [
  | inl same ↦ simp same (record {
    by = preferred d e;
    listed = inl refl;
    same_ip = preferred_ip d e ((eq_text_iff e.ip d.ip).0 same);
    preferred_more = (preferred_le d e).0;
  })
  | inr other ↦ simp other (Covered-rest d e (absorb d ds) (Covered-absorb_new d ds))
]

-- What covers a device is the first of the list, or covers it in the rest.
first_or_rest :
    (x e : Device) (ds : List Device)
    → Covered x (e ∷ ds)
    → ((e.ip ≡ x.ip) × (preference x.protocol ≤ preference e.protocol)) ⊎ Covered x ds
first_or_rest x e ds c = elim c.listed [
  | inl first ↦ inl (
    ap (λ d. d.ip) (sym first) ∙ c.same_ip,
    subst (λ d. preference x.protocol ≤ preference d.protocol) first c.preferred_more,
  )
  | inr rest ↦
      inr (record {
        by = c.by;
        listed = rest;
        same_ip = c.same_ip;
        preferred_more = c.preferred_more;
      })
]

Covered-absorb_old : (x d : Device) (ds : List Device) → Covered x ds → Covered x (absorb d ds)
unfolding absorb
Covered-absorb_old x d [] c = absurd c.listed
Covered-absorb_old x d (e ∷ ds) c = elim (Bool-cases (eq_text e.ip d.ip)) [
  | inr other ↦ simp other (elim (first_or_rest x e ds c) [
    | inl (same_ip, more) ↦ record {
      by = e;
      listed = inl refl;
      same_ip = same_ip;
      preferred_more = more;
    }
    | inr rest ↦ Covered-rest x e (absorb d ds) (Covered-absorb_old x d ds rest)
  ])
  | inl same ↦ simp same (elim (first_or_rest x e ds c) [
    | inl (same_ip, more) ↦
        let there : e.ip ≡ d.ip = (eq_text_iff e.ip d.ip).0 same in
        let at_least = preferred_le d e in
        record {
          by = preferred d e;
          listed = inl refl;
          same_ip = preferred_ip d e there ∙ (sym there ∙ same_ip);
          preferred_more = omega (arith, at_least.1, more);
        }
    | inr rest ↦ Covered-rest x (preferred d e) ds rest
  ])
]

Covered-absorb_all_old :
    (x : Device) (ds new : List Device) → Covered x ds → Covered x (absorb_all ds new)
unfolding absorb_all
Covered-absorb_all_old x ds [] c = c
Covered-absorb_all_old x ds (d ∷ new) c =
    Covered-absorb_all_old x (absorb d ds) new (Covered-absorb_old x d ds c)

Covered-absorb_all : (x : Device) (ds new : List Device) → In x new → Covered x (absorb_all ds new)
unfolding absorb_all
Covered-absorb_all x ds [] i = absurd i
Covered-absorb_all x ds (d ∷ new) (inl e) =
    Covered-absorb_all_old x (absorb d ds) new
      (subst (λ y. Covered y (absorb d ds)) (sym e) (Covered-absorb_new d ds))
Covered-absorb_all x ds (d ∷ new) (inr i) = Covered-absorb_all x (absorb d ds) new i

lists-some : (d : Device) → IsLan d.ip → lists d ≡ some d
unfolding lists
lists-some d lan = subst (λ o. lists_as d o ≡ some d) (sym (valid_receiver_ip-IsLan d.ip lan)) kept
  where
    kept : lists_as d (some d.ip) ≡ some d
    kept =
        let same : eq_text d.ip d.ip ≡ true = (eq_text_iff d.ip d.ip).1 refl in
        unfold lists_as in simp same refl

lists_as-IsLan :
    (d : Device) (o : Option Text) {m : Device}
    → valid_receiver_ip d.ip ≡ o
    → lists_as d o ≡ some m
    → IsLan m.ip
unfolding lists_as
lists_as-IsLan d none e h = cc
lists_as-IsLan d (some ip) {m} e h = elim (Bool-cases (eq_text ip d.ip)) [
  | inr differs ↦ let gone : none ≡ some m = simp differs at h in cc
  | inl same ↦
      let kept : some d ≡ some m = simp same at h in
      let first : d ≡ m = cc in
      subst IsLan ((eq_text_iff ip d.ip).0 same ∙ ap (λ d. d.ip) first)
        (valid_receiver_ip_canonical d.ip e).0
]

listed-IsLan : (m : Device) (ds : List Device) → In m (filter_map lists ds) → IsLan m.ip
listed-IsLan m ds i =
    filter_map_all lists (λ d. IsLan d.ip) ds m
      (λ d e h. lists_as-IsLan d (valid_receiver_ip d.ip) {m = e} refl (unfold lists in h)) i

module _ (platform : Platform) (values : List Device → List Device) where
  In-insert_device :
      (x d : Device) (ds : List Device)
      → (x ≡ d) ⊎ In x ds
      → In x (insert_device platform values d ds)
  unfolding insert_device
  In-insert_device x d [] i = i
  In-insert_device x d (other ∷ ds) i = elim (Bool-cases (not (before platform values d other))) [
    | inr here ↦ simp here i
    | inl past ↦ simp past (elim i [
      | inl e ↦ inr (In-insert_device x d ds (inl e))
      | inr (inl e) ↦ inl e
      | inr (inr k) ↦ inr (In-insert_device x d ds (inr k))
    ])
  ]

  In-sort_into :
      (x : Device) (sorted ds : List Device)
      → In x sorted ⊎ In x ds
      → In x (sort_into platform values sorted ds)
  unfolding sort_into
  In-sort_into x sorted [] (inl i) = i
  In-sort_into x sorted [] (inr i) = absurd i
  In-sort_into x sorted (d ∷ ds) (inl i) =
      In-sort_into x (insert_device platform values d sorted) ds
        (inl (In-insert_device x d sorted (inr i)))
  In-sort_into x sorted (d ∷ ds) (inr (inl e)) =
      In-sort_into x (insert_device platform values d sorted) ds
        (inl (In-insert_device x d sorted (inl e)))
  In-sort_into x sorted (d ∷ ds) (inr (inr i)) =
      In-sort_into x (insert_device platform values d sorted) ds (inr i)

  Covered-merge :
      (d : Device) (mdns dlna_devices : List Device)
      → ((x : Device) (ds : List Device) → In x ds → In x (values ds))
      → In d (mdns ++ dlna_devices)
      → Covered d (merge platform values mdns dlna_devices)
  unfolding merge
  Covered-merge d mdns dlna_devices all i =
      let c = Covered-absorb_all d [] (mdns ++ dlna_devices) i in
      record {
        by = c.by;
        listed =
            In-sort_into c.by [] (values (absorb_all [] (mdns ++ dlna_devices)))
              (inr (all c.by (absorb_all [] (mdns ++ dlna_devices)) c.listed));
        same_ip = c.same_ip;
        preferred_more = c.preferred_more;
      }

  -- Given that the order of a map's values leaves no value out: every device of the answer has a
  -- local address in canonical form; and every device with such an address that either scan found
  -- has a device at its address in the answer, of a protocol preferred as much or more.
  pub discover-Covered :
      (cast_open : Text → Bool) (scanned : List Device) (dlna_discover : List Text → List Device)
      → (lan_ip : Option Ipv4) (manual_ips : List Text)
      → ((x : Device) (ds : List Device) → In x ds → In x (values ds))
      → let found = promote_cast_capable cast_open scanned in
        let others = dlna_discover (candidates lan_ip found manual_ips) in
        let answer = discover platform values cast_open scanned dlna_discover lan_ip manual_ips in
        ((m : Device) → In m answer → IsLan m.ip)
        × ((d : Device) → In d (found ++ others) → IsLan d.ip → Covered d answer)
  unfolding discover
  discover-Covered cast_open scanned dlna_discover lan_ip manual_ips all =
      let found = promote_cast_capable cast_open scanned in
      let others = dlna_discover (candidates lan_ip found manual_ips) in
      (
        λ m i. listed-IsLan m (merge platform values found others) i,
        λ d i lan.
            let c = Covered-merge d found others all i in
            record {
              by = c.by;
              listed =
                  In-filter_map lists c.by (merge platform values found others) {y = c.by} c.listed
                    (lists-some c.by (subst IsLan (sym c.same_ip) lan));
              same_ip = c.same_ip;
              preferred_more = c.preferred_more;
            },
      )
