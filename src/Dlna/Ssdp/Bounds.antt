-- ===== src/Dlna/Ssdp/Bounds.antt =====
-- src/dlna.rs: the bounds on what the replies of one scan leave behind.
use unicast.Base.{
  ℕ, ◌+◌, ◌≤◌, ◌<◌, Bool, true, false, not, ◌&&◌, ◌||◌, Option, none, some, List, [], ◌∷◌, Text,
  eq_text, eq_text_iff, mem_text, ltb, length, if◌then◌else◌, ◌≡◌, refl, ◌∙◌, sym, subst, ap, inl,
  inr, arith, Bool-cases, In,
}
use unicast.Net.{Ipv4, lan_ipv4, show_ipv4}
use unicast.Dlna.{Web, host_of}
use unicast.Dlna.Ssdp.{
  Sender, v4, v6, Received, datagram, quiet, broken, Taken, lan_sender, show_sender, count_of,
  add_one, names_host, drops, take_value, take_found, take_lines, take_reply, collect_from,
  collect_locations, ssdp_multicast, ssdp_unicast, of_candidates, listed_host, location_value,
  split_crlf, max_locations_per_host, max_locations, max_ssdp_reply,
}

-- The number of locations of a host.
unfoldable pub of_host : Web → Text → List Text → ℕ
unfolding names_host host_of
of_host web host [] = 0
of_host web host (location ∷ locations) =
    (if names_host (host_of web location) host then 1 else 0) + of_host web host locations

-- The host of the location is the text of a local address.
pub record OnLan (web : Web) (location : Text) : Type 0 where
  pub ip : Ipv4
  pub local_address : lan_ipv4 ip ≡ true
  pub host : host_of web location ≡ some (show_ipv4 ip)

abbrev pub Distinct : List Text → Type 0
Distinct [] = Unit {0}
Distinct (location ∷ locations) = (mem_text location locations ≡ false) × Distinct locations

abbrev pub AllOnLan : Web → List Text → Type 0
AllOnLan web [] = Unit {0}
AllOnLan web (location ∷ locations) = OnLan web location × AllOnLan web locations

pub record Bounded (web : Web) (locations : List Text) : Type 0 where
  pub few : length locations ≤ max_locations
  pub few_per_host : (host : Text) → of_host web host locations ≤ max_locations_per_host
  pub distinct : Distinct locations
  pub on_lan : AllOnLan web locations

record Kept (web : Web) (taken : Taken) : Type 0 where
  bounded : Bounded web taken.locations
  counted : (host : Text) → count_of host taken.per_host ≡ of_host web host taken.locations

count_of-add_one :
    (host other : Text) (counts : List (Text × ℕ))
    → count_of host (add_one other counts)
      ≡ (if eq_text other host then 1 else 0) + count_of host counts
unfolding count_of add_one
count_of-add_one host other [] = elim (Bool-cases (eq_text other host)) [
  | inl e ↦ simp e (omega arith)
  | inr e ↦ simp e (omega arith)
]
count_of-add_one host other ((h, n) ∷ counts) = elim (Bool-cases (eq_text h other)) [
  | inl e ↦
      let same : eq_text other host ≡ eq_text h host =
        ap (λ t. eq_text t host) (sym ((eq_text_iff h other).0 e)) in
      elim (Bool-cases (eq_text h host)) [
        | inl k ↦ simp (e, same, k) (omega arith)
        | inr k ↦ simp (e, same, k) (omega arith)
      ]
  | inr e ↦ elim (Bool-cases (eq_text h host)) [
    | inl k ↦ elim (Bool-cases (eq_text other host)) [
      | inl l ↦ absurd (apart h other host e k l)
      | inr l ↦ simp (e, k, l) (omega arith)
    ]
    | inr k ↦ simp (e, k) (count_of-add_one host other counts)
  ]
]
  where
    apart :
        (h other host : Text)
        → eq_text h other ≡ false
        → eq_text h host ≡ true
        → eq_text other host ≡ true
        → ⊥
    apart h other host e k l =
        let equal : h ≡ other = (eq_text_iff h host).0 k ∙ sym ((eq_text_iff other host).0 l) in
        let test = (eq_text_iff h other).1 equal in ground (arith, test, e)

module _ (web : Web) where
  -- A location that is not dropped is one of its sender, and new.
  not_dropped :
      (sender value : Text) (taken : Taken)
      → drops web sender value taken ≡ false
      → (names_host (host_of web value) sender ≡ true) × (mem_text value taken.locations ≡ false)
  unfolding drops
  not_dropped sender value taken h = (ground arith, ground arith)

  names_host-some : (o : Option Text) (sender : Text) → names_host o sender ≡ true → o ≡ some sender
  unfolding names_host
  names_host-some none sender h = absurd (ground arith)
  names_host-some (some host) sender h = ap some ((eq_text_iff host sender).0 h)

  -- One more location of a host that has room.
  room_for :
      (sender host : Text) (taken : Taken)
      → Kept web taken
      → count_of sender taken.per_host < max_locations_per_host
      → (if eq_text sender host then 1 else 0) + of_host web host taken.locations
        ≤ max_locations_per_host
  room_for sender host taken kept few = elim (Bool-cases (eq_text sender host)) [
    | inl e ↦
        let same : of_host web host taken.locations ≡ of_host web sender taken.locations =
          ap (λ t. of_host web t taken.locations) (sym ((eq_text_iff sender host).0 e)) in
        simp e (omega (arith, same, kept.counted sender))
    | inr e ↦ simp e (omega (arith, kept.bounded.few_per_host host))
  ]

  take_value-Kept :
      (ip : Ipv4) (value : Text) (taken : Taken)
      → lan_ipv4 ip ≡ true
      → Kept web taken
      → Kept web (take_value web (show_ipv4 ip) value taken)
  unfolding take_value of_host names_host
  take_value-Kept ip value taken local kept = elim (Bool-cases (drops web sender value taken)) [
    | inl e ↦ simp e kept
    | inr e ↦
        elim (Bool-cases (
          ltb (count_of sender taken.per_host) max_locations_per_host
          && ltb (length taken.locations) max_locations)) [
            | inr full ↦ simp (e, full) kept
            | inl room ↦
                simp (e, room)
                  (let (own, new) = not_dropped sender value taken e in
                    let host_is : host_of web value ≡ some sender = names_host-some _ sender own in
                    let named : (host : Text)
                        → names_host (host_of web value) host ≡ eq_text sender host =
                      λ host. ap (λ o. names_host o host) host_is in
                    record {
                      bounded = record {
                        few = ground arith;
                        few_per_host = λ host.
                            subst
                              (λ b.
                                (if b then 1 else 0) + of_host web host taken.locations
                                ≤ max_locations_per_host)
                              (sym (named host)) (room_for sender host taken kept (ground arith));
                        distinct = (new, kept.bounded.distinct);
                        on_lan = (
                          record { ip = ip; local_address = local; host = host_is },
                          kept.bounded.on_lan,
                        );
                      };
                      counted = λ host.
                          count_of-add_one host sender taken.per_host
                          ∙ (ap (λ b. (if b then 1 else 0) + count_of host taken.per_host)
                                (sym (named host))
                              ∙ ap (λ n. (if names_host (host_of web value) host then 1 else 0) + n)
                                  (kept.counted host));
                    })
          ]
  ]
    where
      sender : Text
      sender = show_ipv4 ip

  take_lines-Kept :
      (ip : Ipv4) (lines : List Text) (taken : Taken)
      → lan_ipv4 ip ≡ true
      → Kept web taken
      → Kept web (take_lines web (show_ipv4 ip) lines taken)
  unfolding take_lines take_found
  take_lines-Kept ip [] taken local kept = kept
  take_lines-Kept ip (line ∷ lines) taken local kept =
      take_lines-Kept ip lines _ local (found_kept (location_value line))
    where
      found_kept : (o : Option Text) → Kept web (take_found web (show_ipv4 ip) o taken)
      found_kept none = kept
      found_kept (some value) = take_value-Kept ip value taken local kept

  take_reply-Kept :
      (bytes : ℕ) (text : Text) (from : Sender) (taken : Taken)
      → Kept web taken
      → Kept web (take_reply web lan_sender bytes text from taken)
  unfolding take_reply lan_sender show_sender
  take_reply-Kept bytes text (v6 ip) taken kept = elim (Bool-cases (ltb max_ssdp_reply bytes)) [
    | inl e ↦ simp e kept
    | inr e ↦ simp e kept
  ]
  take_reply-Kept bytes text (v4 ip) taken kept =
      elim (Bool-cases (ltb max_ssdp_reply bytes || not (lan_ipv4 ip))) [
        | inl e ↦ simp e kept
        | inr e ↦ simp e (take_lines-Kept ip (split_crlf text) taken (ground arith) kept)
      ]

  collect_from-Kept :
      (received : List Received) (taken : Taken)
      → Kept web taken
      → Kept web (collect_from web lan_sender received taken)
  unfolding collect_from
  collect_from-Kept [] taken kept = kept
  collect_from-Kept (datagram bytes text from ∷ received) taken kept =
      collect_from-Kept received _ (take_reply-Kept bytes text from taken kept)
  collect_from-Kept (quiet ∷ received) taken kept = collect_from-Kept received taken kept
  collect_from-Kept (broken ∷ received) taken kept = kept

  -- Whatever a socket receives in one scan, no more than 64 locations are taken of it and no more
  -- than 4 of one host; they are distinct, and the host of each is an IPv4 address of the local
  -- network.
  pub collect_locations-Bounded :
      (received : List Received) → Bounded web (collect_locations web received)
  unfolding collect_locations of_host count_of
  collect_locations-Bounded received =
      (collect_from-Kept received (record { locations = []; per_host = [] })
        (record {
          bounded = record {
            few = omega arith;
            few_per_host = λ host. omega arith;
            distinct = tt;
            on_lan = tt;
          };
          counted = λ host. refl;
        })).bounded

  OnLan-In :
      (locations : List Text) (location : Text)
      → AllOnLan web locations
      → In location locations
      → OnLan web location
  OnLan-In [] location h i = absurd i
  OnLan-In (l ∷ locations) location h (inl e) = subst (OnLan web) (sym e) h.0
  OnLan-In (l ∷ locations) location h (inr i) = OnLan-In locations location h.1 i

  collected-OnLan :
      (received : List Received) (location : Text)
      → In location (collect_locations web received)
      → OnLan web location
  collected-OnLan received location i =
      OnLan-In _ location (collect_locations-Bounded received).on_lan i

  -- The locations of a multicast scan are on the local network.
  pub ssdp_multicast-OnLan :
      (received : Option (List Received)) (location : Text)
      → In location (ssdp_multicast web received)
      → OnLan web location
  unfolding ssdp_multicast
  ssdp_multicast-OnLan none location i = absurd i
  ssdp_multicast-OnLan (some received) location i = collected-OnLan received location i

  of_candidates-In :
      (ips locations : List Text) (location : Text)
      → In location (of_candidates web ips locations)
      → In location locations
  unfolding of_candidates
  of_candidates-In ips [] location i = i
  of_candidates-In ips (l ∷ locations) location i =
      by_case (of_candidates-In ips locations location) (listed_host ips (host_of web l)) i
    where
      by_case :
          (In location (of_candidates web ips locations) → In location locations)
          → (b : Bool)
          → In location
              (if b then l ∷ of_candidates web ips locations else of_candidates web ips locations)
          → In location (l ∷ locations)
      by_case rest true (inl e) = inl e
      by_case rest true (inr k) = inr (rest k)
      by_case rest false k = inr (rest k)

  -- So are those of the candidates that were asked.
  pub ssdp_unicast-OnLan :
      (ips : List Text) (received : Option (List Received)) (location : Text)
      → In location (ssdp_unicast web ips received)
      → OnLan web location
  unfolding ssdp_unicast
  ssdp_unicast-OnLan [] received location i = absurd i
  ssdp_unicast-OnLan (ip ∷ ips) none location i = absurd i
  ssdp_unicast-OnLan (ip ∷ ips) (some received) location i =
      collected-OnLan received location
        (of_candidates-In (ip ∷ ips) (collect_locations web received) location i)
