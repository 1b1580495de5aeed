-- ===== src/Dlna/Scan/Guarded.antt =====
-- src/dlna.rs: where the control URLs of the renderers that a scan finds lead.
use unicast.Base.{
  ℕ, Bool, true, false, not, ◌&&◌, Option, none, some, List, [], ◌∷◌, ◌++◌, Text, codes,
  contains_text, if◌then◌else◌, map, ◌≡◌, refl, ◌∙◌, sym, subst, ap, ◌⊎◌, inl, inr, In, In-append,
  print_nat,
}
use unicast.Net.{Ipv4, lan_ipv4, show_ipv4}
use unicast.Daemon.State.{Device}
use unicast.Dlna.{Web, Url, control_ok, host_of, url_host}
use unicast.Dlna.Ssdp.{ssdp_multicast}
use unicast.Dlna.Ssdp.Bounds.{OnLan, ssdp_multicast-OnLan, ssdp_unicast-OnLan}
use unicast.Dlna.Description.{Description, parse_description}
use unicast.Dlna.Scan.Leads.{Leads, control_ok-Leads}
use unicast.Dlna.Scan.{
  Air, device_from_location, at_url, at_host, fetched, renderer, described, filter_url, or_zero,
  probe_ip, try_ports, try_paths, probed_text, first_of, scan_ports, probe_ports, probe_paths,
  has_ip, add_device, collect_devices, unseen, locations, discover,
}

abbrev pub AllLead : Web → Text → Option Text → Type 0
AllLead web host none = Unit {0}
AllLead web host (some url) = Leads web url host

-- The daemon only ever controls a renderer over http or https at its own host.
pub record Guarded (web : Web) (d : Device) : Type 0 where
  pub control : Text
  pub has_control : d.control_url ≡ some control
  pub leads : Leads web control d.host
  pub rendering : AllLead web d.host d.rendering_url

-- The host is an address of the local network, or a candidate.
pub record Found (web : Web) (candidates : List Text) (d : Device) : Type 0 where
  pub guarded : Guarded web d
  pub host : ((ip : Ipv4) × (lan_ipv4 ip ≡ true) × (d.host ≡ show_ipv4 ip)) ⊎ In d.host candidates

some_inj : {A : Type 0} {x y : A} → some x ≡ some y → x ≡ y
some_inj h = cc

abbrev pub AllDevices : (Device → Type 0) → List Device → Type 0
AllDevices P [] = Unit {0}
AllDevices P (d ∷ devices) = P d × AllDevices P devices

abbrev Holds : (Device → Type 0) → Option Device → Type 0
Holds P none = Unit {0}
Holds P (some d) = P d

Holds-imp :
    (P Q : Device → Type 0) (o : Option Device) → ((d : Device) → P d → Q d) → Holds P o → Holds Q o
Holds-imp P Q none h k = tt
Holds-imp P Q (some d) h k = h d k

first_of-Holds :
    (P : Device → Type 0) (o p : Option Device) → Holds P o → Holds P p → Holds P (first_of o p)
unfolding first_of
first_of-Holds P none p h k = k
first_of-Holds P (some d) p h k = h

collect_devices-All :
    (P : Device → Type 0) (f : Text → Option Device) (xs : List Text) (devices : List Device)
    → ((x : Text) → In x xs → Holds P (f x))
    → AllDevices P devices
    → AllDevices P (collect_devices (map f xs) devices)
unfolding collect_devices add_device
collect_devices-All P f [] devices h k = k
collect_devices-All P f (x ∷ xs) devices h k =
    collect_devices-All P f xs _ (λ y i. h y (inr i)) (added (f x) (h x (inl refl)))
  where
    added : (o : Option Device) → Holds P o → AllDevices P (add_device o devices)
    added none hold = k
    added (some d) hold = kept (has_ip d.ip devices)
      where
        kept : (b : Bool) → AllDevices P (if b then devices else d ∷ devices)
        kept true = k
        kept false = (hold, k)

unseen-In :
    (ips : List Text) (devices : List Device) (x : Text) → In x (unseen ips devices) → In x ips
unfolding unseen
unseen-In [] devices x i = i
unseen-In (ip ∷ ips) devices x i = by_case (unseen-In ips devices x) (has_ip ip devices) i
  where
    by_case :
        (In x (unseen ips devices) → In x ips)
        → (b : Bool) → In x (if b then unseen ips devices else ip ∷ unseen ips devices)
        → In x (ip ∷ ips)
    by_case rest true k = inr (rest k)
    by_case rest false (inl e) = inl e
    by_case rest false (inr k) = inr (rest k)

module _ (web : Web) where
  filter_url-AllLead : (host : Text) (o : Option Text) → AllLead web host (filter_url web host o)
  unfolding filter_url
  filter_url-AllLead host none = tt
  filter_url-AllLead host (some url) = by_case (control_ok web url host) refl
    where
      by_case :
          (b : Bool) → control_ok web url host ≡ b → AllLead web host (if b then some url else none)
      by_case true e = control_ok-Leads web url host e
      by_case false e = tt

  -- A renderer is made of a description for one host.
  described-Guarded :
      (description : Description) (host ip : Text) (port : ℕ) (o : Option Text)
      → Holds (λ d. Guarded web d × (d.host ≡ host)) (described web description host ip port o)
  unfolding described renderer
  described-Guarded description host ip port none = tt
  described-Guarded description host ip port (some control) =
      by_case (control_ok web control host) refl
    where
      made : Device
      made = renderer web description host ip port control

      by_case :
          (b : Bool)
          → control_ok web control host ≡ b
          → Holds (λ d. Guarded web d × (d.host ≡ host)) (if b then some made else none)
      by_case true e = (
        record {
          control = control;
          has_control = refl;
          leads = control_ok-Leads web control host e;
          rendering = filter_url-AllLead host description.rendering;
        },
        refl,
      )
      by_case false e = tt

  device_from_location-Guarded :
      (location : Text)
      → Holds
          (λ d. Guarded web d × (host_of web location ≡ some d.host))
          (device_from_location web location)
  unfolding device_from_location at_url at_host fetched host_of url_host
  device_from_location-Guarded location = by_url (web.parse_url location)
    where
      by_text :
          (host : Text) (port : ℕ) (o : Option Text)
          → Holds
              (λ d. Guarded web d × (some host ≡ some d.host))
              (fetched web location host port o)
      by_text host port none = tt
      by_text host port (some xml) =
          Holds-imp (λ d. Guarded web d × (d.host ≡ host))
            (λ d. Guarded web d × (some host ≡ some d.host)) _ (λ d h. (h.0, ap some (sym h.1)))
            (described-Guarded (parse_description web xml location) host (web.resolve_ip host) port
              (parse_description web xml location).control)

      by_host :
          (port : Option ℕ) (o : Option Text)
          → Holds (λ d. Guarded web d × (o ≡ some d.host)) (at_host web location port o)
      by_host port none = tt
      by_host port (some host) = by_text host (or_zero port) (web.http_get_text location)

      by_url :
          (o : Option Url)
          → Holds (λ d. Guarded web d × (url_host o ≡ some d.host)) (at_url web location o)
      by_url none = tt
      by_url (some url) = by_host url.port url.host_str

  Probed : Text → Device → Type 0
  Probed ip d = Guarded web d × (d.host ≡ ip)

  probed_text-Guarded :
      (ip : Text) (port : ℕ) (location : Text) (o : Option Text)
      → Holds (Probed ip) (probed_text web ip port location o)
  unfolding Probed probed_text
  probed_text-Guarded ip port location none = tt
  probed_text-Guarded ip port location (some xml) = by_case (
      not (contains_text (codes "MediaRenderer") xml)
      && not (contains_text (codes "AVTransport") xml))
    where
      description : Description
      description = parse_description web xml location

      by_case :
          (b : Bool)
          → Holds
              (Probed ip)
              (if b then none else described web description ip ip port description.control)
      by_case true = tt
      by_case false = described-Guarded description ip ip port description.control

  try_paths-Guarded :
      (ip : Text) (port : ℕ) (paths : List Text) → Holds (Probed ip) (try_paths web ip port paths)
  unfolding try_paths
  try_paths-Guarded ip port [] = tt
  try_paths-Guarded ip port (path ∷ paths) =
      let location = codes "http://" ++ ip ++ (b':' ∷ print_nat port) ++ path in
      first_of-Holds (Probed ip) (probed_text web ip port location (web.http_get_text location))
        (try_paths web ip port paths)
        (probed_text-Guarded ip port location (web.http_get_text location))
        (try_paths-Guarded ip port paths)

  try_ports-Guarded : (ip : Text) (ports : List ℕ) → Holds (Probed ip) (try_ports web ip ports)
  unfolding try_ports
  try_ports-Guarded ip [] = tt
  try_ports-Guarded ip (port ∷ ports) =
      first_of-Holds (Probed ip) (try_paths web ip port probe_paths) (try_ports web ip ports)
        (try_paths-Guarded ip port probe_paths) (try_ports-Guarded ip ports)

  locations-OnLan :
      (air : Air) (candidates : List Text) (on_lan use_multicast : Bool) (location : Text)
      → In location (locations web air candidates on_lan use_multicast)
      → OnLan web location
  unfolding locations
  locations-OnLan air candidates false use_multicast location i = absurd i
  locations-OnLan air candidates true true location i =
      elim ((In-append location (ssdp_multicast web air.multicast) _).0 i) [
        | inl k ↦ ssdp_multicast-OnLan web air.multicast location k
        | inr k ↦ ssdp_unicast-OnLan web candidates air.unicast location k
      ]
  locations-OnLan air candidates true false location i =
      ssdp_unicast-OnLan web candidates air.unicast location i

  located-Found :
      (candidates : List Text) (location : Text)
      → OnLan web location
      → Holds (Found web candidates) (device_from_location web location)
  located-Found candidates location on =
      Holds-imp (λ d. Guarded web d × (host_of web location ≡ some d.host)) (Found web candidates)
        (device_from_location web location)
        (λ d h. record {
          guarded = h.0;
          host = inl (on.ip, on.local_address, some_inj (sym h.1 ∙ on.host));
        })
        (device_from_location-Guarded location)

  probed-Found :
      (candidates : List Text) (ip : Text)
      → In ip candidates
      → Holds (Found web candidates) (probe_ip web ip)
  unfolding Probed probe_ip
  probed-Found candidates ip i =
      Holds-imp (Probed ip) (Found web candidates) (probe_ip web ip)
        (λ d h. record { guarded = h.0; host = inr (subst (λ t. In t candidates) (sym h.1) i) })
        (try_ports-Guarded ip (scan_ports web ip probe_ports))

  -- Whatever the network answers, each renderer of a scan is one of a candidate or of an IPv4 address
  -- of the local network, and its control URL, and its rendering URL where it has one, are http or
  -- https URLs of that very host. The probes that finish are taken to be some of those that were
  -- started.
  pub discover-Found :
      (air : Air) (on_lan : Bool) (candidates : List Text) (use_multicast : Bool)
      → ((xs : List Text) (x : Text) → In x (air.finish xs) → In x xs)
      → AllDevices (Found web candidates) (discover web air on_lan candidates use_multicast)
  unfolding discover
  discover-Found air on_lan candidates use_multicast finishes =
      let started = locations web air candidates on_lan use_multicast in
      let described = collect_devices (map (device_from_location web) (air.finish started)) [] in
      collect_devices-All (Found web candidates) (probe_ip web)
        (air.finish (unseen candidates described)) described
        (λ ip i.
          probed-Found candidates ip
            (unseen-In candidates described ip (finishes (unseen candidates described) ip i)))
        (collect_devices-All (Found web candidates) (device_from_location web) (air.finish started)
          []
          (λ location i. located-Found candidates location (
            locations-OnLan air candidates on_lan use_multicast location
              (finishes started location i)))
          tt)
