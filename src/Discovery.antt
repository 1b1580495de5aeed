-- ===== src/Discovery.antt =====
-- src/discovery.rs: what is made of the receivers that mDNS and the search for DLNA renderers find.
-- The scans are parameters; `values` is the order in which a `HashMap` gives its values.
pub mod Listed
pub mod Mdns
mod Tests
use unicast.Base.{
  ℕ, Bool, true, false, not, ◌&&◌, ◌||◌, ◌==◌, Option, none, some, List, [], ◌∷◌, ◌++◌, map, Text,
  codes, if◌then◌else◌, eq_text, is_empty, mem_text, filter_map, sorted_set, lt_text, ltb, Platform,
}
use unicast.Net.{Ipv4, show_ipv4, valid_receiver_ip}
use unicast.Daemon.State.{Device, Protocol, cast, dlna, airplay, unknown}

abbrev cast_port : ℕ
cast_port = 8009

protocol_name : Protocol → Text
protocol_name cast = codes "cast"
protocol_name dlna = codes "dlna"
protocol_name airplay = codes "airplay"
protocol_name (unknown name) = name

unfoldable pub preference : Protocol → ℕ
preference dlna = 3
preference cast = 2
preference airplay = 1
preference (unknown name) = 0

has_protocol : Text → Device → Bool
unfolding protocol_name
has_protocol name device = eq_text (protocol_name device.protocol) name

ips_of : Text → List Device → List Text
unfolding has_protocol
ips_of name [] = []
ips_of name (device ∷ devices) =
    if has_protocol name device then device.ip ∷ ips_of name devices else ips_of name devices

-- An address is probed where only AirPlay was heard of it.
cast_answers : (Text → Bool) → List Device → Device → Bool
unfolding ips_of
cast_answers cast_open devices device =
    not (mem_text device.ip (ips_of (codes "cast") devices)) && cast_open device.ip

promoted : (Text → Bool) → List Device → Device → Device
unfolding cast_answers has_protocol
promoted cast_open devices device =
    if not (has_protocol (codes "airplay") device) || not (cast_answers cast_open devices device)
    then device
    else record device {
      protocol = cast;
      port = cast_port;
      id = codes "cast:" ++ device.ip;
      alternates = codes "airplay" ∷ [];
    }

unfoldable pub promote_cast_capable : (Text → Bool) → List Device → List Device
unfolding promoted
promote_cast_capable cast_open devices = map (λ device. promoted cast_open devices device) devices

-- What is kept of two devices at one address.
joined : Device → Device → Device
unfolding protocol_name
joined keep drop = record keep {
  alternates =
      sorted_set (keep.alternates ++ (drop.alternates ++ protocol_name drop.protocol ∷ []));
  name =
      if (is_empty keep.name || eq_text keep.name keep.ip) && not (is_empty drop.name)
      then drop.name
      else keep.name;
  model = if is_empty keep.model && not (is_empty drop.model) then drop.model else keep.model;
}

unfoldable pub preferred : Device → Device → Device
unfolding joined preference
preferred device existing =
    if ltb (preference existing.protocol) (preference device.protocol)
    then joined device existing
    else joined existing device

-- `by_ip` with one more device: it holds one device for an address.
unfoldable pub absorb : Device → List Device → List Device
unfolding preferred
absorb device [] = device ∷ []
absorb device (existing ∷ devices) =
    if eq_text existing.ip device.ip
    then preferred device existing ∷ devices
    else existing ∷ absorb device devices

unfoldable pub absorb_all : List Device → List Device → List Device
unfolding absorb
absorb_all by_ip [] = by_ip
absorb_all by_ip (device ∷ devices) = absorb_all (absorb device by_ip) devices

-- The address is a local one, as it stands.
lists_as : Device → Option Text → Option Device
lists_as device none = none
lists_as device (some ip) = if eq_text ip device.ip then some device else none

unfoldable pub lists : Device → Option Device
unfolding lists_as
lists device = lists_as device (valid_receiver_ip device.ip)

without_own : Option Ipv4 → List Text → List Text
without_own none ips = ips
without_own (some own) ips = remove (show_ipv4 own) ips
  where
    remove : Text → List Text → List Text
    remove ip [] = []
    remove ip (entry ∷ entries) =
        if eq_text entry ip then remove ip entries else entry ∷ remove ip entries

unfoldable pub candidates : Option Ipv4 → List Device → List Text → List Text
unfolding without_own
candidates lan_ip found manual_ips =
    without_own lan_ip
      (sorted_set (map (λ device. device.ip) found ++ filter_map valid_receiver_ip manual_ips))

module _ (platform : Platform) (values : List Device → List Device) where
  open platform use {to_lowercase}

  -- By the protocol, then by the name in lower case.
  before : Device → Device → Bool
  unfolding protocol_name
  before a b =
      lt_text (protocol_name a.protocol) (protocol_name b.protocol)
      || (eq_text (protocol_name a.protocol) (protocol_name b.protocol)
          && lt_text (to_lowercase a.name) (to_lowercase b.name))

  unfoldable pub insert_device : Device → List Device → List Device
  unfolding before
  insert_device device [] = device ∷ []
  insert_device device (other ∷ devices) =
      if not (before device other)
      then other ∷ insert_device device devices
      else device ∷ other ∷ devices

  -- The sort is stable: the devices are inserted from the first, each after its equals.
  unfoldable pub sort_into : List Device → List Device → List Device
  unfolding insert_device
  sort_into sorted [] = sorted
  sort_into sorted (device ∷ devices) = sort_into (insert_device device sorted) devices

  unfoldable pub merge : List Device → List Device → List Device
  unfolding sort_into absorb_all
  merge mdns dlna_devices = sort_into [] (values (absorb_all [] (mdns ++ dlna_devices)))

  unfoldable pub discover :
      (Text → Bool)
      → List Device
      → (List Text → List Device)
      → Option Ipv4
      → List Text
      → List Device
  unfolding promote_cast_capable candidates merge lists
  discover cast_open scanned dlna_discover lan_ip manual_ips =
      let found = promote_cast_capable cast_open scanned in
      filter_map lists (merge found (dlna_discover (candidates lan_ip found manual_ips)))
