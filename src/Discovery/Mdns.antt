-- ===== src/Discovery/Mdns.antt =====
-- src/discovery.rs: `mdns_devices` and the devices it makes of the services that the crate mdns-sd
-- resolves; the socket and the clock are not modelled.
pub mod Heard
use unicast.Base.{
  ℕ, ◌+◌, ◌≤◌, arith, ◌≡◌, refl, ap, ◌∙◌, Bool, true, false, ◌&&◌, ◌==◌, Bool-cases, inl, inr,
  Option, none, some, List, [], ◌∷◌, ◌++◌, map, Text, codes, if◌then◌else◌, length, length-append,
  ltb, In, strip_suffix,
}
use unicast.Net.{Ipv4, show_ipv4, lan_ipv4}
use unicast.Server.Request.{IpAddr, v4, v6, same_ipv4}
use unicast.Daemon.State.{Device, cast, airplay}
use unicast.Discovery.{promote_cast_capable, promoted}

pub data Service : Type 0 where
  cast_service : Service
  airplay_service : Service

-- `get_addresses_v4` in the order of its iterator, and `get_property_val_str`.
pub record ResolvedService : Type 0 where
  pub fullname : Text
  pub hostname : Text
  pub port : ℕ
  pub addresses_v4 : List Ipv4
  pub property : Text → Option Text

abbrev pub max_mdns_devices : ℕ
max_mdns_devices = 32

unfoldable pub mdns_interface_allowed : IpAddr → Option Ipv4 → Bool
unfolding same_ipv4
mdns_interface_allowed (v4 ip) (some lan) = if lan_ipv4 lan then same_ipv4 ip lan else lan_ipv4 ip
mdns_interface_allowed (v4 ip) none = lan_ipv4 ip
mdns_interface_allowed (v6 ip) lan = false

unfoldable pub lan_address_of : List Ipv4 → Option Ipv4
lan_address_of [] = none
lan_address_of (ip ∷ ips) = if lan_ipv4 ip then some ip else lan_address_of ips

or_else : Option Text → Text → Text
or_else none other = other
or_else (some text) other = text

unfoldable pub service_name : Text → Text → Text
unfolding or_else strip_suffix
service_name fullname suffix = or_else (strip_suffix suffix fullname) fullname

cast_at : ResolvedService → Option Ipv4 → Option Device
unfolding or_else service_name
cast_at info none = none
cast_at info (some ip) = some (record {
  name =
      or_else (info.property (codes "fn"))
        (service_name info.fullname (codes "._googlecast._tcp.local."));
  host = info.hostname;
  ip = show_ipv4 ip;
  port = info.port;
  protocol = cast;
  model = or_else (info.property (codes "md")) [];
  id = codes "cast:" ++ or_else (info.property (codes "id")) (show_ipv4 ip);
  control_url = none;
  rendering_url = none;
  alternates = [];
})

airplay_at : ResolvedService → Option Ipv4 → Option Device
unfolding or_else service_name
airplay_at info none = none
airplay_at info (some ip) = some (record {
  name = service_name info.fullname (codes "._airplay._tcp.local.");
  host = info.hostname;
  ip = show_ipv4 ip;
  port = info.port;
  protocol = airplay;
  model = or_else (info.property (codes "model")) [];
  id = codes "airplay:" ++ or_else (info.property (codes "deviceid")) (show_ipv4 ip);
  control_url = none;
  rendering_url = none;
  alternates = [];
})

unfoldable pub cast_device : ResolvedService → Option Device
unfolding cast_at lan_address_of
cast_device info = cast_at info (lan_address_of info.addresses_v4)

unfoldable pub airplay_device : ResolvedService → Option Device
unfolding airplay_at lan_address_of
airplay_device info = airplay_at info (lan_address_of info.addresses_v4)

unfoldable pub device_of : Service → ResolvedService → Option Device
unfolding cast_device airplay_device
device_of cast_service info = cast_device info
device_of airplay_service info = airplay_device info

unfoldable pub push_device : List Device → Option Device → List Device
push_device devices none = devices
push_device devices (some device) =
    if ltb (length devices) max_mdns_devices then devices ++ device ∷ [] else devices

-- The services resolved until the deadline, in the order in which the loop receives them.
unfoldable pub collect_devices : List Device → List (Service × ResolvedService) → List Device
unfolding push_device device_of
collect_devices devices [] = devices
collect_devices devices ((service, info) ∷ resolved) =
    collect_devices (push_device devices (device_of service info)) resolved

-- `none` where mDNS does not start, is not limited to the interface, or browses nothing.
unfoldable pub mdns_devices :
    (Text → Bool) → Option (List (Service × ResolvedService)) → List Device
unfolding collect_devices promote_cast_capable
mdns_devices cast_open none = []
mdns_devices cast_open (some resolved) =
    promote_cast_capable cast_open (collect_devices [] resolved)
