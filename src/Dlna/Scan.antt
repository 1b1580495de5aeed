-- ===== src/Dlna/Scan.antt =====
-- src/dlna.rs: the description of a renderer, asked for at its location or guessed by its address,
-- and the scan of the network.
pub mod Guarded
pub mod Leads
use unicast.Base.{
  ℕ, Bool, true, false, not, ◌&&◌, ◌||◌, Option, none, some, List, [], ◌∷◌, ◌++◌, Text, codes,
  eq_text, contains_text, print_nat, if◌then◌else◌, map,
}
use unicast.Daemon.State.{Device, Protocol}
use unicast.Dlna.{Web, Url, control_ok}
use unicast.Dlna.Ssdp.{Received, ssdp_multicast, ssdp_unicast}
use unicast.Dlna.Description.{Description, parse_description}

abbrev pub probe_ports : List ℕ
probe_ports = 9197 ∷ 7676 ∷ 8080 ∷ 1400 ∷ 3000 ∷ 8060 ∷ 55000 ∷ 49152 ∷ 49153 ∷ 2869 ∷ 1054 ∷ []

abbrev pub probe_paths : List Text
probe_paths =
    codes "/dmr"
    ∷ codes "/dmr/"
    ∷ codes "/description.xml"
    ∷ codes "/MediaRenderer/desc.xml"
    ∷ codes "/upnp/desc.xml"
    ∷ codes "/dd.xml"
    ∷ codes "/device.xml"
    ∷ codes "/xml/device_description.xml"
    ∷ []

or_host : Option Text → Text → Text
or_host none host = host
or_host (some name) host = name

or_empty : Option Text → Text
or_empty none = []
or_empty (some t) = t

or_zero : Option ℕ → ℕ
or_zero none = 0
or_zero (some n) = n

-- A rendering URL of another host is left out.
filter_url : Web → Text → Option Text → Option Text
unfolding control_ok
filter_url web host none = none
filter_url web host (some url) = if control_ok web url host then some url else none

renderer : Web → Description → Text → Text → ℕ → Text → Device
unfolding filter_url or_host or_empty
renderer web description host ip port control = record {
  name = or_host description.friendly host;
  host = host;
  ip = ip;
  port = port;
  protocol = Protocol.dlna;
  model = or_empty description.model;
  id = codes "dlna:" ++ ip;
  control_url = some control;
  rendering_url = filter_url web host description.rendering;
  alternates = [];
}

-- A description is of a renderer where it has a control URL of the host.
described : Web → Description → Text → Text → ℕ → Option Text → Option Device
unfolding control_ok renderer
described web description host ip port none = none
described web description host ip port (some control) =
    if control_ok web control host
    then some (renderer web description host ip port control)
    else none

fetched : Web → Text → Text → ℕ → Option Text → Option Device
unfolding described parse_description
fetched web location host port none = none
fetched web location host port (some xml) =
    let description = parse_description web xml location in
    described web description host (web.resolve_ip host) port description.control

at_host : Web → Text → Option ℕ → Option Text → Option Device
unfolding fetched or_zero
at_host web location port none = none
at_host web location port (some host) =
    fetched web location host (or_zero port) (web.http_get_text location)

at_url : Web → Text → Option Url → Option Device
unfolding at_host
at_url web location none = none
at_url web location (some url) = at_host web location url.port url.host_str

unfoldable pub device_from_location : Web → Text → Option Device
unfolding at_url
device_from_location web location = at_url web location (web.parse_url location)

probed_text : Web → Text → ℕ → Text → Option Text → Option Device
unfolding described parse_description
probed_text web ip port location none = none
probed_text web ip port location (some xml) =
    if not (contains_text (codes "MediaRenderer") xml)
      && not (contains_text (codes "AVTransport") xml)
    then none
    else let description = parse_description web xml location in
      described web description ip ip port description.control

first_of : Option Device → Option Device → Option Device
first_of none d = d
first_of (some d) e = some d

unfoldable pub try_paths : Web → Text → ℕ → List Text → Option Device
unfolding probed_text first_of
try_paths web ip port [] = none
try_paths web ip port (path ∷ paths) =
    let location = codes "http://" ++ ip ++ (b':' ∷ print_nat port) ++ path in
    first_of (probed_text web ip port location (web.http_get_text location))
      (try_paths web ip port paths)

unfoldable pub try_ports : Web → Text → List ℕ → Option Device
unfolding try_paths first_of
try_ports web ip [] = none
try_ports web ip (port ∷ ports) =
    first_of (try_paths web ip port probe_paths) (try_ports web ip ports)

scan_ports : Web → Text → List ℕ → List ℕ
scan_ports web ip [] = []
scan_ports web ip (port ∷ ports) =
    let rest = scan_ports web ip ports in if web.port_open ip port then port ∷ rest else rest

unfoldable pub probe_ip : Web → Text → Option Device
unfolding try_ports scan_ports
probe_ip web ip = try_ports web ip (scan_ports web ip probe_ports)

has_ip : Text → List Device → Bool
has_ip ip [] = false
has_ip ip (device ∷ devices) = eq_text device.ip ip || has_ip ip devices

-- The first renderer of an address is kept.
add_device : Option Device → List Device → List Device
unfolding has_ip
add_device none devices = devices
add_device (some device) devices = if has_ip device.ip devices then devices else device ∷ devices

-- The probes that finish before the deadline, in their order.
unfoldable pub collect_devices : List (Option Device) → List Device → List Device
unfolding add_device
collect_devices [] devices = devices
collect_devices (found ∷ later) devices = collect_devices later (add_device found devices)

-- The candidates that no description named.
unfoldable pub unseen : List Text → List Device → List Text
unfolding has_ip
unseen [] devices = []
unseen (ip ∷ ips) devices =
    let rest = unseen ips devices in if has_ip ip devices then rest else ip ∷ rest

-- What the two sockets receive, where they could be opened, and which of the probes that run at once
-- finish in time, in what order.
pub record Air : Type 0 where
  pub multicast : Option (List Received)
  pub unicast : Option (List Received)
  pub finish : List Text → List Text

unfoldable pub locations : Web → Air → List Text → Bool → Bool → List Text
unfolding ssdp_multicast ssdp_unicast
locations web air candidates false use_multicast = []
locations web air candidates true use_multicast =
    (if use_multicast then ssdp_multicast web air.multicast else [])
    ++ ssdp_unicast web candidates air.unicast

-- The scan, given whether there is a local address.
unfoldable pub discover : Web → Air → Bool → List Text → Bool → List Device
unfolding device_from_location probe_ip collect_devices unseen locations
discover web air on_lan candidates use_multicast =
    let described =
      collect_devices
        (map (device_from_location web)
          (air.finish (locations web air candidates on_lan use_multicast)))
        [] in
    collect_devices (map (probe_ip web) (air.finish (unseen candidates described))) described
