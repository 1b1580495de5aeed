-- ===== src/Discovery/Tests.antt =====
-- src/discovery.rs at concrete inputs.
use unicast.Base.{Bool, ◌≤◌, length, some, true, none, List, [], ◌∷◌, ◌++◌, Text, codes, In}
use unicast.Net.Canonical.{IsLan}
use unicast.Daemon.State.{Device, Protocol, cast, dlna, airplay}
use unicast.Discovery.{promote_cast_capable, candidates, discover}
use unicast.Discovery.Listed.{Covered, discover-Covered}
use unicast.Discovery.Mdns.{Service, cast_service, airplay_service, ResolvedService, mdns_devices}
use unicast.Discovery.Mdns.Heard.{AllHeard, mdns_devices-AllHeard}
use unicast.Sample.{platform}

abbrev device : Text → Protocol → Text → Device
device ip protocol name = record {
  name = name;
  host = ip;
  ip = ip;
  port = 7000;
  protocol = protocol;
  model = [];
  id = ip;
  control_url = none;
  rendering_url = none;
  alternates = [];
}

-- A TV heard over AirPlay which answers as a Cast receiver, and a public address.
abbrev scanned : List Device
scanned =
    device (codes "10.0.0.7") airplay (codes "LG TV")
    ∷ device (codes "8.8.8.8") cast (codes "far")
    ∷ []

abbrev cast_open : Text → Bool
cast_open ip = true

abbrev renderers : List Text → List Device
renderers ips = device (codes "10.0.0.7") dlna [] ∷ []

discover-Covered_example :
    let found = promote_cast_capable cast_open scanned in
    let answer = discover platform (λ ds. ds) cast_open scanned renderers none [] in
    ((m : Device) → In m answer → IsLan m.ip)
    × ((d : Device)
        → In d (found ++ renderers (candidates none found []))
        → IsLan d.ip
        → Covered d answer)
discover-Covered_example =
    discover-Covered platform (λ ds. ds) cast_open scanned renderers none [] λ x ds i. i

-- A TV that is announced twice, and a record of a public address.
abbrev tv_record : ResolvedService
tv_record = record {
  fullname = codes "LG TV._airplay._tcp.local.";
  hostname = codes "lg.local.";
  port = 7000;
  addresses_v4 = record { a = 10; b = 0; c = 0; d = 7 } ∷ [];
  property = λ key. none;
}

abbrev far_record : ResolvedService
far_record = record tv_record { addresses_v4 = record { a = 8; b = 8; c = 8; d = 8 } ∷ [] }

abbrev resolved : List (Service × ResolvedService)
resolved =
    (airplay_service, tv_record) ∷ (cast_service, far_record) ∷ (cast_service, tv_record) ∷ []

mdns_devices-AllHeard_example :
    (length (mdns_devices cast_open (some resolved)) ≤ 32)
    × AllHeard resolved (mdns_devices cast_open (some resolved))
mdns_devices-AllHeard_example = mdns_devices-AllHeard cast_open resolved
