-- ===== src/Discovery/Mdns/Heard.antt =====
-- src/discovery.rs: how many receivers `mdns_devices` lists, and where they are.
use unicast.Base.{
  In, ◌≤◌, arith, ◌≡◌, refl, Bool, true, false, not, ◌||◌, Bool-cases, inl, inr, Option, none, some,
  List, [], ◌∷◌, ◌++◌, map, Text, if◌then◌else◌, length, length-append, length-map, codes, ltb,
  ltb→lt,
}
use unicast.Net.{Ipv4, show_ipv4, lan_ipv4}
use unicast.Daemon.State.{Device}
use unicast.Discovery.{promote_cast_capable, promoted, has_protocol, cast_answers}
use unicast.Discovery.Mdns.{
  Service, cast_service, airplay_service, ResolvedService, max_mdns_devices, lan_address_of,
  cast_at, airplay_at, cast_device, airplay_device, device_of, push_device, collect_devices,
  mdns_devices,
}

-- The device is that of a service that was resolved: it stands at the text of a local address of the
-- service's record, and names no URL.
pub record Heard (resolved : List (Service × ResolvedService)) (device : Device) : Type 0 where
  pub service : Service
  pub info : ResolvedService
  pub received : In (service, info) resolved
  pub ip : Ipv4
  pub recorded : In ip info.addresses_v4
  pub local_address : lan_ipv4 ip ≡ true
  pub shown : device.ip ≡ show_ipv4 ip
  pub no_control : device.control_url ≡ none
  pub no_rendering : device.rendering_url ≡ none

abbrev pub AllHeard : List (Service × ResolvedService) → List Device → Type 0
AllHeard resolved [] = Unit {0}
AllHeard resolved (device ∷ devices) = Heard resolved device × AllHeard resolved devices

abbrev HeardWhere : List (Service × ResolvedService) → Option Device → Type 0
HeardWhere resolved none = Unit {0}
HeardWhere resolved (some device) = Heard resolved device

abbrev LocalWhere : List Ipv4 → Option Ipv4 → Type 0
LocalWhere ips none = Unit {0}
LocalWhere ips (some ip) = In ip ips × (lan_ipv4 ip ≡ true)

LocalWhere-later :
    (ip : Ipv4) (ips : List Ipv4) (o : Option Ipv4) → LocalWhere ips o → LocalWhere (ip ∷ ips) o
LocalWhere-later ip ips none h = tt
LocalWhere-later ip ips (some found) (i, e) = (inr i, e)

lan_address_of-LocalWhere : (ips : List Ipv4) → LocalWhere ips (lan_address_of ips)
unfolding lan_address_of
lan_address_of-LocalWhere [] = tt
lan_address_of-LocalWhere (ip ∷ ips) = elim (Bool-cases (lan_ipv4 ip)) [
  | inl e ↦ rw e (inl refl, e)
  | inr e ↦ rw e (LocalWhere-later ip ips (lan_address_of ips) (lan_address_of-LocalWhere ips))
]

module _ (resolved : List (Service × ResolvedService)) (info : ResolvedService) where
  cast_at-HeardWhere :
      (found : Option Ipv4)
      → LocalWhere info.addresses_v4 found
      → In (cast_service, info) resolved
      → HeardWhere resolved (cast_at info found)
  unfolding cast_at
  cast_at-HeardWhere none h i = tt
  cast_at-HeardWhere (some ip) (recorded, local_ip) i = record {
    service = cast_service;
    info = info;
    received = i;
    ip = ip;
    recorded = recorded;
    local_address = local_ip;
    shown = refl;
    no_control = refl;
    no_rendering = refl;
  }

  airplay_at-HeardWhere :
      (found : Option Ipv4)
      → LocalWhere info.addresses_v4 found
      → In (airplay_service, info) resolved
      → HeardWhere resolved (airplay_at info found)
  unfolding airplay_at
  airplay_at-HeardWhere none h i = tt
  airplay_at-HeardWhere (some ip) (recorded, local_ip) i = record {
    service = airplay_service;
    info = info;
    received = i;
    ip = ip;
    recorded = recorded;
    local_address = local_ip;
    shown = refl;
    no_control = refl;
    no_rendering = refl;
  }

  device_of-HeardWhere :
      (service : Service)
      → In (service, info) resolved
      → HeardWhere resolved (device_of service info)
  unfolding device_of cast_device airplay_device
  device_of-HeardWhere cast_service i =
      cast_at-HeardWhere _ (lan_address_of-LocalWhere info.addresses_v4) i
  device_of-HeardWhere airplay_service i =
      airplay_at-HeardWhere _ (lan_address_of-LocalWhere info.addresses_v4) i

module _ (resolved : List (Service × ResolvedService)) where
  AllHeard-append :
      (ds : List Device) {d : Device}
      → AllHeard resolved ds
      → Heard resolved d
      → AllHeard resolved (ds ++ d ∷ [])
  AllHeard-append [] h k = (k, tt)
  AllHeard-append (e ∷ ds) (h, hs) k = (h, AllHeard-append ds hs k)

  record Few (devices : List Device) : Type 0 where
    few : length devices ≤ 32
    heard : AllHeard resolved devices

  Few-append :
      (devices : List Device) (device : Device)
      → Few devices
      → Heard resolved device
      → ltb (length devices) 32 ≡ true
      → Few (devices ++ device ∷ [])
  Few-append devices device h k room = record {
    few = omega (arith, length-append devices (device ∷ []), ltb→lt (length devices) 32 room);
    heard = AllHeard-append devices h.heard k;
  }

  push_device-Few :
      (devices : List Device) (found : Option Device)
      → Few devices
      → HeardWhere resolved found
      → Few (push_device devices found)
  unfolding push_device
  push_device-Few devices none h k = h
  push_device-Few devices (some device) h k = elim (Bool-cases (ltb (length devices) 32)) [
    | inl room ↦ rw room (Few-append devices device h k room)
    | inr full ↦ rw full h
  ]

  collect_devices-Few :
      (later : List (Service × ResolvedService)) (devices : List Device)
      → ((x : Service × ResolvedService) → In x later → In x resolved)
      → Few devices
      → Few (collect_devices devices later)
  unfolding collect_devices
  collect_devices-Few [] devices among h = h
  collect_devices-Few ((service, info) ∷ later) devices among h =
      collect_devices-Few later (push_device devices (device_of service info))
        (λ x i. among x (inr i))
        (push_device-Few devices (device_of service info) h
          (device_of-HeardWhere resolved info service (among (service, info) (inl refl))))

  Heard-if :
      (b : Bool) {d e : Device}
      → Heard resolved d
      → Heard resolved e
      → Heard resolved (if b then d else e)
  Heard-if true h k = h
  Heard-if false h k = k

  promoted-Heard :
      (cast_open : Text → Bool) (devices : List Device) (d : Device)
      → Heard resolved d
      → Heard resolved (promoted cast_open devices d)
  unfolding promoted
  promoted-Heard cast_open devices d h =
      Heard-if (not (has_protocol (codes "airplay") d) || not (cast_answers cast_open devices d)) h
        (record {
          service = h.service;
          info = h.info;
          received = h.received;
          ip = h.ip;
          recorded = h.recorded;
          local_address = h.local_address;
          shown = h.shown;
          no_control = h.no_control;
          no_rendering = h.no_rendering;
        })

  promotion-Few :
      (cast_open : Text → Bool) (all devices : List Device)
      → Few devices
      → Few (map (λ device. promoted cast_open all device) devices)
  promotion-Few cast_open all devices h = record {
    few = rw (length-map devices (λ device. promoted cast_open all device)) h.few;
    heard = AllHeard-map devices h.heard;
  }
    where
      AllHeard-map :
          (ds : List Device)
          → AllHeard resolved ds
          → AllHeard resolved (map (λ device. promoted cast_open all device) ds)
      AllHeard-map [] h = tt
      AllHeard-map (d ∷ ds) (h, hs) = (promoted-Heard cast_open all d h, AllHeard-map ds hs)

-- However many services answer, mDNS lists at most 32 receivers, each of a service that was
-- resolved, at the text of a local IPv4 address of its record and without a URL.
pub mdns_devices-AllHeard :
    (cast_open : Text → Bool) (resolved : List (Service × ResolvedService))
    → (length (mdns_devices cast_open (some resolved)) ≤ max_mdns_devices)
      × AllHeard resolved (mdns_devices cast_open (some resolved))
unfolding mdns_devices promote_cast_capable
mdns_devices-AllHeard cast_open resolved =
    let h = promotion-Few resolved cast_open _ _ (
      collect_devices-Few resolved resolved [] (λ x i. i)
        (record { few = omega arith; heard = tt })) in
    (h.few, h.heard)
