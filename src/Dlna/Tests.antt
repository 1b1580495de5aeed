-- ===== src/Dlna/Tests.antt =====
-- src/dlna.rs at concrete inputs: a television that answers the search and describes itself.
use unicast.Base.{
  ℕ, length, print_nat, parse_uint-zeros, ◌-◌, parse_uint, u64_max, ◌≤◌, arith, ◌≡◌, refl, true,
  false, Option, none, some, List, [], ◌∷◌, ◌++◌, Text, codes, eq_text, if◌then◌else◌,
}
use unicast.Sample.{platform}
use unicast.Subtitles.{pad}
use unicast.Dlna.Clock.{hms, format_hms}
use unicast.Dlna.Clock.Whole.{Exact, hms-format_hms}
use unicast.Dlna.{Web, Url, XmlEvent, start, end, chunk}
use unicast.Dlna.Ssdp.{Sender, v4, Received, datagram, quiet, broken, collect_locations}
use unicast.Dlna.Ssdp.Bounds.{Bounded, collect_locations-Bounded}
use unicast.Dlna.Scan.{Air, discover}
use unicast.Dlna.Scan.Guarded.{Found, AllDevices, discover-Found}
use unicast.Dlna.Soap.{xml_escape, replace_char}
use unicast.Dlna.Soap.Escaped.{Reads, xml_escape-Reads}

abbrev tv_host : Text
tv_host = codes "192.168.50.20"

abbrev tv_location : Text
tv_location = codes "http://192.168.50.20:9197/dmr"

abbrev tv_control : Text
tv_control = codes "http://192.168.50.20:9197/control"

abbrev url_of : Text → Option Url
url_of text =
    if eq_text text tv_location
    then some (record { scheme = codes "http"; host_str = some tv_host; port = some 9197 })
    else (if eq_text text tv_control
        then some (record { scheme = codes "http"; host_str = some tv_host; port = some 9197 })
        else none)

abbrev service_events : List XmlEvent
service_events =
    start (codes "service")
    ∷ start (codes "serviceType")
    ∷ chunk (codes "urn:schemas-upnp-org:service:AVTransport:1") none
    ∷ end (codes "serviceType")
    ∷ start (codes "controlURL")
    ∷ chunk (codes "/control") none
    ∷ end (codes "controlURL")
    ∷ end (codes "service")
    ∷ []

abbrev web : Web
web = record {
  parse_url = url_of;
  join_url = λ base reference. some tv_control;
  http_get_text = λ url. some (codes "<root/>");
  xml_events = λ xml. service_events;
  resolve_ip = λ host. host;
  port_open = λ host port. false;
}

abbrev reply : Text
reply = codes "HTTP/1.1 200 OK" ++ 13 ∷ 10 ∷ (codes "Location: " ++ tv_location ++ 13 ∷ 10 ∷ [])

abbrev television : Sender
television = v4 (record { a = 192; b = 168; c = 50; d = 20 })

-- The same reply twice, one that is too long, and one from outside the local network.
abbrev received : List Received
received =
    datagram 100 reply television
    ∷ quiet
    ∷ datagram 100 reply television
    ∷ datagram 4097 reply television
    ∷ datagram 100 reply (v4 (record { a = 8; b = 8; c = 8; d = 8 }))
    ∷ broken
    ∷ datagram 100 reply television
    ∷ []

abbrev air : Air
air = record { multicast = some received; unicast = none; finish = λ xs. xs }

collect_locations-Bounded_example : Bounded web (collect_locations web received)
collect_locations-Bounded_example = collect_locations-Bounded web received

discover-Found_example :
    AllDevices
      (Found web (codes "192.168.50.30" ∷ []))
      (discover web air true (codes "192.168.50.30" ∷ []) true)
discover-Found_example = discover-Found web air true (codes "192.168.50.30" ∷ []) true (λ xs x i. i)

xml_escape-Reads_example :
    Reads (xml_escape (codes "Tom & 'Jerry' <1>")) (codes "Tom & 'Jerry' <1>")
xml_escape-Reads_example = xml_escape-Reads (codes "Tom & 'Jerry' <1>")

escaped : xml_escape (codes "A & B") ≡ codes "A &amp; B"
unfolding xml_escape replace_char
escaped = refl

-- The numbers of the sample platform are whole numbers.
sample_digits : (n : ℕ) → n ≤ 1000000 → parse_uint u64_max (pad 2 n) ≡ some n
unfolding pad
sample_digits n fits = parse_uint-zeros u64_max (2 - length (print_nat n)) n (omega arith)

sample_exact : Exact platform
sample_exact = record {
  zero_is = refl;
  not_negative = λ n. omega arith;
  quotient = λ n d fits pos. refl;
  remainder = λ n d fits pos. refl;
  whole = λ n fits. refl;
  sum = λ m n fits. refl;
  digits = sample_digits;
  finite = λ n fits. refl;
  above_zero = λ n. ground arith;
  below_max = λ n fits. ground arith;
}

hms-format_hms_example : hms platform (format_hms platform 3725) ≡ 3725
hms-format_hms_example = hms-format_hms platform 3725 sample_exact (omega arith)
