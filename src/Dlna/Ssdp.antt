-- ===== src/Dlna/Ssdp.antt =====
-- src/dlna.rs: the search for renderers by SSDP, and what is taken of the replies.
pub mod Bounds
use unicast.Base.{
  ℕ, ◌+◌, Bool, true, false, not, ◌&&◌, ◌||◌, Option, none, some, List, [], ◌∷◌, ◌++◌, Text, codes,
  ltb, leb, ◌==◌, if◌then◌else◌, eq_text, is_empty, strip_prefix, split_once, trim, mem_text, map,
  cons_first, length, print_nat,
}
use unicast.Net.{Ipv4, lan_ipv4, show_ipv4}
use unicast.Dlna.{Web, host_of}

abbrev pub max_locations_per_host : ℕ
max_locations_per_host = 4

abbrev pub max_locations : ℕ
max_locations = 64

abbrev pub max_ssdp_reply : ℕ
max_ssdp_reply = 4096

abbrev ssdp_addr : Text
ssdp_addr = codes "239.255.255.250"

abbrev ssdp_port : ℕ
ssdp_port = 1900

abbrev media_renderer : Text
media_renderer = codes "urn:schemas-upnp-org:device:MediaRenderer:1"

abbrev crlf : Text
crlf = 13 ∷ 10 ∷ []

msearch : Text → Text
msearch st =
    codes "M-SEARCH * HTTP/1.1"
    ++ crlf
    ++ (codes "HOST: " ++ ssdp_addr ++ (b':' ∷ print_nat ssdp_port) ++ crlf)
    ++ (codes "MAN: \"ssdp:discover\"" ++ crlf)
    ++ (codes "MX: 2" ++ crlf)
    ++ (codes "ST: " ++ st ++ crlf)
    ++ crlf

-- Each searched target, asked of an address.
searches : Text → List (Text × Text)
unfolding msearch
searches ip = (ip, msearch media_renderer) ∷ (ip, msearch (codes "ssdp:all")) ∷ []

-- The datagrams that a multicast scan sends.
unfoldable pub multicast_searches : List (Text × Text)
unfolding searches
multicast_searches = searches ssdp_addr ++ (searches ssdp_addr ++ searches ssdp_addr)

unfoldable pub unicast_searches : List Text → List (Text × Text)
unfolding searches
unicast_searches [] = []
unicast_searches (ip ∷ ips) = searches ip ++ unicast_searches ips

pub data Sender : Type 0 where
  v4 : Ipv4 → Sender
  -- an IPv6 address, as it is written
  v6 : Text → Sender

unfoldable pub lan_sender : Sender → Bool
lan_sender (v4 ip) = lan_ipv4 ip
lan_sender (v6 ip) = false

unfoldable pub show_sender : Sender → Text
show_sender (v4 ip) = show_ipv4 ip
show_sender (v6 ip) = ip

-- What `recv_from` gives before the window closes: a datagram with its length in bytes, a timeout,
-- or another error.
pub data Received : Type 0 where
  datagram : ℕ → Text → Sender → Received
  quiet broken : Received

-- The locations that were taken, and how many of each host.
pub record Taken : Type 0 where
  pub locations : List Text
  pub per_host : List (Text × ℕ)

unfoldable pub count_of : Text → List (Text × ℕ) → ℕ
count_of host [] = 0
count_of host ((h, n) ∷ counts) = if eq_text h host then n else count_of host counts

unfoldable pub add_one : Text → List (Text × ℕ) → List (Text × ℕ)
add_one host [] = (host, 1) ∷ []
add_one host ((h, n) ∷ counts) =
    if eq_text h host then (h, n + 1) ∷ counts else (h, n) ∷ add_one host counts

ascii_lower : ℕ → ℕ
ascii_lower c = if leb 65 c && leb c 90 then c + 32 else c

-- `text.split("\r\n")`, with the part that is being read.
unfoldable pub split_crlf : Text → List Text
split_crlf [] = [] ∷ []
split_crlf (c ∷ []) = (c ∷ []) ∷ []
split_crlf (c ∷ d ∷ s) = elim (c == 13 && d == 10) [
  | true ↦ [] ∷ split_crlf s
  | false ↦ cons_first c (split_crlf (d ∷ s))
]

value_of : Option (Text × Text) → Option Text
value_of none = none
value_of (some (name, value)) = some (trim value)

-- The value of a `Location:` line.
location_value : Text → Option Text
unfolding ascii_lower value_of
location_value line = elim (strip_prefix (codes "location:") (map ascii_lower line)) [
  | none ↦ none
  | some _ ↦ value_of (split_once b':' line)
]

unfoldable pub names_host : Option Text → Text → Bool
names_host none sender = false
names_host (some host) sender = eq_text host sender

-- A device describes itself: a location of another host is dropped.
drops : Web → Text → Text → Taken → Bool
unfolding names_host host_of
drops web sender value taken =
    is_empty value
    || (not (names_host (host_of web value) sender) || mem_text value taken.locations)

unfoldable pub take_value : Web → Text → Text → Taken → Taken
unfolding drops
take_value web sender value taken =
    if drops web sender value taken
    then taken
    else (if ltb (count_of sender taken.per_host) max_locations_per_host
          && ltb (length taken.locations) max_locations
        then record {
          locations = value ∷ taken.locations;
          per_host = add_one sender taken.per_host;
        }
        else taken)

take_found : Web → Text → Option Text → Taken → Taken
unfolding take_value
take_found web sender none taken = taken
take_found web sender (some value) taken = take_value web sender value taken

unfoldable pub take_lines : Web → Text → List Text → Taken → Taken
unfolding take_found location_value
take_lines web sender [] taken = taken
take_lines web sender (line ∷ lines) taken =
    take_lines web sender lines (take_found web sender (location_value line) taken)

take_reply : Web → (Sender → Bool) → ℕ → Text → Sender → Taken → Taken
unfolding take_lines split_crlf show_sender
take_reply web accept bytes text from taken =
    if ltb max_ssdp_reply bytes || not (accept from)
    then taken
    else take_lines web (show_sender from) (split_crlf text) taken

unfoldable pub collect_from : Web → (Sender → Bool) → List Received → Taken → Taken
unfolding take_reply
collect_from web accept [] taken = taken
collect_from web accept (datagram bytes text from ∷ received) taken =
    collect_from web accept received (take_reply web accept bytes text from taken)
collect_from web accept (quiet ∷ received) taken = collect_from web accept received taken
collect_from web accept (broken ∷ received) taken = taken

unfoldable pub collect_locations : Web → List Received → List Text
unfolding collect_from lan_sender
collect_locations web received =
    (collect_from web lan_sender received (record { locations = []; per_host = [] })).locations

-- The scans, given what a socket receives, where there is one.
unfoldable pub ssdp_multicast : Web → Option (List Received) → List Text
unfolding collect_locations
ssdp_multicast web none = []
ssdp_multicast web (some received) = collect_locations web received

listed_host : List Text → Option Text → Bool
listed_host ips none = false
listed_host ips (some host) = mem_text host ips

of_candidates : Web → List Text → List Text → List Text
unfolding listed_host host_of
of_candidates web ips [] = []
of_candidates web ips (location ∷ locations) =
    let rest = of_candidates web ips locations in
    if listed_host ips (host_of web location) then location ∷ rest else rest

unfoldable pub ssdp_unicast : Web → List Text → Option (List Received) → List Text
unfolding collect_locations of_candidates
ssdp_unicast web [] received = []
ssdp_unicast web (ip ∷ ips) none = []
ssdp_unicast web (ip ∷ ips) (some received) =
    of_candidates web (ip ∷ ips) (collect_locations web received)
