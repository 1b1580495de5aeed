-- ===== src/Dlna.antt =====
-- src/dlna.rs: DLNA renderers. What the crates url, reqwest and quick_xml and the network give is a
-- `Web`; text from the network is what `String::from_utf8_lossy` makes of it.
pub mod Ssdp
pub mod Description
pub mod Scan
pub mod Soap
pub mod Clock
mod Tests
use unicast.Base.{
  ℕ, Bool, true, false, ◌&&◌, ◌||◌, Option, none, some, List, [], ◌∷◌, Text, codes, eq_text, split,
}

-- What is used of a parsed URL.
pub record Url : Type 0 where
  pub scheme : Text
  pub host_str : Option Text
  pub port : Option ℕ

-- The events of an XML reader: a text comes with its unescaped form, a reference with the character
-- that it names and the predefined entity that it is. The list ends where the reader stops.
pub data XmlEvent : Type 0 where
  start end cdata : Text → XmlEvent
  chunk : Text → Option Text → XmlEvent
  reference : Option Text → Option Text → XmlEvent
  skipped : XmlEvent

pub record Web : Type 0 where
  pub parse_url : Text → Option Url
  -- a reference resolved against a base
  pub join_url : Text → Text → Option Text
  pub http_get_text : Text → Option Text
  pub xml_events : Text → List XmlEvent
  pub resolve_ip : Text → Text
  pub port_open : Text → ℕ → Bool

same_text : Option Text → Text → Bool
same_text none t = false
same_text (some s) t = eq_text s t

url_ok : Option Url → Text → Bool
unfolding same_text
url_ok none host = false
url_ok (some url) host =
    (eq_text url.scheme (codes "http") || eq_text url.scheme (codes "https"))
    && same_text url.host_str host

-- A control URL is one of the host that it was learnt from.
unfoldable pub control_ok : Web → Text → Text → Bool
unfolding url_ok
control_ok web control host = url_ok (web.parse_url control) host

url_host : Option Url → Option Text
url_host none = none
url_host (some url) = url.host_str

unfoldable pub host_of : Web → Text → Option Text
unfolding url_host
host_of web url = url_host (web.parse_url url)

last_part : List Text → Text
last_part [] = []
last_part (p ∷ []) = p
last_part (p ∷ q ∷ parts) = last_part (q ∷ parts)

-- A name without its namespace.
unfoldable pub local_name : Text → Text
unfolding last_part split
local_name qname = last_part (split b':' qname)
