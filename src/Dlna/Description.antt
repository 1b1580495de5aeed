-- ===== src/Dlna/Description.antt =====
-- src/dlna.rs: `parse_description`: what is taken of a renderer's description.
use unicast.Base.{
  Bool, true, false, not, ◌&&◌, Option, none, some, List, [], ◌∷◌, ◌++◌, Text, codes, eq_text,
  is_empty, contains_text, trim, if◌then◌else◌,
}
use unicast.Dlna.{Web, XmlEvent, start, end, cdata, chunk, reference, skipped, local_name}

pub record Description : Type 0 where
  pub friendly : Option Text
  pub model : Option Text
  pub control : Option Text
  pub rendering : Option Text

-- The variables of the loop.
pub record Parse : Type 0 where
  pub url_base : Option Text
  pub friendly : Option Text
  pub model : Option Text
  pub control : Option Text
  pub rendering : Option Text
  pub in_service : Bool
  pub service_type : Text
  pub service_control : Text
  pub current : Text
  pub text : Text

begun : Parse
begun = record {
  url_base = none;
  friendly = none;
  model = none;
  control = none;
  rendering = none;
  in_service = false;
  service_type = [];
  service_control = [];
  current = [];
  text = [];
}

or_some : Option Text → Text → Option Text
or_some none t = some t
or_some (some s) t = some s

or_text : Option Text → Text → Text
or_text none t = t
or_text (some s) t = s

add_text : Text → Parse → Parse
add_text t p = record p { text = p.text ++ t }

open_element : Text → Parse → Parse
open_element name p =
    if eq_text name (codes "service")
    then record p {
      in_service = true;
      service_type = [];
      service_control = [];
      current = name;
      text = [];
    }
    else record p { current = name; text = [] }

resolved : Option Text → Option Text → Text
resolved (some character) entity = character
resolved none none = []
resolved none (some entity) = entity

-- The value of an element that is closed.
set_value : Text → Text → Parse → Parse
unfolding or_some
set_value name value p =
    if eq_text name (codes "URLBase")
    then record p { url_base = some value }
    else (if eq_text name (codes "friendlyName") && not p.in_service
        then record p { friendly = or_some p.friendly value }
        else (if eq_text name (codes "modelName") && not p.in_service
            then record p { model = or_some p.model value }
            else (if eq_text name (codes "serviceType") && p.in_service
                then record p { service_type = value }
                else (if eq_text name (codes "controlURL") && p.in_service
                    then record p { service_control = value }
                    else p))))

-- The control URL of a service, where it is the first one of its kind.
service_url : Text → Parse → Option Text → Option Text
unfolding or_some
service_url kind p old =
    if contains_text kind p.service_type && not (is_empty p.service_control)
    then or_some old p.service_control
    else old

close_service : Parse → Parse
unfolding service_url
close_service p = record p {
  control = service_url (codes "AVTransport") p p.control;
  rendering = service_url (codes "RenderingControl") p p.rendering;
  in_service = false;
}

clear_element : Parse → Parse
clear_element p = record p { current = []; text = [] }

close_element : Text → Parse → Parse
unfolding set_value close_service clear_element
close_element name p =
    let value = trim p.text in
    let valued =
      if eq_text name p.current && not (is_empty value) then set_value name value p else p in
    clear_element (if eq_text name (codes "service") then close_service valued else valued)

read_event : XmlEvent → Parse → Parse
unfolding local_name open_element add_text resolved close_element or_text
read_event (start name) p = open_element (local_name name) p
read_event (chunk raw unescaped) p = add_text (or_text unescaped raw) p
read_event (cdata t) p = add_text t p
read_event (reference character entity) p = add_text (resolved character entity) p
read_event (end name) p = close_element (local_name name) p
read_event skipped p = p

read_events : List XmlEvent → Parse → Parse
unfolding read_event
read_events [] p = p
read_events (event ∷ events) p = read_events events (read_event event p)

resolve : Web → Text → Option Text → Option Text
resolve web base none = none
resolve web base (some raw) = web.join_url base (trim raw)

describe : Web → Text → Parse → Description
unfolding resolve or_text
describe web location p = record {
  friendly = p.friendly;
  model = p.model;
  control = resolve web (or_text p.url_base location) p.control;
  rendering = resolve web (or_text p.url_base location) p.rendering;
}

unfoldable pub parse_description : Web → Text → Text → Description
unfolding describe read_events begun
parse_description web xml location = describe web location (read_events (web.xml_events xml) begun)
