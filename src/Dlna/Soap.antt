-- ===== src/Dlna/Soap.antt =====
-- src/dlna.rs: the requests that control a renderer, and what is read of its answers; src/util.rs:
-- `xml_escape`.
pub mod Escaped
use unicast.Base.{
  ℕ, Bool, true, false, not, ◌&&◌, ◌||◌, Option, none, some, List, [], ◌∷◌, ◌++◌, Text, codes,
  eq_text, ◌==◌, if◌then◌else◌, strip_prefix, split_once_text, trim, parse_uint, parse_digits, min,
  print_nat, is_empty, mem_text,
}

-- `s.replace(c, t)` for a character.
unfoldable pub replace_char : ℕ → Text → Text → Text
replace_char c t [] = []
replace_char c t (a ∷ s) = (if a == c then t else a ∷ []) ++ replace_char c t s

unfoldable pub xml_escape : Text → Text
unfolding replace_char
xml_escape value = replace_char b'\'' (codes "&apos;") (
    replace_char b'"' (codes "&quot;") (
      replace_char b'>' (codes "&gt;")
        (replace_char b'<' (codes "&lt;") (replace_char b'&' (codes "&amp;") value))))

-- An element with its content.
unfoldable pub element : Text → Text → Text
element name content = (b'<' ∷ (name ++ codes ">")) ++ content ++ codes "</" ++ name ++ codes ">"

pub record SoapRequest : Type 0 where
  pub url : Text
  pub soap_action : Text
  pub body : Text

unfoldable pub soap_request : Text → Text → Text → Text → SoapRequest
soap_request url service action args = record {
  url = url;
  soap_action =
      codes "\"urn:schemas-upnp-org:service:" ++ service ++ codes ":1#" ++ action ++ codes "\"";
  body =
      codes "<?xml version=\"1.0\" encoding=\"utf-8\"?>"
      ++ codes "<s:Envelope xmlns:s=\"http://schemas.xmlsoap.org/soap/envelope/\" "
      ++ codes "s:encodingStyle=\"http://schemas.xmlsoap.org/soap/encoding/\"><s:Body>"
      ++ (codes "<u:" ++ action ++ codes " xmlns:u=\"urn:schemas-upnp-org:service:")
      ++ (service ++ codes ":1\"><InstanceID>0</InstanceID>")
      ++ (args ++ codes "</u:" ++ action ++ codes "></s:Body></s:Envelope>");
}

-- What the request of an action ends with: an error, or a status and the text, where it is not
-- larger than allowed.
pub data Reply : Type 0 where
  unsent : Reply
  replied : ℕ → Option Text → Reply

-- The status and the text that the callers see.
unfoldable pub soap_answer : Reply → ℕ × Text
soap_answer unsent = (0, [])
soap_answer (replied status none) = (status, [])
soap_answer (replied status (some text)) = (status, text)

unfoldable pub soap : Text → Text → Text → SoapRequest
unfolding soap_request
soap url action args = soap_request url (codes "AVTransport") action args

unfoldable pub first_tag : Text → Text → Option Text
first_tag xml tag = elim (split_once_text (b'<' ∷ (tag ++ codes ">")) xml) [
  | none ↦ none
  | some (before, rest) ↦ elim (split_once_text (codes "</" ++ tag ++ codes ">") rest) [
    | none ↦ none
    | some (content, after) ↦ some content
  ]
]

caption_namespace : Option Text → Text
caption_namespace none = []
caption_namespace (some caption) = codes " xmlns:sec=\"http://www.sec.co.kr/\""

caption_elements : Option Text → Text
unfolding xml_escape
caption_elements none = []
caption_elements (some caption) =
    let url = xml_escape caption in
    codes "<res protocolInfo=\"http-get:*:smi/caption:*\">"
    ++ url
    ++ codes "</res>"
    ++ (codes "<res protocolInfo=\"http-get:*:text/srt:*\">" ++ url ++ codes "</res>")
    ++ (codes "<sec:CaptionInfoEx sec:type=\"srt\">" ++ url ++ codes "</sec:CaptionInfoEx>")
    ++ (codes "<sec:CaptionInfo sec:type=\"srt\">" ++ url ++ codes "</sec:CaptionInfo>")

upnp_class : Text → Text
upnp_class mime = elim (strip_prefix (codes "audio") mime) [
  | none ↦ codes "object.item.videoItem"
  | some _ ↦ codes "object.item.audioItem.musicTrack"
]

unfoldable pub didl : Text → Text → Text → Option Text → Text
unfolding xml_escape caption_namespace caption_elements upnp_class
didl url title mime caption =
    codes "<DIDL-Lite xmlns=\"urn:schemas-upnp-org:metadata-1-0/DIDL-Lite/\" "
    ++ codes "xmlns:dc=\"http://purl.org/dc/elements/1.1/\" "
    ++ codes "xmlns:upnp=\"urn:schemas-upnp-org:metadata-1-0/upnp/\""
    ++ (caption_namespace caption ++ codes "><item id=\"0\" parentID=\"-1\" restricted=\"1\">")
    ++ (codes "<dc:title>" ++ xml_escape title ++ codes "</dc:title><upnp:class>")
    ++ (upnp_class mime ++ codes "</upnp:class><res protocolInfo=\"http-get:*:" ++ mime)
    ++ codes ":DLNA.ORG_OP=01;DLNA.ORG_CI=0;DLNA.ORG_FLAGS=01700000000000000000000000000000\">"
    ++ (xml_escape url ++ codes "</res>" ++ caption_elements caption)
    ++ codes "</item></DIDL-Lite>"

set_uri_args : Text → Text → Text → Option Text → Text
unfolding element xml_escape didl
set_uri_args url title mime caption =
    element (codes "CurrentURI") (xml_escape url)
    ++ element (codes "CurrentURIMetaData") (xml_escape (didl url title mime caption))

set_uri : Text → Text → Text → Text → Option Text → SoapRequest
unfolding soap set_uri_args
set_uri control url title mime caption =
    soap control (codes "SetAVTransportURI") (set_uri_args url title mime caption)

unfoldable pub play_request : Text → SoapRequest
unfolding soap
play_request control = soap control (codes "Play") (codes "<Speed>1</Speed>")

or_empty : Option Text → Text
or_empty none = []
or_empty (some t) = t

-- The error of a refused stream.
refusal : ℕ × Text → Text
unfolding first_tag or_empty
refusal (code, body) =
    codes "SetAVTransportURI "
    ++ print_nat code
    ++ codes ": "
    ++ or_empty (first_tag body (codes "errorDescription"))

-- `play`, given the answers to the first and the second attempt: what is sent, and the error.
unfoldable pub play :
    Text → Text → Text → Text → Option Text → Reply → Reply → List SoapRequest × Option Text
unfolding set_uri play_request refusal soap_answer
play control url title mime caption first second =
    let load = set_uri control url title mime caption in
    if (soap_answer first).0 == 200
    then (load ∷ play_request control ∷ [], none)
    else (if (soap_answer second).0 == 200
        then (load ∷ load ∷ play_request control ∷ [], none)
        else (load ∷ load ∷ [], some (refusal (soap_answer second))))

-- What a receiver reports of itself.
unfoldable pub transport_state : Reply → Text
unfolding first_tag soap_answer
transport_state reply = elim (first_tag (soap_answer reply).1 (codes "CurrentTransportState")) [
  | none ↦ codes "UNKNOWN"
  | some state ↦ state
]

-- A signed level, kept between 0 and 100.
clamped_level : Text → Option ℕ
clamped_level [] = none
clamped_level (c ∷ s) =
    if c == b'-'
    then (elim (parse_digits 2147483648 s) [ none ↦ none | some n ↦ some 0 ])
    else (elim (parse_uint 2147483647 (c ∷ s)) [ none ↦ none | some n ↦ some (min n 100) ])

level_of : Option Text → Option ℕ
unfolding clamped_level
level_of none = none
level_of (some value) = clamped_level (trim value)

unfoldable pub get_volume : Reply → Option ℕ
unfolding level_of first_tag soap_answer
get_volume reply =
    let (code, body) = soap_answer reply in
    if code == 200 then level_of (first_tag body (codes "CurrentVolume")) else none

mute_of : Option Text → Option Bool
mute_of none = none
mute_of (some value) =
    some (mem_text (trim value) (codes "1" ∷ codes "true" ∷ codes "True" ∷ codes "TRUE" ∷ []))

unfoldable pub get_mute : Reply → Option Bool
unfolding mute_of first_tag soap_answer
get_mute reply =
    let (code, body) = soap_answer reply in
    if code == 200 then mute_of (first_tag body (codes "CurrentMute")) else none

abbrev master_channel : Text
master_channel = codes "<Channel>Master</Channel>"

rendering_request : Text → Text → Text → SoapRequest
unfolding soap_request
rendering_request url action args = soap_request url (codes "RenderingControl") action args

unfoldable pub set_volume_request : Text → ℕ → SoapRequest
unfolding rendering_request element
set_volume_request url level =
    rendering_request url (codes "SetVolume")
      (master_channel ++ element (codes "DesiredVolume") (print_nat (min level 100)))

unfoldable pub set_mute_request : Text → Bool → SoapRequest
unfolding rendering_request element
set_mute_request url muted =
    rendering_request url (codes "SetMute")
      (master_channel ++ element (codes "DesiredMute") (if muted then codes "1" else codes "0"))

unfoldable pub accepted : Reply → Bool
unfolding soap_answer
accepted reply = (soap_answer reply).0 == 200
