-- ===== src/Dlna/Scan/Leads.antt =====
-- src/dlna.rs: what the guard on control URLs lets through.
use unicast.Base.{
  true, Option, none, some, Text, codes, eq_text, eq_text_iff, ◌≡◌, refl, ap, ◌⊎◌, inl, inr, arith,
  Bool-cases,
}
use unicast.Dlna.{Web, Url, control_ok, url_ok, same_text}

-- The text is a URL of the web at the host.
pub record Leads (web : Web) (text host : Text) : Type 0 where
  pub url : Url
  pub parses : web.parse_url text ≡ some url
  pub of_web : (url.scheme ≡ codes "http") ⊎ (url.scheme ≡ codes "https")
  pub own_host : url.host_str ≡ some host

same_text-some : (o : Option Text) (t : Text) → same_text o t ≡ true → o ≡ some t
unfolding same_text
same_text-some none t h = absurd (ground arith)
same_text-some (some s) t h = ap some ((eq_text_iff s t).0 h)

url_ok-Leads :
    (web : Web) (text host : Text) (o : Option Url)
    → web.parse_url text ≡ o
    → url_ok o host ≡ true
    → Leads web text host
unfolding url_ok
url_ok-Leads web text host none e h = absurd (ground arith)
url_ok-Leads web text host (some url) e h = record {
  url = url;
  parses = e;
  of_web = elim (Bool-cases (eq_text url.scheme (codes "http"))) [
    | inl k ↦ inl ((eq_text_iff url.scheme (codes "http")).0 k)
    | inr k ↦ inr ((eq_text_iff url.scheme (codes "https")).0 (ground arith))
  ];
  own_host = same_text-some url.host_str host (ground arith);
}

pub control_ok-Leads :
    (web : Web) (text host : Text) → control_ok web text host ≡ true → Leads web text host
unfolding control_ok
control_ok-Leads web text host h = url_ok-Leads web text host (web.parse_url text) refl h
