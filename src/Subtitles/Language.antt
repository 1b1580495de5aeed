-- ===== src/Subtitles/Language.antt =====
-- src/subtitles.rs: the languages, and what a file name says of a subtitle track.
use unicast.Base.{
  ℕ, Bool, true, ◌&&◌, Option, none, some, List, [], ◌∷◌, ◌++◌, String, Text, codes, eq_text,
  mem_text, is_empty, join, leb, if◌then◌else◌, Platform, map,
}

pub record Language : Type 0 where
  pub aliases : List Text
  pub code : Text
  pub name : Text

language : List Text → String → String → Language
language aliases code name = record { aliases = aliases; code = codes code; name = codes name }

unfoldable pub languages : List Language
unfolding language
languages =
    language (codes "en" ∷ codes "eng" ∷ codes "english" ∷ []) "en" "English"
    ∷ language (codes "es" ∷ codes "spa" ∷ codes "spanish" ∷ codes "espanol" ∷ codes "español" ∷ [])
        "es" "Spanish"
    ∷ language
        (codes "fr"
          ∷ codes "fre"
          ∷ codes "fra"
          ∷ codes "french"
          ∷ codes "francais"
          ∷ codes "français"
          ∷ [])
        "fr" "French"
    ∷ language (codes "de" ∷ codes "ger" ∷ codes "deu" ∷ codes "german" ∷ codes "deutsch" ∷ []) "de"
        "German"
    ∷ language (codes "it" ∷ codes "ita" ∷ codes "italian" ∷ codes "italiano" ∷ []) "it" "Italian"
    ∷ language
        (codes "pt" ∷ codes "por" ∷ codes "portuguese" ∷ codes "portugues" ∷ codes "português" ∷ [])
        "pt" "Portuguese"
    ∷ language (codes "nl" ∷ codes "dut" ∷ codes "nld" ∷ codes "dutch" ∷ codes "nederlands" ∷ [])
        "nl" "Dutch"
    ∷ language (codes "ru" ∷ codes "rus" ∷ codes "russian" ∷ []) "ru" "Russian"
    ∷ language (codes "ja" ∷ codes "jpn" ∷ codes "japanese" ∷ []) "ja" "Japanese"
    ∷ language (codes "ko" ∷ codes "kor" ∷ codes "korean" ∷ []) "ko" "Korean"
    ∷ language (codes "zh" ∷ codes "chi" ∷ codes "zho" ∷ codes "chinese" ∷ []) "zh" "Chinese"
    ∷ language (codes "ar" ∷ codes "ara" ∷ codes "arabic" ∷ []) "ar" "Arabic"
    ∷ language (codes "hi" ∷ codes "hin" ∷ codes "hindi" ∷ []) "hi" "Hindi"
    ∷ language (codes "tr" ∷ codes "tur" ∷ codes "turkish" ∷ []) "tr" "Turkish"
    ∷ language (codes "pl" ∷ codes "pol" ∷ codes "polish" ∷ []) "pl" "Polish"
    ∷ language (codes "sv" ∷ codes "swe" ∷ codes "swedish" ∷ []) "sv" "Swedish"
    ∷ language (codes "da" ∷ codes "dan" ∷ codes "danish" ∷ []) "da" "Danish"
    ∷ language (codes "no" ∷ codes "nor" ∷ codes "nob" ∷ codes "norwegian" ∷ []) "no" "Norwegian"
    ∷ language (codes "fi" ∷ codes "fin" ∷ codes "finnish" ∷ []) "fi" "Finnish"
    ∷ language (codes "cs" ∷ codes "cze" ∷ codes "ces" ∷ codes "czech" ∷ []) "cs" "Czech"
    ∷ language (codes "el" ∷ codes "gre" ∷ codes "ell" ∷ codes "greek" ∷ []) "el" "Greek"
    ∷ language (codes "he" ∷ codes "heb" ∷ codes "hebrew" ∷ []) "he" "Hebrew"
    ∷ language (codes "hu" ∷ codes "hun" ∷ codes "hungarian" ∷ []) "hu" "Hungarian"
    ∷ language (codes "ro" ∷ codes "rum" ∷ codes "ron" ∷ codes "romanian" ∷ []) "ro" "Romanian"
    ∷ language (codes "uk" ∷ codes "ukr" ∷ codes "ukrainian" ∷ []) "uk" "Ukrainian"
    ∷ language (codes "bg" ∷ codes "bul" ∷ codes "bulgarian" ∷ []) "bg" "Bulgarian"
    ∷ language (codes "hr" ∷ codes "hrv" ∷ codes "croatian" ∷ []) "hr" "Croatian"
    ∷ language (codes "sr" ∷ codes "srp" ∷ codes "serbian" ∷ []) "sr" "Serbian"
    ∷ language (codes "sk" ∷ codes "slo" ∷ codes "slk" ∷ codes "slovak" ∷ []) "sk" "Slovak"
    ∷ language (codes "sl" ∷ codes "slv" ∷ codes "slovenian" ∷ []) "sl" "Slovenian"
    ∷ language (codes "th" ∷ codes "tha" ∷ codes "thai" ∷ []) "th" "Thai"
    ∷ language (codes "vi" ∷ codes "vie" ∷ codes "vietnamese" ∷ []) "vi" "Vietnamese"
    ∷ language (codes "id" ∷ codes "ind" ∷ codes "indonesian" ∷ []) "id" "Indonesian"
    ∷ language (codes "ms" ∷ codes "may" ∷ codes "msa" ∷ codes "malay" ∷ []) "ms" "Malay"
    ∷ language (codes "ta" ∷ codes "tam" ∷ codes "tamil" ∷ []) "ta" "Tamil"
    ∷ language (codes "te" ∷ codes "tel" ∷ codes "telugu" ∷ []) "te" "Telugu"
    ∷ language (codes "et" ∷ codes "est" ∷ codes "estonian" ∷ []) "et" "Estonian"
    ∷ language (codes "lv" ∷ codes "lav" ∷ codes "latvian" ∷ []) "lv" "Latvian"
    ∷ language (codes "lt" ∷ codes "lit" ∷ codes "lithuanian" ∷ []) "lt" "Lithuanian"
    ∷ language (codes "ca" ∷ codes "cat" ∷ codes "catalan" ∷ []) "ca" "Catalan"
    ∷ language (codes "fa" ∷ codes "per" ∷ codes "fas" ∷ codes "persian" ∷ codes "farsi" ∷ []) "fa"
        "Persian"
    ∷ []

-- The language with the token among its aliases.
find_alias : Text → List Language → Option Language
find_alias token [] = none
find_alias token (l ∷ languages) =
    if mem_text token l.aliases then some l else find_alias token languages

unfoldable pub name_or : Text → Option Language → Text
name_or fallback none = fallback
name_or fallback (some l) = l.name

unfoldable pub code_of : Option Language → Text
code_of none = []
code_of (some l) = l.code

-- A flag of a track, where the part of the name is one.
flag_of : Text → List Text
flag_of part =
    if eq_text part (codes "forced")
    then codes "forced" ∷ []
    else (if mem_text part (codes "sdh" ∷ codes "hi" ∷ codes "cc" ∷ [])
        then codes "SDH" ∷ []
        else [])

flags_of : List Text → List Text
unfolding flag_of
flags_of [] = []
flags_of (part ∷ parts) = flag_of part ++ flags_of parts

-- `Vec::dedup`: of equal neighbours one is kept.
unfoldable pub dedup : List Text → List Text
dedup [] = []
dedup (t ∷ []) = t ∷ []
dedup (t ∷ u ∷ ts) = let rest = dedup (u ∷ ts) in if eq_text t u then rest else t ∷ rest

with_flags : Text → List Text → Text
with_flags base [] = base
with_flags base (flag ∷ flags) = base ++ codes " (" ++ join (codes ", ") (flag ∷ flags) ++ codes ")"

-- The words of a text, with the word that is being read.
words_by : (ℕ → Bool) → Text → Text → List Text
words_by part [] word = if is_empty word then [] else word ∷ []
words_by part (c ∷ s) word =
    let rest = words_by part s [] in
    let longer = words_by part s (word ++ c ∷ []) in
    if part c then longer else (if is_empty word then rest else word ∷ rest)

all_digits : Text → Bool
all_digits [] = true
all_digits (c ∷ s) = (leb 48 c && leb c 57) && all_digits s

module _ (platform : Platform) where
  open platform use {is_alphanumeric, to_lowercase, to_uppercase}

  unfoldable pub language_lookup : Text → Option Language
  unfolding find_alias languages
  language_lookup token = find_alias (to_lowercase token) languages

  unfoldable pub tokens : Text → List Text
  unfolding words_by
  tokens text = map to_lowercase (words_by is_alphanumeric text [])

  first_language : List Text → Option Language
  unfolding language_lookup
  first_language [] = none
  first_language (part ∷ parts) = elim (language_lookup part) [
    | none ↦ first_language parts
    | some l ↦ some l
  ]

  -- The language code and the label.
  unfoldable pub describe_sidecar : Text → Text → Text × Text
  unfolding tokens first_language flags_of dedup with_flags name_or code_of
  describe_sidecar descriptor fallback =
      let parts = tokens descriptor in
      let found = first_language parts in
      (code_of found, with_flags (name_or fallback found) (dedup (flags_of parts)))

  capitalised : Text → Text
  capitalised [] = []
  capitalised (c ∷ s) = to_uppercase c ++ s

  pretty_words : List Text → List Text
  unfolding all_digits capitalised
  pretty_words [] = []
  pretty_words (word ∷ words) =
      let rest = pretty_words words in if all_digits word then rest else capitalised word ∷ rest

  or_subtitles : List Text → Text
  or_subtitles [] = codes "Subtitles"
  or_subtitles (word ∷ words) = join (codes " ") (word ∷ words)

  unfoldable pub prettify : Text → Text
  unfolding tokens pretty_words or_subtitles
  prettify stem = or_subtitles (pretty_words (tokens stem))
