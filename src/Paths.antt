-- ===== src/Paths.antt =====
-- src/util.rs: file names, content types and escaping. A path is its text; `Path` of the standard
-- library reads it as components between slashes.
use unicast.Base.{
  ℕ, Bool, true, false, Option, none, some, List, [], ◌∷◌, ◌++◌, reverse, Text, codes, ◌==◌, ◌||◌,
  if◌then◌else◌, eq_text, is_empty, split, strip_prefix, Platform,
}

-- `s.split(c)` from the right: the text before and after the last `c`.
unfoldable pub split_last : ℕ → Text → Option (Text × Text)
split_last c [] = none
split_last c (a ∷ s) = elim (split_last c s) [
  | some (before, after) ↦ some (a ∷ before, after)
  | none ↦ if a == c then some ([], s) else none
]

-- The last component that is not empty or ".".
last_component : List Text → Option Text
last_component [] = none
last_component (part ∷ parts) = elim (last_component parts) [
  | some found ↦ some found
  | none ↦ if is_empty part || eq_text part (codes ".") then none else some part
]

unfoldable pub file_name : Text → Option Text
unfolding last_component split is_empty eq_text
file_name path = elim (last_component (split b'/' path)) [
  | none ↦ none
  | some name ↦ if eq_text name (codes "..") then none else some name
]

unfoldable pub file_basename : Text → Text
unfolding file_name
file_basename path = elim (file_name path) [ none ↦ [] | some name ↦ name ]

-- The stem and the extension of a name; a leading dot begins no extension.
stem_extension : Text → Text × Option Text
stem_extension name = elim (split_last b'.' name) [
  | none ↦ (name, none)
  | some (before, after) ↦ if is_empty before then (name, none) else (before, some after)
]

unfoldable pub file_stem : Text → Text
unfolding file_name stem_extension split_last
file_stem path = elim (file_name path) [ none ↦ [] | some name ↦ (stem_extension name).0 ]

raw_extension : Text → Option Text
raw_extension path = elim (file_name path) [ none ↦ none | some name ↦ (stem_extension name).1 ]

unfoldable pub lookup_type : Text → List (Text × Text) → Option Text
unfolding eq_text
lookup_type ext [] = none
lookup_type ext ((name, mime) ∷ types) =
    if eq_text name ext then some mime else lookup_type ext types

unfoldable pub dlna_types : List (Text × Text)
dlna_types =
    (codes "mkv", codes "video/x-matroska")
    ∷ (codes "mp4", codes "video/mp4")
    ∷ (codes "m4v", codes "video/mp4")
    ∷ (codes "avi", codes "video/x-msvideo")
    ∷ (codes "mov", codes "video/quicktime")
    ∷ (codes "webm", codes "video/webm")
    ∷ (codes "ts", codes "video/mp2t")
    ∷ (codes "m2ts", codes "video/mp2t")
    ∷ (codes "mpg", codes "video/mpeg")
    ∷ (codes "mp3", codes "audio/mpeg")
    ∷ (codes "flac", codes "audio/flac")
    ∷ (codes "m4a", codes "audio/mp4")
    ∷ (codes "aac", codes "audio/aac")
    ∷ (codes "wav", codes "audio/wav")
    ∷ []

unfoldable pub media_types : List (Text × Text)
media_types =
    (codes "mkv", codes "video/x-matroska")
    ∷ (codes "mp4", codes "video/mp4")
    ∷ (codes "m4v", codes "video/mp4")
    ∷ (codes "avi", codes "video/x-msvideo")
    ∷ (codes "mov", codes "video/quicktime")
    ∷ (codes "webm", codes "video/webm")
    ∷ (codes "ts", codes "video/mp2t")
    ∷ (codes "m2ts", codes "video/mp2t")
    ∷ (codes "mpg", codes "video/mpeg")
    ∷ (codes "mpeg", codes "video/mpeg")
    ∷ (codes "wmv", codes "video/x-ms-wmv")
    ∷ (codes "flv", codes "video/x-flv")
    ∷ (codes "mp3", codes "audio/mpeg")
    ∷ (codes "flac", codes "audio/flac")
    ∷ (codes "m4a", codes "audio/mp4")
    ∷ (codes "aac", codes "audio/aac")
    ∷ (codes "ogg", codes "audio/ogg")
    ∷ (codes "wav", codes "audio/wav")
    ∷ (codes "opus", codes "audio/opus")
    ∷ []

module _ (platform : Platform) where
  open platform use {to_lowercase}

  unfoldable pub extension : Text → Text
  unfolding raw_extension stem_extension file_name split_last
  extension path = elim (raw_extension path) [ none ↦ [] | some ext ↦ to_lowercase ext ]

  unfoldable pub mime_for_dlna : Text → Text
  unfolding extension lookup_type dlna_types
  mime_for_dlna path = elim (lookup_type (extension path) dlna_types) [
    | none ↦ codes "video/mp4"
    | some mime ↦ mime
  ]

  unfoldable pub is_media_extension : Text → Bool
  unfolding extension lookup_type media_types
  is_media_extension path = elim (lookup_type (extension path) media_types) [
    | none ↦ false
    | some mime ↦ true
  ]

  unfoldable pub content_type_for_serve : Text → Bool → Text
  unfolding extension lookup_type media_types
  content_type_for_serve path true = codes "video/mp4"
  content_type_for_serve path false = elim (lookup_type (extension path) media_types) [
    | none ↦ codes "application/octet-stream"
    | some mime ↦ mime
  ]

-- `path.is_absolute()`.
unfoldable pub is_absolute : Text → Bool
is_absolute [] = false
is_absolute (c ∷ path) = c == b'/'

ends_with_slash : Text → Bool
unfolding is_absolute
ends_with_slash path = is_absolute (reverse path)

-- `base.join(path)`.
unfoldable pub join_path : Text → Text → Text
unfolding ends_with_slash
join_path base path =
    if is_absolute path
    then path
    else (if ends_with_slash base || is_empty base then base ++ path else base ++ b'/' ∷ path)

-- The home directory is given.
unfoldable pub expand_tilde : Text → Text → Text
unfolding join_path strip_prefix
expand_tilde home path = elim (strip_prefix (codes "~/") path) [
  | none ↦ path
  | some rest ↦ join_path home rest
]
