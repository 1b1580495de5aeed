-- ===== src/Subtitles/Discover.antt =====
-- src/subtitles.rs: the tracks that are found for a media file. A directory is what it lists; what
-- ffprobe prints of a stream has been parsed by the crate serde_json.
pub mod Numbered
mod Tests
use unicast.Base.{
  ℕ, suc, ◌+◌, Bool, true, false, not, ◌&&◌, ◌||◌, Option, none, some, List, [], ◌∷◌, ◌++◌, Text,
  codes, eq_text, mem_text, is_empty, leb, lt_text, if◌then◌else◌, Platform, take, trim,
  strip_prefix, ◌==◌, print_nat, u32_max,
}
use unicast.Paths.{extension, file_stem, join_path}
use unicast.Subtitles.{SubtitleTrack, SubtitleSource, sidecar, embedded}
use unicast.Subtitles.Language.{
  Language, language_lookup, describe_sidecar, prettify, name_or, code_of,
}

abbrev sidecar_extensions : List Text
sidecar_extensions = codes "srt" ∷ codes "vtt" ∷ codes "ass" ∷ codes "ssa" ∷ []

abbrev text_codecs : List Text
text_codecs =
    codes "subrip"
    ∷ codes "srt"
    ∷ codes "ass"
    ∷ codes "ssa"
    ∷ codes "webvtt"
    ∷ codes "mov_text"
    ∷ codes "text"
    ∷ []

abbrev subtitle_dirs : List Text
subtitle_dirs = codes "Subs" ∷ codes "subs" ∷ codes "Subtitles" ∷ codes "subtitles" ∷ []

abbrev max_sidecar_bytes : ℕ
max_sidecar_bytes = 8388608

abbrev pub max_tracks : ℕ
max_tracks = 32

-- An entry of a directory: its name, whether it is a regular file, and its length.
pub record FileEntry : Type 0 where
  pub name : Text
  pub regular : Bool
  pub bytes : ℕ

-- A subtitle stream that ffprobe names.
pub record StreamTags : Type 0 where
  pub codec_name : Text
  pub index : Option ℕ
  pub language : Text
  pub title : Text

-- What lies around a media file: its directory, where it has one, and what directories list.
pub record Surroundings : Type 0 where
  pub parent : Option Text
  pub list_dir : Text → Option (List FileEntry)
  pub streams : List StreamTags

-- A track that was found: its source, label and language.
pub record Candidate : Type 0 where
  pub source : SubtitleSource
  pub label : Text
  pub language : Text

-- The entries in the order of their names.
insert_entry : FileEntry → List FileEntry → List FileEntry
unfolding lt_text
insert_entry f [] = f ∷ []
insert_entry f (g ∷ files) =
    if lt_text g.name f.name then g ∷ insert_entry f files else f ∷ g ∷ files

sort_entries : List FileEntry → List FileEntry
unfolding insert_entry
sort_entries [] = []
sort_entries (f ∷ files) = insert_entry f (sort_entries files)

is_separator : ℕ → Bool
is_separator c = c == b'.' || (c == b'_' || (c == b'-' || c == b' '))

trim_separators : Text → Text
unfolding is_separator
trim_separators [] = []
trim_separators (c ∷ s) = if is_separator c then trim_separators s else c ∷ s

ascii_lower : ℕ → ℕ
ascii_lower c = if leb 65 c && leb c 90 then c + 32 else c

eq_ignore_case : Text → Text → Bool
unfolding ascii_lower
eq_ignore_case [] [] = true
eq_ignore_case (a ∷ s) (b ∷ t) = (ascii_lower a == ascii_lower b) && eq_ignore_case s t
eq_ignore_case _ _ = false

track_of : ℕ → Candidate → SubtitleTrack
track_of id c = record { id = id; label = c.label; language = c.language; source = c.source }

-- Ids are given in the order of the tracks.
unfoldable pub number_from : ℕ → List Candidate → List SubtitleTrack
unfolding track_of
number_from id [] = []
number_from id (c ∷ candidates) = track_of id c ∷ number_from (id + 1) candidates

module _ (platform : Platform) where
  open platform use {to_lowercase}

  is_subtitle_file : FileEntry → Bool
  unfolding extension
  is_subtitle_file f =
      (f.regular && leb f.bytes max_sidecar_bytes)
      && mem_text (extension platform f.name) sidecar_extensions

  subtitle_files : List FileEntry → List FileEntry
  unfolding is_subtitle_file
  subtitle_files [] = []
  subtitle_files (f ∷ files) =
      let rest = subtitle_files files in if is_subtitle_file f then f ∷ rest else rest

  listed : Option (List FileEntry) → List FileEntry
  unfolding subtitle_files sort_entries
  listed none = []
  listed (some files) = sort_entries (subtitle_files files)

  -- A sidecar, by what its name says beyond that of the media file.
  described : Text → Text → Text → Text → Candidate
  unfolding describe_sidecar join_path
  described dir name descriptor fallback =
      let (code, label) = describe_sidecar platform descriptor fallback in
      record { source = sidecar (join_path dir name); label = label; language = code }

  beside : Text → Text → List FileEntry → List Candidate
  unfolding described trim_separators file_stem
  beside dir stem [] = []
  beside dir stem (f ∷ files) =
      let rest = beside dir stem files in
      if is_empty stem then rest else elim (strip_prefix stem (to_lowercase (file_stem f.name))) [
        | none ↦ rest
        | some more ↦ described dir f.name (trim_separators more) (codes "Subtitles") ∷ rest
      ]

  inside : Text → List FileEntry → List Candidate
  unfolding described prettify file_stem
  inside dir [] = []
  inside dir (f ∷ files) =
      described dir f.name (file_stem f.name) (prettify platform (file_stem f.name))
      ∷ inside dir files

  in_folders : Surroundings → Text → List Text → List Candidate
  unfolding inside listed join_path
  in_folders around dir [] = []
  in_folders around dir (folder ∷ folders) =
      inside (join_path dir folder) (listed (around.list_dir (join_path dir folder)))
      ++ in_folders around dir folders

  sidecars_of : Surroundings → Text → Option Text → List Candidate
  unfolding beside in_folders listed file_stem
  sidecars_of around media none = []
  sidecars_of around media (some dir) =
      beside dir (to_lowercase (file_stem media)) (listed (around.list_dir dir))
      ++ in_folders around dir subtitle_dirs

  stream_label : Text → Text → Text
  unfolding eq_ignore_case
  stream_label title base =
      if is_empty title || eq_ignore_case title base
      then base
      else base ++ codes " (" ++ title ++ codes ")"

  stream_candidate : StreamTags → ℕ → Candidate
  unfolding stream_label language_lookup name_or code_of
  stream_candidate stream index =
      let found = language_lookup platform (trim stream.language) in
      record {
        source = embedded index;
        label =
            stream_label (trim stream.title) (name_or (codes "Track " ++ print_nat index) found);
        language = code_of found;
      }

  -- A text stream whose index fits in 32 bits.
  text_stream : StreamTags → Option ℕ → List Candidate
  unfolding stream_candidate
  text_stream stream none = []
  text_stream stream (some index) =
      if mem_text (to_lowercase (trim stream.codec_name)) text_codecs && leb index u32_max
      then stream_candidate stream index ∷ []
      else []

  embedded_of : List StreamTags → List Candidate
  unfolding text_stream
  embedded_of [] = []
  embedded_of (stream ∷ streams) = text_stream stream stream.index ++ embedded_of streams

  unfoldable pub candidates : Surroundings → Text → List Candidate
  unfolding sidecars_of embedded_of
  candidates around media = sidecars_of around media around.parent ++ embedded_of around.streams

  unfoldable pub discover : Surroundings → Text → List SubtitleTrack
  unfolding candidates number_from
  discover around media = number_from 1 (take max_tracks (candidates around media))
