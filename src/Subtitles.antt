-- ===== src/Subtitles.antt =====
-- src/subtitles.rs: tracks, and the lines of a WebVTT document that carry the times of a cue.
pub mod Shift
pub mod Srt
pub mod Language
pub mod Discover
mod Tests
use unicast.Base.{
  ℕ, ◌-◌, ◌*◌, ◌/◌, ◌%◌, Bool, true, false, Option, none, some, List, [], ◌∷◌, ◌++◌, Text, codes,
  if◌then◌else◌, is_whitespace, split, split_once_text, trim, trim_start, trim_end, print_nat,
  cons_head, length, replicate, Platform,
}

pub data SubtitleSource : Type 0 where
  sidecar : Text → SubtitleSource
  embedded : ℕ → SubtitleSource

pub record SubtitleTrack : Type 0 where
  pub id : ℕ
  pub label : Text
  pub language : Text
  pub source : SubtitleSource

-- `s.split_once(char::is_whitespace)`.
unfoldable pub split_once_whitespace : Text → Option (Text × Text)
split_once_whitespace [] = none
split_once_whitespace (c ∷ s) =
    if is_whitespace c then some ([], s) else cons_head c (split_once_whitespace s)

-- `{n:0w}`.
unfoldable pub pad : ℕ → ℕ → Text
pad w n = let digits = print_nat n in replicate (w - length digits) b'0' ++ digits

-- `format_timestamp`, from the number of milliseconds.
unfoldable pub format_ms : ℕ → Text
unfolding pad
format_ms ms =
    pad 2 (ms / 3600000)
    ++ (b':' ∷ pad 2 (ms % 3600000 / 60000))
    ++ (b':' ∷ pad 2 (ms % 60000 / 1000))
    ++ (b'.' ∷ pad 3 (ms % 1000))

split_settings : Text → Option (Text × Text) → Text × Text
split_settings rest (some (end, settings)) = (end, trim settings)
split_settings rest none = (trim_end rest, [])

-- The times of a cue and its settings.
pub record Timing (F : Type 0) : Type 0 where
  pub start : F
  pub end : F
  pub settings : Text

module _ (platform : Platform) where
  open platform use {F64, zero_seconds, sexagesimal, parse_f64, total_ms}

  sum_parts : F64 → List Text → Option F64
  sum_parts seconds [] = some seconds
  sum_parts seconds (part ∷ parts) = elim (parse_f64 part) [
    | none ↦ none
    | some value ↦ sum_parts (sexagesimal seconds value) parts
  ]

  -- Two or three parts.
  timestamp_of : List Text → Option F64
  unfolding sum_parts
  timestamp_of (a ∷ b ∷ []) = sum_parts zero_seconds (a ∷ b ∷ [])
  timestamp_of (a ∷ b ∷ c ∷ []) = sum_parts zero_seconds (a ∷ b ∷ c ∷ [])
  timestamp_of _ = none

  unfoldable pub parse_timestamp : Text → Option F64
  unfolding timestamp_of
  parse_timestamp text = timestamp_of (split b':' (trim text))

  unfoldable pub format_timestamp : F64 → Text
  unfolding format_ms
  format_timestamp seconds = format_ms (total_ms seconds)

  timing_of : Option F64 → Option F64 → Text → Option (Timing F64)
  timing_of (some start) (some end) settings =
      some (record { start = start; end = end; settings = settings })
  timing_of _ _ settings = none

  cue_parts : Option (Text × Text) → Option (Timing F64)
  unfolding split_settings split_once_whitespace parse_timestamp timing_of
  cue_parts none = none
  cue_parts (some (start, rest)) =
      let after = trim_start rest in
      let (end, settings) = split_settings after (split_once_whitespace after) in
      timing_of (parse_timestamp start) (parse_timestamp end) settings

  unfoldable pub parse_cue_timing : Text → Option (Timing F64)
  unfolding cue_parts split_once_text
  parse_cue_timing line = cue_parts (split_once_text (codes "-->") line)
