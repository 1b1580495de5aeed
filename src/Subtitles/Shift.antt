-- ===== src/Subtitles/Shift.antt =====
-- src/subtitles.rs: `shift_vtt`, which re-times a document for a stream that began some seconds in.
pub mod Blocks
use unicast.Base.{
  ◌≡◌, refl, ap, ◌∙◌, sym, Bool, true, false, Option, none, some, List, [], ◌∷◌, ◌++◌, Text, codes,
  if◌then◌else◌, is_empty, lines, trim, Platform, append_assoc, append-nil, arith, inl, inr,
  Bool-cases,
}
use unicast.Subtitles.{Timing, parse_cue_timing, format_timestamp}

-- `pending` and `dropping`.
pub record Shifting : Type 0 where
  pub pending : List Text
  pub dropping : Bool

abbrev pub fresh : Shifting
fresh = record { pending = []; dropping = false }

-- Each line with its line feed.
unfoldable pub push_lines : List Text → Text
push_lines [] = []
push_lines (line ∷ rest) = line ++ 10 ∷ push_lines rest

with_settings : Text → Text → Text
with_settings timing settings = if is_empty settings then timing else timing ++ b' ' ∷ settings

flushed : Shifting → List Text
flushed s = if s.dropping then [] else s.pending

module _ (platform : Platform) where
  open platform use {F64, zero_seconds, sub, le, max_of}

  -- The new timing line of a cue.
  unfoldable pub retimed : F64 → Timing F64 → Text
  unfolding with_settings
  retimed seconds t =
      with_settings
        (format_timestamp platform (max_of (sub t.start seconds) zero_seconds)
          ++ (codes " --> " ++ format_timestamp platform (sub t.end seconds)))
        t.settings

  -- The cue ends before the stream begins.
  abbrev pub is_over : F64 → Timing F64 → Bool
  is_over seconds t = le (sub t.end seconds) zero_seconds

  shift_timing : F64 → Shifting → Text → Option (Timing F64) → List Text × Shifting
  unfolding retimed
  shift_timing seconds s line none = ([], record s { pending = s.pending ++ line ∷ [] })
  shift_timing seconds s line (some t) =
      if is_over seconds t
      then ([], record { pending = []; dropping = true })
      else (s.pending ++ retimed seconds t ∷ [], record s { pending = [] })

  -- What one line of the document appends to the output, and the state after it.
  unfoldable pub shift_line : F64 → Shifting → Text → List Text × Shifting
  unfolding shift_timing
  shift_line seconds s line =
      if is_empty (trim line)
      then (if s.dropping then [] else s.pending ++ [] ∷ [], fresh)
      else (if s.dropping
          then ([], s)
          else shift_timing seconds s line (parse_cue_timing platform line))

  unfoldable pub shift_lines : F64 → Shifting → List Text → List Text
  unfolding flushed
  shift_lines seconds s [] = flushed s
  shift_lines seconds s (line ∷ rest) =
      let (out, next) = shift_line seconds s line in out ++ shift_lines seconds next rest

  unfoldable pub shift_vtt : Text → F64 → Text
  unfolding shift_lines push_lines
  shift_vtt text seconds =
      if le seconds zero_seconds then text else push_lines (shift_lines seconds fresh (lines text))
