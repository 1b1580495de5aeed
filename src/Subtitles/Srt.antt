-- ===== src/Subtitles/Srt.antt =====
-- src/subtitles.rs: `vtt_to_srt`, the SubRip form of a WebVTT document.
pub mod Numbered
use unicast.Base.{
  ℕ, zero, suc, ◌+◌, ◌-◌, Bool, true, false, not, ◌&&◌, ◌||◌, Option, none, some, List, [], ◌∷◌,
  ◌++◌, Text, codes, if◌then◌else◌, is_empty, lines, trim, is_whitespace, ◌==◌, eq_text,
  strip_prefix, contains_text, print_nat, length, map, Platform,
}
use unicast.Subtitles.{Timing, parse_cue_timing, format_timestamp}
use unicast.Subtitles.Shift.{push_lines}

-- `s.replace(from, to)`; the number counts the rest of an occurrence that was replaced.
replace_from : Text → Text → ℕ → Text → Text
replace_from from to k [] = []
replace_from from to (suc k) (c ∷ s) = replace_from from to k s
replace_from from to zero (c ∷ s) = elim (strip_prefix from (c ∷ s)) [
  | none ↦ c ∷ replace_from from to zero s
  | some _ ↦ to ++ replace_from from to (length from - 1) s
]

unfoldable pub replace : Text → Text → Text → Text
unfolding replace_from
replace from to s = replace_from from to zero s

-- The name of a tag, up to a class or an attribute.
tag_name : Text → Text
tag_name [] = []
tag_name (c ∷ s) = if c == b'.' || is_whitespace c then [] else c ∷ tag_name s

named_tag : Text → Text → Text
named_tag slash name =
    if eq_text name (codes "i") || eq_text name (codes "b") || eq_text name (codes "u")
    then b'<' ∷ (slash ++ (name ++ codes ">"))
    else []

slash_and_name : Text → Option Text → Text × Text
slash_and_name tag none = ([], tag)
slash_and_name tag (some name) = (codes "/", name)

-- What is kept of a tag.
kept_tag : Text → Text
unfolding tag_name named_tag slash_and_name
kept_tag tag =
    let (slash, name) = slash_and_name tag (strip_prefix (codes "/") tag) in
    named_tag slash (tag_name name)

-- The text without markup; the option is what was read of a tag that is not closed yet.
kept_text : Option Text → Text → Text
unfolding kept_tag
kept_text none [] = []
kept_text (some tag) [] = b'<' ∷ tag
kept_text none (c ∷ s) =
    let rest = kept_text (if c == b'<' then some [] else none) s in
    if c == b'<' then rest else c ∷ rest
kept_text (some tag) (c ∷ s) =
    let rest = kept_text (if c == b'>' then none else some (tag ++ c ∷ [])) s in
    if c == b'>' then kept_tag tag ++ rest else rest

unescape : Text → Text
unfolding replace
unescape s = replace (codes "&amp;") (codes "&") (
    replace (codes "&rlm;") [] (
      replace (codes "&lrm;") [] (
        replace (codes "&nbsp;") (codes " ")
          (replace (codes "&gt;") (codes ">") (replace (codes "&lt;") (codes "<") s)))))

unfoldable pub srt_text : Text → Text
unfolding kept_text unescape
srt_text line = unescape (kept_text none line)

visible_lines : List Text → List Text
visible_lines [] = []
visible_lines (line ∷ rest) =
    if is_empty (trim line) then visible_lines rest else line ∷ visible_lines rest

-- `replacen('.', ",", 1)`.
comma_once : Text → Text
comma_once [] = []
comma_once (c ∷ s) = if c == b'.' then b',' ∷ s else c ∷ comma_once s

abbrev arrow : Text
arrow = codes "-->"

unfoldable pub without_bom : Text → Text
without_bom [] = []
without_bom (c ∷ s) = if c == 65279 then s else c ∷ s

module _ (platform : Platform) where
  open platform use {F64}

  srt_timestamp : F64 → Text
  unfolding comma_once
  srt_timestamp seconds = comma_once (format_timestamp platform seconds)

  timed : Option (Timing F64) → List Text → Option (Timing F64 × List Text)
  timed none body = none
  timed (some t) body = some (t, body)

  second_line : List Text → Option (Timing F64 × List Text)
  unfolding timed
  second_line [] = none
  second_line (line ∷ rest) =
      if contains_text arrow line then timed (parse_cue_timing platform line) rest else none

  -- The timing of a block, in its first or second line, and the lines after it.
  unfoldable pub cue_of : List Text → Option (Timing F64 × List Text)
  unfolding second_line timed
  cue_of [] = none
  cue_of (line ∷ rest) =
      if contains_text arrow line
      then timed (parse_cue_timing platform line) rest
      else second_line rest

  -- The text of the cue, where it has one.
  with_text : Timing F64 → List Text → Option (Timing F64 × List Text)
  with_text t [] = none
  with_text t (line ∷ body) = some (t, line ∷ body)

  shown_cue : Option (Timing F64 × List Text) → Option (Timing F64 × List Text)
  unfolding with_text srt_text visible_lines
  shown_cue none = none
  shown_cue (some (t, body)) = with_text t (visible_lines (map srt_text body))

  unfoldable pub shown : List Text → Option (Timing F64 × List Text)
  unfolding cue_of shown_cue
  shown block = shown_cue (cue_of block)

  unfoldable pub show_cue : ℕ → Timing F64 × List Text → Text
  unfolding srt_timestamp push_lines
  show_cue number (t, body) =
      print_nat number
      ++ 10
        ∷ (srt_timestamp t.start
            ++ (codes " --> " ++ (srt_timestamp t.end ++ 10 ∷ (push_lines body ++ 10 ∷ []))))

  -- What a whole block appends, and the number of cues after it.
  write_cue : ℕ → Option (Timing F64 × List Text) → Text × ℕ
  unfolding show_cue
  write_cue number none = ([], number)
  write_cue number (some cue) = (show_cue (number + 1) cue, number + 1)

  is_nil : List Text → Bool
  is_nil [] = true
  is_nil (_ ∷ _) = false

  -- The loop over the lines, with `block` and `number`. A block ends at a blank line and at the last
  -- line.
  unfoldable pub srt_lines : List Text → ℕ → List Text → Text
  unfolding write_cue shown is_nil
  srt_lines block number [] = []
  srt_lines block number (line ∷ rest) =
      let blank = is_empty (trim line) in
      let read = if blank then block else block ++ line ∷ [] in
      let goes_on = not blank && not (is_nil rest) in
      let (out, counted) = write_cue number (shown read) in
      let later =
        srt_lines (if goes_on then read else []) (if goes_on then number else counted) rest in
      if goes_on then later else out ++ later

  unfoldable pub vtt_to_srt : Text → Text
  unfolding srt_lines without_bom
  vtt_to_srt vtt = 65279 ∷ srt_lines [] 0 (lines (without_bom vtt))
