-- ===== src/Subtitles/Tests.antt =====
-- src/subtitles.rs at concrete inputs.
use unicast.Base.{
  ◌≡◌, refl, Option, some, none, List, [], ◌∷◌, ◌++◌, Text, codes, ℕ, lines, filter_map, trim,
  is_whitespace, is_empty, split, parse_uint, print_nat,
}
use unicast.Subtitles.{Timing, parse_cue_timing, format_timestamp}
use unicast.Subtitles.Shift.{shift_vtt, shift_line, push_lines}
use unicast.Subtitles.Shift.Blocks.{
  Cue, Block, document, cue_lines, AllBlocks, IsCue, shifted, shifted_end, shift_vtt_blocks,
}
use unicast.Subtitles.Srt.{without_bom, shown, vtt_to_srt}
use unicast.Subtitles.Srt.Numbered.{
  Group, written, AllGroups, numbered, blocks_of, vtt_to_srt_numbered,
}
use unicast.Sample.{platform}

abbrev vtt : Text
vtt =
    codes "WEBVTT"
    ++ 10 ∷ 10 ∷ codes "00:05 --> 00:09"
    ++ 10 ∷ codes "early"
    ++ 10 ∷ 10 ∷ codes "2"
    ++ 10 ∷ codes "00:09 --> 00:19 align:left"
    ++ 10 ∷ codes "late"
    ++ 10 ∷ 10 ∷ []

abbrev timing : ℕ → ℕ → Text → Timing ℕ
timing start end settings = record { start = start; end = end; settings = settings }

abbrev cue : Text → Timing ℕ → Text → Option (Cue ℕ)
cue line times text = some (record { line = line; timing = times; text = text ∷ [] })

abbrev blocks : List (Block ℕ)
blocks =
    record { intro = codes "WEBVTT" ∷ []; cue = none; blank = [] }
    ∷ record {
      intro = [];
      cue = cue (codes "00:05 --> 00:09") (timing 5 9 []) (codes "early");
      blank = [];
    }
    ∷ record {
      intro = codes "2" ∷ [];
      cue =
          cue (codes "00:09 --> 00:19 align:left") (timing 9 19 (codes "align:left"))
            (codes "late");
      blank = [];
    }
    ∷ []

blocks-AllBlocks : AllBlocks platform blocks
unfolding trim is_whitespace parse_cue_timing parse_uint is_empty split
blocks-AllBlocks = (
  (refl, refl, record {}),
  record {},
  refl,
  (
    record {},
    (refl, refl, (refl, refl, record {})),
    refl,
    ((refl, refl, record {}), (refl, refl, (refl, refl, record {})), refl, record {}),
  ),
)

-- The document goes on to a cue that no blank line follows.
abbrev open_vtt : Text
open_vtt = vtt ++ (codes "00:20 --> 00:29" ++ 10 ∷ codes "last")

abbrev last_cue : Option (Cue ℕ)
last_cue = cue (codes "00:20 --> 00:29") (timing 20 29 []) (codes "last")

open_vtt-read : lines open_vtt ≡ document blocks (cue_lines last_cue)
unfolding lines document
open_vtt-read = refl

last_cue-IsCue : IsCue platform last_cue
unfolding trim is_whitespace parse_cue_timing parse_uint is_empty split
last_cue-IsCue = (refl, refl, (refl, refl, record {}))

shift_vtt_blocks_example :
    shift_vtt platform open_vtt 10
    ≡ push_lines (shifted platform 10 blocks (shifted_end platform 10 [] last_cue))
shift_vtt_blocks_example =
    shift_vtt_blocks platform open_vtt 10 blocks [] last_cue refl open_vtt-read blocks-AllBlocks
      (record {}) last_cue-IsCue

early_dropped :
    shift_vtt platform vtt 10
    ≡ codes "WEBVTT"
      ++ 10 ∷ 10 ∷ codes "2"
      ++ 10 ∷ codes "00:00:00.000 --> 00:00:09.000 align:left"
      ++ 10 ∷ codes "late"
      ++ 10 ∷ 10 ∷ []
unfolding shift_vtt lines shift_line trim is_whitespace parse_cue_timing parse_uint format_timestamp
    print_nat
early_dropped = refl

abbrev groups : List Group
groups =
    record { lines = codes "WEBVTT" ∷ []; blank = [] }
    ∷ record { lines = codes "00:05 --> 00:09" ∷ codes "early" ∷ []; blank = [] }
    ∷ record {
      lines = codes "2" ∷ codes "00:09 --> 00:19 align:left" ∷ codes "late" ∷ [];
      blank = [];
    }
    ∷ []

groups-read : lines (without_bom vtt) ≡ written groups []
unfolding lines written without_bom
groups-read = refl

groups-AllGroups : AllGroups groups
unfolding trim is_whitespace is_empty
groups-AllGroups = (
  (refl, record {}),
  refl,
  ((refl, (refl, record {})), refl, ((refl, (refl, (refl, record {}))), refl, record {})),
)

vtt_to_srt_numbered_example :
    vtt_to_srt platform vtt
    ≡ 65279 ∷ numbered platform 0 (filter_map (shown platform) (blocks_of groups []))
vtt_to_srt_numbered_example =
    vtt_to_srt_numbered platform vtt groups [] groups-read groups-AllGroups (record {})
