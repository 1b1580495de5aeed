-- ===== src/Server/Ffmpeg/Filter.antt =====
-- src/media_server.rs: the arguments of ffmpeg where the sound is filtered.
use unicast.Base.{
  ◌≡◌, refl, sym, ap, ◌∙◌, Bool, true, false, Option, none, some, List, [], ◌∷◌, ◌++◌, Text, codes,
  append_assoc, if◌then◌else◌, ◌==◌, ◌&&◌, not, ℕ, join, ltb, print_nat, eq_text_iff, mem_text,
  eq_text,
}
use unicast.Server.{Container, fragmented_mp4, mpeg_ts}
use unicast.Cast.Plan.{copy}
use unicast.Server.Ffmpeg.{
  TranscodePlan, audio_filter, ffmpeg_args, ffmpeg_input, seek_args, video_args, audio_args,
  container_args, filter_chain, downmix,
}

-- The sound is given to the filter and encoded as AAC with two channels, and no later option asks for
-- another codec or filter.
pub record AsksFilter (filter : Text) (args : List Text) : Type 0 where
  pub front : List Text
  pub back : List Text
  pub split :
      args
      ≡ front
        ++ codes "-af"
          ∷ filter
          ∷ codes "-c:a"
          ∷ codes "aac"
          ∷ codes "-b:a"
          ∷ codes "192k"
          ∷ codes "-ac"
          ∷ codes "2"
          ∷ back
  pub no_codec : mem_text (codes "-c:a") back ≡ false
  pub no_filter : mem_text (codes "-af") back ≡ false

abbrev tail : Container → List Text
tail container = container_args container ++ codes "pipe:1" ∷ []

tail_no_codec : (container : Container) → mem_text (codes "-c:a") (tail container) ≡ false
unfolding container_args mem_text eq_text
tail_no_codec fragmented_mp4 = refl
tail_no_codec mpeg_ts = refl

tail_no_filter : (container : Container) → mem_text (codes "-af") (tail container) ≡ false
unfolding container_args mem_text eq_text
tail_no_filter fragmented_mp4 = refl
tail_no_filter mpeg_ts = refl

-- The arguments before those for the sound.
before_sound : Option Text → Text → TranscodePlan → Option Text → List Text
unfolding seek_args ffmpeg_input video_args
before_sound vbitrate file plan start =
    codes "-nostdin" ∷ codes "-loglevel" ∷ codes "error" ∷ seek_args start
    ++ (ffmpeg_input file
        ++ (codes "-map"
            ∷ codes "0:v:0"
            ∷ codes "-map"
            ∷ codes "0:a:0?"
            ∷ video_args vbitrate plan start))

nested_append : (a b c d : List Text) → a ++ (b ++ (c ++ d)) ≡ (a ++ (b ++ c)) ++ d
nested_append a b c d =
    ap (λ l. a ++ l) (sym (append_assoc b c d)) ∙ sym (append_assoc a (b ++ c) d)

ffmpeg_args-split :
    (vbitrate : Option Text) (file : Text) (plan : TranscodePlan) (start : Option Text)
    → ffmpeg_args vbitrate file plan start
      ≡ before_sound vbitrate file plan start
        ++ (audio_args plan (audio_filter plan) ++ tail plan.container)
unfolding ffmpeg_args before_sound
ffmpeg_args-split vbitrate file plan start =
    nested_append (codes "-nostdin" ∷ codes "-loglevel" ∷ codes "error" ∷ seek_args start)
      (ffmpeg_input file)
      (codes "-map"
        ∷ codes "0:v:0"
        ∷ codes "-map"
        ∷ codes "0:a:0?"
        ∷ video_args vbitrate plan start)
      (audio_args plan (audio_filter plan) ++ tail plan.container)

-- Where a plan has a filter for the sound, ffmpeg is asked for it.
pub ffmpeg_args-AsksFilter :
    (vbitrate : Option Text) (file : Text) (plan : TranscodePlan) (start : Option Text)
    (filter : Text)
    → audio_filter plan ≡ some filter
    → AsksFilter filter (ffmpeg_args vbitrate file plan start)
unfolding audio_args
ffmpeg_args-AsksFilter vbitrate file plan start filter h = record {
  front = before_sound vbitrate file plan start;
  back = tail plan.container;
  split =
      ffmpeg_args-split vbitrate file plan start
      ∙ ap
          (λ o. before_sound vbitrate file plan start ++ (audio_args plan o ++ tail plan.container))
          h;
  no_codec = tail_no_codec plan.container;
  no_filter = tail_no_filter plan.container;
}

abbrev pub volume : ℕ → Text
volume gain = codes "volume=" ++ (print_nat gain ++ codes "dB")

-- The filters for a gain and a number of channels, separated by commas: one of them raises the volume
-- where there is a gain, and one mixes the channels down to two where there are more.
pub record IsFilter (gain channels : ℕ) (filter : Text) : Type 0 where
  pub parts : List Text
  pub joined : filter ≡ join (codes ",") parts
  pub raises : mem_text (volume gain) parts ≡ ltb 0 gain
  pub mixes : mem_text downmix parts ≡ ltb 2 channels

eq_text_same : (s : Text) → eq_text s s ≡ true
eq_text_same s = (eq_text_iff s s).1 refl

-- The parts where the sound has too many channels, or not, and a gain, or none.
abbrev parts_of : Bool → Bool → ℕ → List Text
parts_of wide loud gain =
    (if wide then downmix ∷ [] else [])
    ++ (if loud then volume gain ∷ codes "alimiter=limit=0.95:level=disabled" ∷ [] else [])

not_downmix : (gain : ℕ) → eq_text downmix (volume gain) ≡ false
unfolding eq_text
not_downmix gain = refl

parts_raise :
    (wide loud : Bool) (gain : ℕ) → mem_text (volume gain) (parts_of wide loud gain) ≡ loud
unfolding mem_text
parts_raise true true gain = simp (not_downmix gain, eq_text_same (volume gain))
parts_raise true false gain = simp (not_downmix gain)
parts_raise false true gain = simp (eq_text_same (volume gain))
parts_raise false false gain = refl

parts_mix : (wide loud : Bool) (gain : ℕ) → mem_text downmix (parts_of wide loud gain) ≡ wide
unfolding mem_text eq_text
parts_mix true loud gain = refl
parts_mix false true gain = refl
parts_mix false false gain = refl

audio_filter-joined :
    (plan : TranscodePlan) (filter : Text)
    → audio_filter plan ≡ some filter
    → filter ≡ join (codes ",") (filter_chain plan)
unfolding audio_filter
audio_filter-joined plan filter h =
    joined_if (plan.gain_db == 0 && not (ltb 2 plan.channels && not (eq_text plan.acodec copy))) h
  where
    joined_if :
        (b : Bool)
        → (if b then none else some (join (codes ",") (filter_chain plan))) ≡ some filter
        → filter ≡ join (codes ",") (filter_chain plan)
    joined_if true e = cc
    joined_if false e = cc

pub audio_filter-IsFilter :
    (plan : TranscodePlan) (filter : Text)
    → audio_filter plan ≡ some filter
    → IsFilter plan.gain_db plan.channels filter
unfolding filter_chain
audio_filter-IsFilter plan filter h = record {
  parts = parts_of (ltb 2 plan.channels) (ltb 0 plan.gain_db) plan.gain_db;
  joined = audio_filter-joined plan filter h;
  raises = parts_raise (ltb 2 plan.channels) (ltb 0 plan.gain_db) plan.gain_db;
  mixes = parts_mix (ltb 2 plan.channels) (ltb 0 plan.gain_db) plan.gain_db;
}
