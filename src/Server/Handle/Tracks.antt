-- ===== src/Server/Handle/Tracks.antt =====
-- src/media_server.rs: the subtitle tracks of a file as its server offers them.
use unicast.Base.{
  ℕ, zero, suc, ◌+◌, ◌≤◌, Option, none, some, List, [], ◌∷◌, ◌++◌, Text, codes, ◌==◌, ◌≡◌, refl,
  ◌∙◌, sym, ap, subst, arith, length, get_elem?, take, true, false, Platform, print_nat, parse_uint,
  parse_uint-print_nat, u32_max, strip_suffix, strip_prefix, strip_prefix-append, reverse,
}
use mathlib.Core.List.{reverse-append, reverse-reverse}
use unicast.Subtitles.{SubtitleTrack}
use unicast.Subtitles.Discover.{
  Candidate, Surroundings, number_from, candidates, discover, max_tracks,
}
use unicast.Subtitles.Discover.Numbered.{number_from-id, discover_few}
use unicast.Server.Request.{Config, SubtitleFormat, vtt, srt}
use unicast.Server.Handle.{find_track, track_of, subtitle_track}

strip_suffix-reverse :
    (p s : Text) (o : Option Text) (q : Option Text)
    → strip_prefix (reverse p) (reverse s) ≡ o
    → elim o [ none ↦ none | some r ↦ some (reverse r) ] ≡ q
    → strip_suffix p s ≡ q
unfolding strip_suffix
strip_suffix-reverse p s o q e h =
    subst (λ o. elim o [ none ↦ none | some r ↦ some (reverse r) ] ≡ q) (sym e) h

strip_suffix-append : (s p : Text) → strip_suffix p (s ++ p) ≡ some s
strip_suffix-append s p =
    strip_suffix-reverse p (s ++ p) (some (reverse s)) (some s)
      (ap (strip_prefix (reverse p)) (reverse-append s p)
        ∙ strip_prefix-append (reverse p) (reverse s))
      (ap some (reverse-reverse s))

no_vtt : (s : Text) → strip_suffix (codes ".vtt") (s ++ codes ".srt") ≡ none
unfolding strip_prefix
no_vtt s =
    strip_suffix-reverse (codes ".vtt") (s ++ codes ".srt") none none
      (ap (strip_prefix (reverse (codes ".vtt"))) (reverse-append s (codes ".srt"))) refl

get_elem?_lt :
    {A : Type 0} (xs : List A) (i : ℕ) {x : A} → get_elem? xs i ≡ some x → suc i ≤ length xs
get_elem?_lt [] i h = cc
get_elem?_lt (x ∷ xs) zero h = omega arith
get_elem?_lt (x ∷ xs) (suc i) h = omega (arith, get_elem?_lt xs i h)

find_track-number_from :
    (id i n : ℕ) (cs : List Candidate) {t : SubtitleTrack}
    → id + i ≡ n
    → get_elem? (number_from id cs) i ≡ some t
    → find_track n (number_from id cs) ≡ some t
unfolding number_from find_track
find_track-number_from id i n [] e h = cc
find_track-number_from id zero n (c ∷ cs) {t} e h =
    let same : (id == n) ≡ true = ground arith in simp same h
find_track-number_from id (suc i) n (c ∷ cs) {t} e h =
    let later : (id == n) ≡ false = ground arith in
    simp later (find_track-number_from (id + 1) i n cs (omega arith) h)

found_by_id :
    (config : Config) (n : ℕ) (format : SubtitleFormat) {t : SubtitleTrack}
    → n ≤ u32_max
    → find_track n config.subtitles ≡ some t
    → track_of config (parse_uint u32_max (print_nat n)) format ≡ some (t, format)
unfolding track_of
found_by_id config n format {t} fits h =
    subst (λ o. track_of config o format ≡ some (t, format))
      (sym (parse_uint-print_nat u32_max n fits))
      (ap
        (λ (o : Option SubtitleTrack). elim o as (λ k. Option (SubtitleTrack × SubtitleFormat)) [
          | none ↦ none
          | some track ↦ some (track, format)
        ])
        h)

subtitle_track-vtt :
    (config : Config) (name : Text) {id : Text}
    → strip_suffix (codes ".vtt") name ≡ some id
    → subtitle_track config name ≡ track_of config (parse_uint u32_max id) vtt
unfolding subtitle_track
subtitle_track-vtt config name e =
    ap
      (λ (o : Option Text). elim o as (λ k. Option (SubtitleTrack × SubtitleFormat)) [
        | some id ↦ track_of config (parse_uint u32_max id) vtt
        | none ↦
            elim (strip_suffix (codes ".srt") name)
              as (λ k. Option (SubtitleTrack × SubtitleFormat)) [
                | some id ↦ track_of config (parse_uint u32_max id) srt
                | none ↦ none
              ]
      ])
      e

subtitle_track-srt :
    (config : Config) (name : Text) {id : Text}
    → strip_suffix (codes ".vtt") name ≡ none
    → strip_suffix (codes ".srt") name ≡ some id
    → subtitle_track config name ≡ track_of config (parse_uint u32_max id) srt
unfolding subtitle_track
subtitle_track-srt config name e f =
    ap
      (λ (o : Option Text). elim o as (λ k. Option (SubtitleTrack × SubtitleFormat)) [
        | some id ↦ track_of config (parse_uint u32_max id) vtt
        | none ↦
            elim (strip_suffix (codes ".srt") name)
              as (λ k. Option (SubtitleTrack × SubtitleFormat)) [
                | some id ↦ track_of config (parse_uint u32_max id) srt
                | none ↦ none
              ]
      ])
      e
    ∙ ap
        (λ (o : Option Text). elim o as (λ k. Option (SubtitleTrack × SubtitleFormat)) [
          | some id ↦ track_of config (parse_uint u32_max id) srt
          | none ↦ none
        ])
        f

-- Each subtitle track that is found for a file, which are at most 32, is the one that the server of
-- the file takes a request for `sub/<its id>.vtt` or `sub/<its id>.srt` to mean.
pub subtitle_track-discover :
    (platform : Platform) (around : Surroundings) (media : Text) (config : Config) (i : ℕ)
    {t : SubtitleTrack}
    → config.subtitles ≡ discover platform around media
    → get_elem? (discover platform around media) i ≡ some t
    → (length config.subtitles ≤ max_tracks)
      × (subtitle_track config (print_nat t.id ++ codes ".vtt") ≡ some (t, vtt))
      × (subtitle_track config (print_nat t.id ++ codes ".srt") ≡ some (t, srt))
unfolding discover
subtitle_track-discover platform around media config i {t} offered here =
    let numbered = number_from-id 1 i (take max_tracks (candidates platform around media)) here in
    let few = discover_few platform around media in
    let placed = get_elem?_lt (discover platform around media) i here in
    let fits : t.id ≤ u32_max = omega (arith, numbered, few, placed) in
    let found : find_track t.id config.subtitles ≡ some t =
      ap (find_track t.id) offered
      ∙ find_track-number_from 1 i t.id (take max_tracks (candidates platform around media))
          (sym numbered) here in
    (
      subst (λ l. length l ≤ max_tracks) (sym offered) few,
      subtitle_track-vtt config _ (strip_suffix-append (print_nat t.id) (codes ".vtt"))
          ∙ found_by_id config t.id vtt fits found,
      subtitle_track-srt config _ (no_vtt (print_nat t.id))
            (strip_suffix-append (print_nat t.id) (codes ".srt"))
          ∙ found_by_id config t.id srt fits found,
    )
