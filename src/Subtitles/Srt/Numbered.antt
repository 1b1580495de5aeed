-- ===== src/Subtitles/Srt/Numbered.antt =====
-- src/subtitles.rs: the cues that `vtt_to_srt` writes. A document is blocks of lines that are not
-- blank, each ended by a blank line, and perhaps a last block that the document ends.
use unicast.Base.{
  ℕ, ◌+◌, ◌≡◌, refl, ap, ◌∙◌, sym, true, false, Option, none, some, List, [], ◌∷◌, ◌++◌, Text,
  is_empty, trim, lines, map, filter_map, filter_map-none, filter_map-some, Platform, append-nil,
  append_assoc,
}
use unicast.Subtitles.{Timing}
use unicast.Subtitles.Srt.{
  shown, shown_cue, cue_of, show_cue, write_cue, srt_lines, is_nil, vtt_to_srt, without_bom,
}

pub record Group : Type 0 where
  pub lines : List Text
  pub blank : Text

unfoldable pub written : List Group → List Text → List Text
written [] last = last
written (g ∷ groups) last = g.lines ++ g.blank ∷ written groups last

abbrev pub AllVisible : List Text → Type 0
AllVisible [] = Unit
AllVisible (line ∷ rest) = (is_empty (trim line) ≡ false) × AllVisible rest

abbrev pub AllGroups : List Group → Type 0
AllGroups [] = Unit
AllGroups (g ∷ groups) = AllVisible g.lines × (is_empty (trim g.blank) ≡ true) × AllGroups groups

abbrev pub blocks_of : List Group → List Text → List (List Text)
blocks_of groups last = map (λ g. g.lines) groups ++ last ∷ []

module _ (platform : Platform) where
  open platform use {F64}

  -- The cues, numbered after the given number.
  unfoldable pub numbered : ℕ → List (Timing F64 × List Text) → Text
  numbered n [] = []
  numbered n (cue ∷ cues) = show_cue platform (n + 1) cue ++ numbered (n + 1) cues

  after_cue : ℕ → Option (Timing F64 × List Text) → (ℕ → Text) → Text
  after_cue n cue later = let (out, counted) = write_cue platform n cue in out ++ later counted

  reads_line :
      (block : List Text) (l m : Text) (ls : List Text) (n : ℕ)
      → is_empty (trim l) ≡ false
      → srt_lines platform block n (l ∷ m ∷ ls) ≡ srt_lines platform (block ++ l ∷ []) n (m ∷ ls)
  unfolding srt_lines is_nil
  reads_line block l m ls n v = simp v refl

  srt_group :
      (block ls rest : List Text) (n : ℕ) (blank : Text)
      → AllVisible ls
      → is_empty (trim blank) ≡ true
      → srt_lines platform block n (ls ++ blank ∷ rest)
        ≡ after_cue n (shown platform (block ++ ls)) λ counted. srt_lines platform [] counted rest
  unfolding srt_lines is_nil after_cue
  srt_group block [] rest n blank h b = simp (b, append-nil block)
  srt_group block (l ∷ []) rest n blank (v, h) b =
      reads_line block l blank rest n v
      ∙ srt_group (block ++ l ∷ []) [] rest n blank h b
      ∙ ap (λ r. after_cue n (shown platform r) λ counted. srt_lines platform [] counted rest)
          (append-nil (block ++ l ∷ []))
  srt_group block (l ∷ m ∷ ls) rest n blank (v, h) b =
      reads_line block l m (ls ++ blank ∷ rest) n v
      ∙ (srt_group (block ++ l ∷ []) (m ∷ ls) rest n blank h b
          ∙ ap (λ r. after_cue n (shown platform r) λ counted. srt_lines platform [] counted rest)
              (append_assoc block (l ∷ []) (m ∷ ls)))

  srt_last :
      (block : List Text) (l : Text) (ls : List Text) (n : ℕ)
      → AllVisible (l ∷ ls)
      → srt_lines platform block n (l ∷ ls)
        ≡ after_cue n (shown platform (block ++ l ∷ ls)) λ counted. []
  unfolding srt_lines is_nil after_cue
  srt_last block l [] n (v, h) = simp v refl
  srt_last block l (m ∷ ls) n (v, h) =
      reads_line block l m ls n v
      ∙ (srt_last (block ++ l ∷ []) m ls n h
          ∙ ap (λ r. after_cue n (shown platform r) λ counted. [])
              (append_assoc block (l ∷ []) (m ∷ ls)))

  next_cue :
      (n : ℕ) (block : List Text) (blocks : List (List Text)) (later : ℕ → Text)
      → ((k : ℕ) → later k ≡ numbered k (filter_map (shown platform) blocks))
      → (o : Option (Timing F64 × List Text)) → shown platform block ≡ o
      → after_cue n o later ≡ numbered n (filter_map (shown platform) (block ∷ blocks))
  unfolding after_cue write_cue numbered
  next_cue n block blocks later h none e =
      h n ∙ ap (λ cues. numbered n cues) (sym (filter_map-none (shown platform) block blocks e))
  next_cue n block blocks later h (some cue) e =
      ap (λ t. show_cue platform (n + 1) cue ++ t) (h (n + 1))
      ∙ ap (λ cues. numbered n cues) (sym (filter_map-some (shown platform) block blocks e))

  srt_written :
      (n : ℕ) (groups : List Group) (last : List Text)
      → AllGroups groups
      → AllVisible last
      → srt_lines platform [] n (written groups last)
        ≡ numbered n (filter_map (shown platform) (blocks_of groups last))
  unfolding written
  srt_written n [] [] h v = unfold srt_lines filter_map numbered shown cue_of shown_cue in refl
  srt_written n [] (l ∷ ls) h v =
      srt_last [] l ls n v ∙ next_cue n (l ∷ ls) [] (λ k. []) no_more _ refl
    where
      no_more : (k : ℕ) → [] ≡ numbered k (filter_map (shown platform) [])
      no_more k = unfold numbered filter_map in refl
  srt_written n (g ∷ groups) last (visible, blank, h) v =
      srt_group [] g.lines (written groups last) n g.blank visible blank
      ∙ next_cue n g.lines (blocks_of groups last) _ (λ k. srt_written k groups last h v) _ refl

  -- The SubRip form of a document of blocks, the last one perhaps without a blank line after it: a
  -- byte order mark, then the cues of the blocks that have a timing line and some text, in their
  -- order and numbered from 1.
  pub vtt_to_srt_numbered :
      (vtt : Text) (groups : List Group) (last : List Text)
      → lines (without_bom vtt) ≡ written groups last
      → AllGroups groups
      → AllVisible last
      → vtt_to_srt platform vtt
        ≡ 65279 ∷ numbered 0 (filter_map (shown platform) (blocks_of groups last))
  unfolding vtt_to_srt
  vtt_to_srt_numbered vtt groups last read h v =
      rw read (ap (λ s. 65279 ∷ s) (srt_written 0 groups last h v))
