-- ===== src/Subtitles/Shift/Blocks.antt =====
-- src/subtitles.rs: what `shift_vtt` makes of the blocks of a document. A block is some lines, then
-- perhaps the timing line of a cue with the text of the cue, and a blank line.
use unicast.Base.{
  ◌≡◌, refl, ap, ◌∙◌, sym, true, false, Option, none, some, List, [], ◌∷◌, ◌++◌, Text,
  if◌then◌else◌, is_empty, trim, lines, Platform, append_assoc, append-nil, inl, inr, Bool-cases,
}
use unicast.Subtitles.{Timing, parse_cue_timing}
use unicast.Subtitles.Shift.{
  Shifting, fresh, retimed, is_over, shift_timing, shift_line, shift_lines, shift_vtt, push_lines,
  flushed,
}

pub record Cue (F : Type 0) : Type 0 where
  pub line : Text
  pub timing : Timing F
  pub text : List Text

pub record Block (F : Type 0) : Type 0 where
  pub intro : List Text
  pub cue : Option (Cue F)
  pub blank : Text

module _ {F : Type 0} where
  abbrev pub cue_lines : Option (Cue F) → List Text
  cue_lines none = []
  cue_lines (some cue) = cue.line ∷ cue.text

  unfoldable pub document : List (Block F) → List Text → List Text
  document [] rest = rest
  document (b ∷ blocks) rest = b.intro ++ (cue_lines b.cue ++ b.blank ∷ document blocks rest)

abbrev IsBlank : Text → Type 0
IsBlank line = is_empty (trim line) ≡ true

abbrev Visible : Text → Type 0
Visible line = is_empty (trim line) ≡ false

module _ (platform : Platform) where
  open platform use {F64, le, zero_seconds}

  -- Lines that are not blank and carry no times.
  abbrev pub AllPlain : List Text → Type 0
  AllPlain [] = Unit
  AllPlain (line ∷ rest) = Visible line × (parse_cue_timing platform line ≡ none) × AllPlain rest

  abbrev pub IsCue : Option (Cue F64) → Type 0
  IsCue none = Unit
  IsCue (some cue) =
      Visible cue.line × (parse_cue_timing platform cue.line ≡ some cue.timing) × AllPlain cue.text

  abbrev pub AllBlocks : List (Block F64) → Type 0
  AllBlocks [] = Unit
  AllBlocks (b ∷ blocks) = AllPlain b.intro × IsCue b.cue × IsBlank b.blank × AllBlocks blocks

  -- A cue that is over is left out with its block; another keeps its lines under new times.
  abbrev pub shifted_block : F64 → List Text → Option (Cue F64) → List Text
  shifted_block seconds intro none = intro ++ [] ∷ []
  shifted_block seconds intro (some cue) =
      if is_over platform seconds cue.timing
      then []
      else intro ++ retimed platform seconds cue.timing ∷ (cue.text ++ [] ∷ [])

  unfoldable pub shifted : F64 → List (Block F64) → List Text → List Text
  shifted seconds [] rest = rest
  shifted seconds (b ∷ blocks) rest =
      shifted_block seconds b.intro b.cue ++ shifted seconds blocks rest

  abbrev kept : List Text → Shifting
  kept pending = record { pending = pending; dropping = false }

  abbrev dropped : Shifting
  dropped = record { pending = []; dropping = true }

  plain_line :
      (seconds : F64) (pending rest : List Text) (line : Text)
      → Visible line
      → parse_cue_timing platform line ≡ none
      → shift_lines platform seconds (kept pending) (line ∷ rest)
        ≡ shift_lines platform seconds (kept (pending ++ line ∷ [])) rest
  unfolding shift_lines shift_line shift_timing
  plain_line seconds pending rest line v plain = simp (v, plain)

  plain_lines :
      (seconds : F64) (pending ls rest : List Text)
      → AllPlain ls
      → shift_lines platform seconds (kept pending) (ls ++ rest)
        ≡ shift_lines platform seconds (kept (pending ++ ls)) rest
  plain_lines seconds pending [] rest h = rw (append-nil pending) refl
  plain_lines seconds pending (line ∷ ls) rest (v, plain, h) =
      plain_line seconds pending (ls ++ rest) line v plain
      ∙ (plain_lines seconds (pending ++ line ∷ []) ls rest h
          ∙ ap (λ p. shift_lines platform seconds (kept p) rest)
              (append_assoc pending (line ∷ []) ls))

  dropped_lines :
      (seconds : F64) (ls rest : List Text)
      → AllPlain ls
      → shift_lines platform seconds dropped (ls ++ rest)
        ≡ shift_lines platform seconds dropped rest
  unfolding shift_lines shift_line
  dropped_lines seconds [] rest h = refl
  dropped_lines seconds (line ∷ ls) rest (v, plain, h) = simp (v, dropped_lines seconds ls rest h)

  blank_line :
      (seconds : F64) (pending rest : List Text) (blank : Text)
      → IsBlank blank
      → shift_lines platform seconds (kept pending) (blank ∷ rest)
        ≡ (pending ++ [] ∷ []) ++ shift_lines platform seconds fresh rest
  unfolding shift_lines shift_line
  blank_line seconds pending rest blank h = simp h

  dropped_blank :
      (seconds : F64) (rest : List Text) (blank : Text)
      → IsBlank blank
      → shift_lines platform seconds dropped (blank ∷ rest)
        ≡ shift_lines platform seconds fresh rest
  unfolding shift_lines shift_line
  dropped_blank seconds rest blank h = simp h

  cue_over :
      (seconds : F64) (pending rest : List Text) (cue : Cue F64)
      → IsCue (some cue)
      → is_over platform seconds cue.timing ≡ true
      → shift_lines platform seconds (kept pending) (cue.line ∷ rest)
        ≡ shift_lines platform seconds dropped rest
  unfolding shift_lines shift_line shift_timing
  cue_over seconds pending rest cue (v, times, plain) over = simp (v, times, over)

  cue_kept :
      (seconds : F64) (pending rest : List Text) (cue : Cue F64)
      → IsCue (some cue)
      → is_over platform seconds cue.timing ≡ false
      → shift_lines platform seconds (kept pending) (cue.line ∷ rest)
        ≡ (pending ++ retimed platform seconds cue.timing ∷ [])
          ++ shift_lines platform seconds fresh rest
  unfolding shift_lines shift_line shift_timing
  cue_kept seconds pending rest cue (v, times, plain) later = simp (v, times, later)

  shift_cue :
      (seconds : F64) (pending rest : List Text) (cue : Option (Cue F64)) (blank : Text)
      → IsCue cue
      → IsBlank blank
      → shift_lines platform seconds (kept pending) (cue_lines cue ++ blank ∷ rest)
        ≡ shifted_block seconds pending cue ++ shift_lines platform seconds fresh rest
  shift_cue seconds pending rest none blank c b = blank_line seconds pending rest blank b
  shift_cue seconds pending rest (some cue) blank c b =
      elim (Bool-cases (is_over platform seconds cue.timing)) [
        | inl over ↦ rw over (
            cue_over seconds pending _ cue c over
            ∙ (dropped_lines seconds cue.text (blank ∷ rest) c.2
                ∙ dropped_blank seconds rest blank b))
        | inr later ↦ rw later (
            cue_kept seconds pending _ cue c later
            ∙ (ap (λ ls. (pending ++ retimed platform seconds cue.timing ∷ []) ++ ls)
                  (plain_lines seconds [] cue.text (blank ∷ rest) c.2
                    ∙ blank_line seconds cue.text rest blank b)
                ∙ (append_assoc pending (retimed platform seconds cue.timing ∷ []) _
                    ∙ sym (
                        append_assoc pending
                          (retimed platform seconds cue.timing ∷ (cue.text ++ [] ∷ [])) _))))
      ]

  shift_blocks :
      (seconds : F64) (blocks : List (Block F64)) (rest : List Text)
      → AllBlocks blocks
      → shift_lines platform seconds fresh (document blocks rest)
        ≡ shifted seconds blocks (shift_lines platform seconds fresh rest)
  unfolding document shifted
  shift_blocks seconds [] rest h = refl
  shift_blocks seconds (b ∷ blocks) rest (intro, cue, blank, h) =
      plain_lines seconds [] b.intro _ intro
      ∙ (shift_cue seconds b.intro (document blocks rest) b.cue b.blank cue blank
          ∙ ap (λ s. shifted_block seconds b.intro b.cue ++ s) (shift_blocks seconds blocks rest h))

  -- The last lines of a document, which no blank line follows: a cue that is over is left out with
  -- the lines before it, another keeps its lines under new times.
  abbrev pub shifted_end : F64 → List Text → Option (Cue F64) → List Text
  shifted_end seconds intro none = intro
  shifted_end seconds intro (some cue) =
      if is_over platform seconds cue.timing
      then []
      else intro ++ retimed platform seconds cue.timing ∷ cue.text

  plain_end :
      (seconds : F64) (pending ls : List Text)
      → AllPlain ls
      → shift_lines platform seconds (kept pending) ls ≡ pending ++ ls
  plain_end seconds pending ls h =
      ap (shift_lines platform seconds (kept pending)) (sym (append-nil ls))
      ∙ (plain_lines seconds pending ls [] h ∙ unfold shift_lines flushed in refl)

  dropped_end :
      (seconds : F64) (ls : List Text) → AllPlain ls → shift_lines platform seconds dropped ls ≡ []
  dropped_end seconds ls h =
      ap (shift_lines platform seconds dropped) (sym (append-nil ls))
      ∙ (dropped_lines seconds ls [] h ∙ unfold shift_lines flushed in refl)

  shift_cue_end :
      (seconds : F64) (pending : List Text) (cue : Option (Cue F64))
      → IsCue cue
      → shift_lines platform seconds (kept pending) (cue_lines cue)
        ≡ shifted_end seconds pending cue
  shift_cue_end seconds pending none c = unfold shift_lines flushed in refl
  shift_cue_end seconds pending (some cue) c =
      elim (Bool-cases (is_over platform seconds cue.timing)) [
        | inl over ↦
            rw over (cue_over seconds pending _ cue c over ∙ dropped_end seconds cue.text c.2)
        | inr later ↦ rw later (
            cue_kept seconds pending _ cue c later
            ∙ (ap (λ ls. (pending ++ retimed platform seconds cue.timing ∷ []) ++ ls)
                  (plain_end seconds [] cue.text c.2)
                ∙ append_assoc pending (retimed platform seconds cue.timing ∷ []) cue.text))
      ]

  shift_end :
      (seconds : F64) (intro : List Text) (cue : Option (Cue F64))
      → AllPlain intro
      → IsCue cue
      → shift_lines platform seconds fresh (intro ++ cue_lines cue) ≡ shifted_end seconds intro cue
  shift_end seconds intro cue plain c =
      plain_lines seconds [] intro (cue_lines cue) plain ∙ shift_cue_end seconds intro cue c

  -- A document of blocks, and of a last part without a blank line behind it, which may be empty,
  -- re-timed for a stream that began some seconds in: the blocks whose cue is over by then are left
  -- out whole, and every other block is kept in its order, with the lines before and after the timing
  -- line as they were and the times of its cue moved; and so is the last part.
  pub shift_vtt_blocks :
      (text : Text) (seconds : F64) (blocks : List (Block F64)) (intro : List Text)
      (last : Option (Cue F64))
      → le seconds zero_seconds ≡ false
      → lines text ≡ document blocks (intro ++ cue_lines last)
      → AllBlocks blocks
      → AllPlain intro
      → IsCue last
      → shift_vtt platform text seconds
        ≡ push_lines (shifted seconds blocks (shifted_end seconds intro last))
  unfolding shift_vtt
  shift_vtt_blocks text seconds blocks intro last later read h plain c =
      rw (later, read)
        (ap push_lines (
          shift_blocks seconds blocks (intro ++ cue_lines last) h
          ∙ ap (λ ls. shifted seconds blocks ls) (shift_end seconds intro last plain c)))
