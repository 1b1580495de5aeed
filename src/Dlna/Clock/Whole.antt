-- ===== src/Dlna/Clock/Whole.antt =====
-- src/dlna.rs, src/util.rs: times of whole seconds.
use unicast.Base.{
  ℕ, ◌+◌, ◌-◌, ◌*◌, ◌/◌, ◌%◌, ◌≤◌, ◌<◌, zero, suc, true, Option, none, some, List, [], ◌∷◌, ◌++◌,
  Text, ◌≡◌, refl, ◌∙◌, ap, arith, Platform, replicate, length, print_nat, print_nat-IsDigits,
  IsDigits, IsDigits-append, IsWord, IsWord-append, IsWord-digits, Lacks, trim_of_word, split,
  split-append, split_whole, trim, is_whitespace,
}
use unicast.Subtitles.{pad}
use unicast.Daemon.Poll.{media_seconds}
use unicast.Dlna.Clock.{format_hms, hms, of_parts, sum_parts}

Lacks-colon : (s : Text) → IsDigits s → Lacks b':' s
Lacks-colon [] h = tt
Lacks-colon (a ∷ s) h = (omega arith, Lacks-colon s h.2)

zeros-IsDigits : (n : ℕ) → IsDigits (replicate n b'0')
zeros-IsDigits zero = tt
zeros-IsDigits (suc n) = (omega arith, omega arith, zeros-IsDigits n)

pad-IsDigits : (w n : ℕ) → IsDigits (pad w n)
unfolding pad
pad-IsDigits w n =
    IsDigits-append (replicate (w - length (print_nat n)) b'0') (print_nat n) (zeros-IsDigits _)
      (print_nat-IsDigits n)

-- The text of a time, from its parts.
clock : Text → Text → Text → Text
clock a b c = a ++ (b':' ∷ (b ++ (b':' ∷ c)))

clock-IsWord : (a b c : Text) → IsDigits a → IsDigits b → IsDigits c → IsWord (clock a b c)
unfolding clock is_whitespace
clock-IsWord a b c h k l =
    IsWord-append a _ (IsWord-digits a h)
      (refl, IsWord-append b _ (IsWord-digits b k) (refl, IsWord-digits c l))

split-clock :
    (a b c : Text)
    → IsDigits a
    → IsDigits b
    → IsDigits c
    → split b':' (trim (clock a b c)) ≡ a ∷ b ∷ c ∷ []
unfolding clock
split-clock a b c h k l =
    ap (split b':') (trim_of_word _ (clock-IsWord a b c h k l))
    ∙ (split-append b':' a _ (Lacks-colon a h)
        ∙ ap (λ parts. a ∷ parts)
            (split-append b':' b c (Lacks-colon b k)
              ∙ ap (λ parts. b ∷ parts) (split_whole b':' c (Lacks-colon c l))))

module _ (platform : Platform) where
  open platform use {
    F64, zero_seconds, max_media_seconds, is_finite, le, max_of, div, rem, of_nat, floor_u64,
    sexagesimal, parse_f64,
  }

  -- An `f64` holds the whole numbers up to 1000000 and computes with them exactly, and parses the
  -- digits of one.
  pub record Exact : Type 0 where
    pub zero_is : zero_seconds ≡ of_nat 0
    pub not_negative : (n : ℕ) → max_of (of_nat n) zero_seconds ≡ of_nat n
    pub quotient : (n d : ℕ) → n ≤ 1000000 → 0 < d → floor_u64 (div (of_nat n) (of_nat d)) ≡ n / d
    pub remainder : (n d : ℕ) → n ≤ 1000000 → 0 < d → rem (of_nat n) (of_nat d) ≡ of_nat (n % d)
    pub whole : (n : ℕ) → n ≤ 1000000 → floor_u64 (of_nat n) ≡ n
    pub sum :
        (m n : ℕ) → m * 60 + n ≤ 1000000 → sexagesimal (of_nat m) (of_nat n) ≡ of_nat (m * 60 + n)
    pub digits : (n : ℕ) → n ≤ 1000000 → parse_f64 (pad 2 n) ≡ some (of_nat n)
    pub finite : (n : ℕ) → n ≤ 1000000 → is_finite (of_nat n) ≡ true
    pub above_zero : (n : ℕ) → le zero_seconds (of_nat n) ≡ true
    pub below_max : (n : ℕ) → n ≤ 1000000 → le (of_nat n) max_media_seconds ≡ true

  sum_parts-some :
      (seconds : F64) (part : Text) (parts : List Text) {number : F64}
      → parse_f64 part ≡ some number
      → sum_parts platform seconds (part ∷ parts)
        ≡ sum_parts platform (sexagesimal seconds number) parts
  unfolding sum_parts
  sum_parts-some seconds part parts e =
      ap
        (λ (o : Option F64). elim o as (λ k. F64) [
          | none ↦ zero_seconds
          | some number ↦ sum_parts platform (sexagesimal seconds number) parts
        ])
        e

  plausible : (n : ℕ) → Exact → n ≤ 1000000 → media_seconds platform (of_nat n) ≡ of_nat n
  unfolding media_seconds
  plausible n exact fits =
      simp (exact.finite n fits, exact.above_zero n, exact.below_max n fits) refl

  -- A time of whole seconds, in its parts.
  format_hms_whole :
      (n : ℕ)
      → Exact
      → n ≤ 1000000
      → format_hms platform (of_nat n)
        ≡ clock (pad 2 (n / 3600)) (pad 2 (n % 3600 / 60)) (pad 2 (n % 60))
  unfolding format_hms clock
  format_hms_whole n exact fits =
      simp
        (
          exact.not_negative n,
          exact.quotient n 3600 fits (omega arith),
          exact.remainder n 3600 fits (omega arith),
          exact.quotient (n % 3600) 60 (omega arith) (omega arith),
          exact.remainder n 60 fits (omega arith),
          exact.whole (n % 60) (omega arith),
        )
        refl

  sum_clock :
      (a b c n : ℕ)
      → Exact
      → n ≤ 1000000
      → (a * 60 + b) * 60 + c ≡ n
      → sum_parts platform zero_seconds (pad 2 a ∷ pad 2 b ∷ pad 2 c ∷ []) ≡ of_nat n
  unfolding sum_parts
  sum_clock a b c n exact fits total =
      let hours : sexagesimal zero_seconds (of_nat a) ≡ of_nat a =
        ap (λ z. sexagesimal z (of_nat a)) exact.zero_is
        ∙ (exact.sum 0 a (omega arith) ∙ ap of_nat (omega arith)) in
      let minutes : sexagesimal (sexagesimal zero_seconds (of_nat a)) (of_nat b)
          ≡ of_nat (a * 60 + b) =
        ap (λ z. sexagesimal z (of_nat b)) hours ∙ exact.sum a b (omega arith) in
      let seconds =
        ap (λ z. sexagesimal z (of_nat c)) minutes
        ∙ (exact.sum (a * 60 + b) c (omega arith) ∙ ap of_nat total) in
      sum_parts-some zero_seconds (pad 2 a) (pad 2 b ∷ pad 2 c ∷ []) (exact.digits a (omega arith))
      ∙ (sum_parts-some _ (pad 2 b) (pad 2 c ∷ []) (exact.digits b (omega arith))
          ∙ (sum_parts-some _ (pad 2 c) [] (exact.digits c (omega arith))
              ∙ (ap (media_seconds platform) seconds ∙ plausible n exact fits)))

  -- The time that a seek of whole seconds, up to the largest plausible position, names to a renderer
  -- is read back as that number where the renderer reports it; `f64` is taken to compute exactly with
  -- whole numbers up to there.
  pub hms-format_hms :
      (n : ℕ) → Exact → n ≤ 1000000 → hms platform (format_hms platform (of_nat n)) ≡ of_nat n
  unfolding hms of_parts
  hms-format_hms n exact fits =
      let h = pad-IsDigits 2 (n / 3600) in
      let m = pad-IsDigits 2 (n % 3600 / 60) in
      let s = pad-IsDigits 2 (n % 60) in
      ap (hms platform) (format_hms_whole n exact fits)
      ∙ (ap (of_parts platform) (split-clock _ _ _ h m s)
          ∙ sum_clock (n / 3600) (n % 3600 / 60) (n % 60) n exact fits (omega arith))
