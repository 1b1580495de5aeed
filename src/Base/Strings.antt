-- ===== src/Base/Strings.antt =====
-- Text as a list of code points, with the `str` methods that the daemon calls.
use Prim.Native.Nat.{ℕ}
use Prim.Native.Char.{code}
use Prim.Native.String.{String}
use mathlib.Core.Path.{◌≡◌, refl, subst}
use mathlib.Core.Logic.{◌↔◌, ◌≢◌}
use mathlib.Core.Bool.{Bool, true, false, ◌&&◌, ◌||◌}
use mathlib.Core.List.{
  List, [], ◌∷◌, ◌++◌, reverse, reverse-cons, reverse-reverse, append-nil, append_assoc,
}
use mathlib.Core.Option.{Option, none, some}
use native.Mathlib.Omega.{arith}
use unicast.Base.Tests.{leb, ◌==◌, if◌then◌else◌}

abbrev pub Text : Type 0
Text = List ℕ

-- The code points of a literal.
abbrev pub codes : String → Text
codes String.[] = []
codes (String.◌∷◌ c s) = code c ∷ codes s

unfoldable pub eq_text : Text → Text → Bool
eq_text [] [] = true
eq_text [] (_ ∷ _) = false
eq_text (_ ∷ _) [] = false
eq_text (a ∷ s) (b ∷ t) = (a == b) && eq_text s t

pub eq_text_iff : (s t : Text) → (eq_text s t ≡ true) ↔ (s ≡ t)
unfolding eq_text
eq_text_iff [] [] = ground arith
eq_text_iff [] (b ∷ t) = ground arith
eq_text_iff (a ∷ s) [] = ground arith
eq_text_iff (a ∷ s) (b ∷ t) = ground (arith, eq_text_iff s t)

pub eq_text_refl : (s : Text) → eq_text s s ≡ true
eq_text_refl s = (eq_text_iff s s).1 refl

unfoldable pub is_empty : Text → Bool
is_empty [] = true
is_empty (_ ∷ _) = false

-- `char::is_whitespace`: the code points with the property White_Space.
unfoldable pub is_whitespace : ℕ → Bool
is_whitespace c =
    (leb 9 c && leb c 13)
    || c == 32
    || c == 133
    || c == 160
    || c == 5760
    || (leb 8192 c && leb c 8202)
    || c == 8232
    || c == 8233
    || c == 8239
    || c == 8287
    || c == 12288

-- `s.strip_prefix(p)`, with the prefix first.
unfoldable pub strip_prefix : Text → Text → Option Text
strip_prefix [] s = some s
strip_prefix (_ ∷ _) [] = none
strip_prefix (a ∷ p) (b ∷ s) = if a == b then strip_prefix p s else none

pub strip_prefix-append : (p s : Text) → strip_prefix p (p ++ s) ≡ some s
unfolding strip_prefix
strip_prefix-append [] s = refl
strip_prefix-append (a ∷ p) s = ground (arith, strip_prefix-append p s)

-- A stripped prefix was there.
pub strip_prefix-eq : (p s : Text) {r : Text} → strip_prefix p s ≡ some r → s ≡ p ++ r
unfolding strip_prefix
strip_prefix-eq [] s h = ground arith
strip_prefix-eq (a ∷ p) [] h = ground arith
strip_prefix-eq (a ∷ p) (b ∷ s) {r} h = ground (arith, strip_prefix-eq p s {r = r})

-- `s.strip_suffix(p)`.
unfoldable pub strip_suffix : Text → Text → Option Text
unfolding strip_prefix
strip_suffix p s = elim (strip_prefix (reverse p) (reverse s)) [
  | none ↦ none
  | some r ↦ some (reverse r)
]

-- `s.contains(c)` for a character.
unfoldable pub contains_char : ℕ → Text → Bool
contains_char c [] = false
contains_char c (a ∷ s) = a == c || contains_char c s

-- `s.contains(t)`.
unfoldable pub contains_text : Text → Text → Bool
unfolding strip_prefix
contains_text t [] = is_empty t
contains_text t (a ∷ s) = elim (strip_prefix t (a ∷ s)) [ none ↦ contains_text t s | some _ ↦ true ]

abbrev pub cons_first : ℕ → List Text → List Text
cons_first c [] = (c ∷ []) ∷ []
cons_first c (part ∷ parts) = (c ∷ part) ∷ parts

-- `s.split(c)`: never empty.
unfoldable pub split : ℕ → Text → List Text
split c [] = [] ∷ []
split c (a ∷ s) = let parts = split c s in if a == c then [] ∷ parts else cons_first a parts

abbrev pub cons_head : ℕ → Option (Text × Text) → Option (Text × Text)
cons_head c none = none
cons_head c (some (head, rest)) = some (c ∷ head, rest)

-- `s.split_once(c)`.
unfoldable pub split_once : ℕ → Text → Option (Text × Text)
split_once c [] = none
split_once c (a ∷ s) = if a == c then some ([], s) else cons_head a (split_once c s)

unfoldable pub trim_start : Text → Text
trim_start [] = []
trim_start (a ∷ s) = if is_whitespace a then trim_start s else a ∷ s

unfoldable pub trim_end : Text → Text
unfolding trim_start
trim_end s = reverse (trim_start (reverse s))

unfoldable pub trim : Text → Text
unfolding trim_end
trim s = trim_end (trim_start s)

abbrev pub push_word : Text → List Text → List Text
push_word [] words = words
push_word (c ∷ word) words = (c ∷ word) ∷ words

-- `s.split_whitespace()`, with the word being read.
unfoldable pub words_from : Text → Text → List Text
words_from word [] = push_word word []
words_from word (a ∷ s) =
    let closed = push_word word (words_from [] s) in
    let longer = words_from (word ++ a ∷ []) s in if is_whitespace a then closed else longer

unfoldable pub split_whitespace : Text → List Text
unfolding words_from is_whitespace
split_whitespace s = words_from [] s

-- No character of the text is `c`.
abbrev pub Lacks : ℕ → Text → Type 0
Lacks c [] = Unit
Lacks c (a ∷ s) = (a ≢ c) × Lacks c s

-- No character of the text is white space.
abbrev pub IsWord : Text → Type 0
IsWord [] = Unit
IsWord (a ∷ s) = (is_whitespace a ≡ false) × IsWord s

pub split-append : (c : ℕ) (s t : Text) → Lacks c s → split c (s ++ c ∷ t) ≡ s ∷ split c t
unfolding split
split-append c [] t h = ground arith
split-append c (a ∷ s) t h = ground (arith, split-append c s t)

pub split_whole : (c : ℕ) (s : Text) → Lacks c s → split c s ≡ s ∷ []
unfolding split
split_whole c [] h = refl
split_whole c (a ∷ s) h = ground (arith, split_whole c s)

pub split_once-append : (c : ℕ) (s t : Text) → Lacks c s → split_once c (s ++ c ∷ t) ≡ some (s, t)
unfolding split_once
split_once-append c [] t h = ground arith
split_once-append c (a ∷ s) t h = ground (arith, split_once-append c s t)

pub IsWord-append : (s t : Text) → IsWord s → IsWord t → IsWord (s ++ t)
IsWord-append [] t h k = k
IsWord-append (a ∷ s) t h k = (h.0, IsWord-append s t h.1 k)

IsWord-reverse : (s : Text) → IsWord s → IsWord (reverse s)
IsWord-reverse [] h = tt
IsWord-reverse (a ∷ s) h =
    rw (reverse-cons a s) (IsWord-append (reverse s) (a ∷ []) (IsWord-reverse s h.1) (h.0, tt))

trim_start_of_word : (s : Text) → IsWord s → trim_start s ≡ s
unfolding trim_start
trim_start_of_word [] h = refl
trim_start_of_word (a ∷ s) h = rw h.0

-- Trimming changes nothing where there is no white space.
pub trim_of_word : (s : Text) → IsWord s → trim s ≡ s
unfolding trim trim_end
trim_of_word s h =
    rw (
      trim_start_of_word s h,
      trim_start_of_word (reverse s) (IsWord-reverse s h),
      reverse-reverse s,
    )

words_from-word : (word s t : Text) → IsWord s → words_from word (s ++ t) ≡ words_from (word ++ s) t
unfolding words_from
words_from-word word [] t h = rw (append-nil word)
words_from-word word (a ∷ s) t h =
    rw (h.0, words_from-word (word ++ a ∷ []) s t h.1, append_assoc word (a ∷ []) s)

-- A word and the space after it are read off.
pub split_whitespace-append :
    (w t : Text) → IsWord w → w ≢ [] → split_whitespace (w ++ 32 ∷ t) ≡ w ∷ split_whitespace t
unfolding split_whitespace
split_whitespace-append [] t h n = absurd (n refl)
split_whitespace-append (a ∷ s) t h n = rw (words_from-word [] (a ∷ s) (32 ∷ t) h)

pub split_whitespace_word : (w : Text) → IsWord w → w ≢ [] → split_whitespace w ≡ w ∷ []
unfolding split_whitespace
split_whitespace_word [] h n = absurd (n refl)
split_whitespace_word (a ∷ s) h n =
    subst (λ w. words_from [] w ≡ (a ∷ s) ∷ []) (append-nil (a ∷ s))
      (words_from-word [] (a ∷ s) [] h)

pub append-ne-nil : (s t : Text) (c : ℕ) → s ++ c ∷ t ≢ []
append-ne-nil [] t c h = cc
append-ne-nil (a ∷ s) t c h = cc

unfoldable pub chop_cr : Text → Text
unfolding strip_suffix
chop_cr s = elim (strip_suffix (13 ∷ []) s) [ none ↦ s | some r ↦ r ]

lines_of_parts : List Text → List Text
lines_of_parts [] = []
lines_of_parts (last ∷ []) = if is_empty last then [] else last ∷ []
lines_of_parts (p ∷ q ∷ rest) = chop_cr p ∷ lines_of_parts (q ∷ rest)

-- `s.lines()`: only a line that ends in `\n` loses a `\r` before it.
unfoldable pub lines : Text → List Text
unfolding lines_of_parts split is_empty chop_cr
lines s = lines_of_parts (split 10 s)

-- `parts.join(sep)`.
unfoldable pub join : Text → List Text → Text
join sep [] = []
join sep (p ∷ []) = p
join sep (p ∷ q ∷ rest) = p ++ (sep ++ join sep (q ∷ rest))

-- `parts.contains(&s)`.
unfoldable pub mem_text : Text → List Text → Bool
mem_text s [] = false
mem_text s (p ∷ parts) = eq_text p s || mem_text s parts

-- `s.split_once(t)` for a text.
unfoldable pub split_once_text : Text → Text → Option (Text × Text)
unfolding strip_prefix
split_once_text t [] = elim (strip_prefix t []) [ none ↦ none | some r ↦ some ([], r) ]
split_once_text t (a ∷ s) = elim (strip_prefix t (a ∷ s)) [
  | none ↦ cons_head a (split_once_text t s)
  | some r ↦ some ([], r)
]

-- `s.trim_matches(c)` for a character.
unfoldable pub trim_start_char : ℕ → Text → Text
trim_start_char c [] = []
trim_start_char c (a ∷ s) = if a == c then trim_start_char c s else a ∷ s

unfoldable pub trim_char : ℕ → Text → Text
unfolding trim_start_char
trim_char c s = reverse (trim_start_char c (reverse (trim_start_char c s)))
