-- ===== src/Base/Decimal.antt =====
-- Decimal numbers: `{}` of an unsigned integer and `parse` into one.
use Prim.Native.Nat.{ℕ, zero, suc, ◌+◌, ◌-◌, ◌*◌, ◌/◌, ◌%◌, ◌≤◌, ◌<◌}
use mathlib.Core.Path.{◌≡◌, refl, ap, ◌∙◌}
use mathlib.Core.Logic.{inl, inr, ◌≢◌}
use mathlib.Core.Bool.{◌&&◌, false}
use mathlib.Core.List.{[], ◌∷◌, ◌++◌}
use mathlib.Core.Option.{Option, none, some}
use native.Mathlib.Omega.{arith}
use unicast.Base.Tests.{ltb, leb, ◌==◌, if◌then◌else◌, Bool-cases, Option-cases}
use unicast.Base.Lists.{replicate}
use unicast.Base.Strings.{Text, Lacks, IsWord, is_whitespace}

print_digits : ℕ → ℕ → Text
print_digits zero n = []
print_digits (suc fuel) n =
    let front = print_digits fuel (n / 10) in
    if ltb n 10 then (n + 48) ∷ [] else front ++ (n % 10 + 48) ∷ []

-- A number has fewer digits than its successor, so the fuel does not run out.
unfoldable pub print_nat : ℕ → Text
unfolding print_digits
print_nat n = print_digits (suc n) n

-- One more digit, refused when the value passes `max`.
push_digit : ℕ → ℕ → ℕ → Option ℕ
push_digit max v c =
    if leb 48 c && leb c 57 && leb (v * 10 + (c - 48)) max then some (v * 10 + (c - 48)) else none

parse_from : ℕ → ℕ → Text → Option ℕ
parse_from max v [] = some v
parse_from max v (c ∷ s) = elim (push_digit max v c) [ none ↦ none | some w ↦ parse_from max w s ]

-- At least one digit, and nothing but digits.
unfoldable pub parse_digits : ℕ → Text → Option ℕ
unfolding parse_from push_digit
parse_digits max [] = none
parse_digits max (c ∷ s) = parse_from max 0 (c ∷ s)

-- `s.parse()` into an unsigned integer of largest value `max`: a leading `+` is accepted.
unfoldable pub parse_uint : ℕ → Text → Option ℕ
unfolding parse_digits
parse_uint max [] = none
parse_uint max (c ∷ s) = if c == b'+' then parse_digits max s else parse_digits max (c ∷ s)

abbrev pub u8_max : ℕ
u8_max = 255

abbrev pub u16_max : ℕ
u16_max = 65535

abbrev pub u32_max : ℕ
u32_max = 4294967295

abbrev pub u64_max : ℕ
u64_max = 18446744073709551615

abbrev pub IsDigits : Text → Type 0
IsDigits [] = Unit
IsDigits (c ∷ s) = (48 ≤ c) × (c ≤ 57) × IsDigits s

pub IsDigits-append : (s t : Text) → IsDigits s → IsDigits t → IsDigits (s ++ t)
IsDigits-append [] t h k = k
IsDigits-append (c ∷ s) t h k = (h.0, h.1, IsDigits-append s t h.2 k)

print_digits-IsDigits : (fuel n : ℕ) → IsDigits (print_digits fuel n)
unfolding print_digits
print_digits-IsDigits zero n = tt
print_digits-IsDigits (suc fuel) n = elim (Bool-cases (ltb n 10)) [
  | inl e ↦ rw e (ground arith)
  | inr e ↦ rw e (
      IsDigits-append (print_digits fuel (n / 10)) _ (print_digits-IsDigits fuel (n / 10))
        (omega arith))
]

pub print_nat-IsDigits : (n : ℕ) → IsDigits (print_nat n)
unfolding print_nat
print_nat-IsDigits n = print_digits-IsDigits (suc n) n

pub Lacks-digits : (c : ℕ) (s : Text) → c < 48 → IsDigits s → Lacks c s
Lacks-digits c [] l h = tt
Lacks-digits c (a ∷ s) l h = (omega arith, Lacks-digits c s l h.2)

pub IsWord-digits : (s : Text) → IsDigits s → IsWord s
IsWord-digits [] h = tt
IsWord-digits (a ∷ s) h = (digit_not_space a h.0 h.1, IsWord-digits s h.2)
  where
    digit_not_space : (a : ℕ) → 48 ≤ a → a ≤ 57 → is_whitespace a ≡ false
    digit_not_space a l u = unfold is_whitespace in ground arith

parse_from-append :
    (max v : ℕ) (s : Text) (c w : ℕ)
    → parse_from max v s ≡ some w
    → parse_from max v (s ++ c ∷ []) ≡ push_digit max w c
unfolding parse_from
parse_from-append max v [] c w h = ground arith
parse_from-append max v (a ∷ s) c w h = elim (Option-cases (push_digit max v a)) [
  | inl e ↦ ground arith
  | inr (x, e) ↦ ground (arith, parse_from-append max x s c w)
]

parse_from-print_digits :
    (max fuel n : ℕ) → n < fuel → n ≤ max → parse_from max 0 (print_digits fuel n) ≡ some n
unfolding print_digits
parse_from-print_digits max zero n l b = absurd (omega arith)
parse_from-print_digits max (suc fuel) n l b = elim (Bool-cases (ltb n 10)) [
  | inl e ↦ rw e (unfold parse_from push_digit in ground arith)
  | inr e ↦ rw e (
      parse_from-append max 0 (print_digits fuel (n / 10)) (n % 10 + 48) (n / 10)
        (parse_from-print_digits max fuel (n / 10) (ground arith) (omega arith))
      ∙ push_last max n b)
]
  where
    push_last : (max n : ℕ) → n ≤ max → push_digit max (n / 10) (n % 10 + 48) ≡ some n
    push_last max n b = unfold push_digit in ground arith

parse_uint_of_digits :
    (max : ℕ) (s : Text) {n : ℕ}
    → IsDigits s
    → s ≢ []
    → parse_from max 0 s ≡ some n
    → parse_uint max s ≡ some n
unfolding parse_uint
parse_uint_of_digits max [] d e h = absurd (e refl)
parse_uint_of_digits max (c ∷ s) d e h = ground arith

print_digits-ne-nil : (fuel n : ℕ) → print_digits (suc fuel) n ≢ []
unfolding print_digits
print_digits-ne-nil fuel n = elim (Bool-cases (ltb n 10)) [
  | inl e ↦ rw e (λ h. cc)
  | inr e ↦ rw e (append-ne-nil (print_digits fuel (n / 10)) _)
]
  where
    append-ne-nil : (s : Text) (c : ℕ) → s ++ c ∷ [] ≢ []
    append-ne-nil [] c h = cc
    append-ne-nil (a ∷ s) c h = cc

pub print_nat-ne-nil : (n : ℕ) → print_nat n ≢ []
unfolding print_nat
print_nat-ne-nil n = print_digits-ne-nil n n

-- A printed number parses back, where it fits.
pub parse_uint-print_nat : (max n : ℕ) → n ≤ max → parse_uint max (print_nat n) ≡ some n
unfolding print_nat
parse_uint-print_nat max n b =
    parse_uint_of_digits max (print_digits (suc n) n) (print_digits-IsDigits (suc n) n)
      (print_digits-ne-nil n n) (parse_from-print_digits max (suc n) n (omega arith) b)

parse_from-zeros :
    (max k : ℕ) (s : Text) → parse_from max 0 (replicate k b'0' ++ s) ≡ parse_from max 0 s
unfolding parse_from
parse_from-zeros max zero s = refl
parse_from-zeros max (suc k) s =
    let zero_kept : push_digit max 0 b'0' ≡ some 0 = unfold push_digit in ground arith in
    ap
      (λ (o : Option ℕ). elim o as (λ k. Option ℕ) [
        | none ↦ none
        | some w ↦ parse_from max w (replicate k b'0' ++ s)
      ])
      zero_kept
    ∙ parse_from-zeros max k s

IsDigits-zeros : (k : ℕ) (s : Text) → IsDigits s → IsDigits (replicate k b'0' ++ s)
IsDigits-zeros zero s h = h
IsDigits-zeros (suc k) s h = (omega arith, omega arith, IsDigits-zeros k s h)

-- Zeros in front of a printed number are read over.
pub parse_uint-zeros :
    (max k n : ℕ) → n ≤ max → parse_uint max (replicate k b'0' ++ print_nat n) ≡ some n
unfolding print_nat
parse_uint-zeros max k n b =
    parse_uint_of_digits max (replicate k b'0' ++ print_digits (suc n) n)
      (IsDigits-zeros k _ (print_digits-IsDigits (suc n) n)) (some_text k)
      (parse_from-zeros max k _ ∙ parse_from-print_digits max (suc n) n (omega arith) b)
  where
    some_text : (k : ℕ) → replicate k b'0' ++ print_digits (suc n) n ≢ []
    some_text zero h = print_digits-ne-nil n n h
    some_text (suc k) h = cc

parse_from_le : (max v : ℕ) (s : Text) {n : ℕ} → v ≤ max → parse_from max v s ≡ some n → n ≤ max
unfolding parse_from
parse_from_le max v [] b h = ground arith
parse_from_le max v (c ∷ s) {n} b h = elim (Option-cases (push_digit max v c)) [
  | inl e ↦ ground arith
  | inr (x, e) ↦ parse_from_le max x s {n = n} (pushed_le e) (ground arith)
]
  where
    pushed_le : {x : ℕ} → push_digit max v c ≡ some x → x ≤ max
    pushed_le e = unfold push_digit in ground arith

pub parse_digits_le : (max : ℕ) (s : Text) {n : ℕ} → parse_digits max s ≡ some n → n ≤ max
unfolding parse_digits
parse_digits_le max [] h = ground arith
parse_digits_le max (c ∷ s) {n} h = parse_from_le max 0 (c ∷ s) {n = n} (omega arith) h

-- What is parsed fits.
pub parse_uint_le : (max : ℕ) (s : Text) {n : ℕ} → parse_uint max s ≡ some n → n ≤ max
unfolding parse_uint
parse_uint_le max [] h = ground arith
parse_uint_le max (c ∷ s) {n} h = elim (Bool-cases (c == b'+')) [
  | inl e ↦ parse_digits_le max s {n = n} (rw e at h)
  | inr e ↦ parse_digits_le max (c ∷ s) {n = n} (rw e at h)
]
