-- ===== src/Server/Range.antt =====
-- src/media_server.rs: the `Range` header. Sizes and positions are `u64`.
use unicast.Base.{
  ℕ, ◌-◌, ◌≤◌, ◌≡◌, refl, true, false, Option, none, some, [], ◌∷◌, ◌++◌, Text, arith, leb,
  if◌then◌else◌, is_empty, split_once, split_once-append, parse_uint, parse_uint-print_nat,
  print_nat, print_nat-IsDigits, print_nat-ne-nil, Lacks-digits, u64_max, ◌≢◌,
}

low_high : Option ℕ → Option ℕ → Option (ℕ × ℕ)
low_high (some low) (some high) = if leb low high then some (low, high) else none
low_high _ _ = none

from_low : Option ℕ → ℕ → Option (ℕ × ℕ)
from_low none size = none
from_low (some low) size = some (low, size - 1)

last_bytes : Option ℕ → ℕ → Option (ℕ × ℕ)
last_bytes none size = none
last_bytes (some suffix) size = some (size - suffix, size - 1)

-- `size.saturating_sub(n)` is subtraction on ℕ, which stops at 0.
range_parts : Option (Text × Text) → ℕ → Option (ℕ × ℕ)
range_parts none size = none
range_parts (some (first, second)) size =
    if is_empty first
    then last_bytes (parse_uint u64_max second) size
    else (if is_empty second
        then from_low (parse_uint u64_max first) size
        else low_high (parse_uint u64_max first) (parse_uint u64_max second))

unfoldable pub parse_range : Text → ℕ → Option (ℕ × ℕ)
unfolding range_parts low_high from_low last_bytes
parse_range spec size = range_parts (split_once b'-' spec) size

-- The three forms of a range specification in RFC 9110.
pub data Spec : Type 0 where
  between : ℕ → ℕ → Spec
  from : ℕ → Spec
  suffix : ℕ → Spec

unfoldable pub show_spec : Spec → Text
show_spec (between low high) = print_nat low ++ (b'-' ∷ print_nat high)
show_spec (from low) = print_nat low ++ (b'-' ∷ [])
show_spec (suffix n) = b'-' ∷ print_nat n

-- What each form asks of a file of `size` bytes.
abbrev pub meaning : Spec → ℕ → Option (ℕ × ℕ)
meaning (between low high) size = if leb low high then some (low, high) else none
meaning (from low) size = some (low, size - 1)
meaning (suffix n) size = some (size - n, size - 1)

abbrev pub FitsU64 : Spec → Type 0
FitsU64 (between low high) = (low ≤ u64_max) × (high ≤ u64_max)
FitsU64 (from low) = low ≤ u64_max
FitsU64 (suffix n) = n ≤ u64_max

not_empty : (s : Text) → s ≢ [] → is_empty s ≡ false
unfolding is_empty
not_empty [] h = absurd (h refl)
not_empty (c ∷ s) h = refl

split-number :
    (n : ℕ) (rest : Text) → split_once b'-' (print_nat n ++ b'-' ∷ rest) ≡ some (print_nat n, rest)
split-number n rest =
    split_once-append b'-' (print_nat n) rest
      (Lacks-digits b'-' (print_nat n) (omega arith) (print_nat-IsDigits n))

split-dash : (s : Text) → split_once b'-' (b'-' ∷ s) ≡ some ([], s)
unfolding split_once
split-dash s = refl

nil_empty : is_empty [] ≡ true
unfolding is_empty
nil_empty = refl

-- Each form of a range, as a client writes it, is read with its meaning.
pub parse_range-show_spec :
    (spec : Spec) (size : ℕ) → FitsU64 spec → parse_range (show_spec spec) size ≡ meaning spec size
unfolding parse_range show_spec
parse_range-show_spec (between low high) size h = rw (
  split-number low (print_nat high),
  not_empty (print_nat low) (print_nat-ne-nil low),
  not_empty (print_nat high) (print_nat-ne-nil high),
  parse_uint-print_nat u64_max low h.0,
  parse_uint-print_nat u64_max high h.1,
)
parse_range-show_spec (from low) size h = rw (
  split-number low [],
  not_empty (print_nat low) (print_nat-ne-nil low),
  parse_uint-print_nat u64_max low h,
  nil_empty,
)
parse_range-show_spec (suffix n) size h =
    rw (split-dash (print_nat n), nil_empty, parse_uint-print_nat u64_max n h)
