-- ===== src/Base/Host.antt =====
-- What the daemon calls of `f64`, of Unicode tables and of the crate percent-encoding, as an
-- interface. Nothing is assumed of it but what a theorem states.
use Prim.Native.Nat.{ℕ}
use mathlib.Core.Bool.{Bool}
use mathlib.Core.Option.{Option}
use unicast.Base.Strings.{Text}

pub record Platform : Type 1 where
  pub F64 : Type 0
  -- the literal `0.0`, and `util::MAX_MEDIA_SECONDS`
  pub zero_seconds : F64
  pub max_media_seconds : F64
  pub is_finite : F64 → Bool
  -- the comparisons `<` and `<=`, false where an operand is NaN
  pub lt : F64 → F64 → Bool
  pub le : F64 → F64 → Bool
  pub add : F64 → F64 → F64
  pub sub : F64 → F64 → F64
  pub div : F64 → F64 → F64
  pub min_of : F64 → F64 → F64
  pub max_of : F64 → F64 → F64
  -- a whole number as an `f64` literal, `x % y` and `x.floor() as u64`
  pub of_nat : ℕ → F64
  pub rem : F64 → F64 → F64
  pub floor_u64 : F64 → ℕ
  -- `x * 60.0 + y`
  pub sexagesimal : F64 → F64 → F64
  -- `(x.max(0.0) * 1000.0).round() as u64`
  pub total_ms : F64 → ℕ
  pub clamp_unit : F64 → F64
  -- `(x * 1000.0).floor() / 1000.0`
  pub floor_ms : F64 → F64
  -- `x * 100.0`, and `x as f32`
  pub hundredfold : F64 → F64
  pub to_f32 : F64 → F64
  -- `x.round().clamp(0.0, 100.0) as i32`
  pub percent : F64 → ℕ
  pub parse_f64 : Text → Option F64
  -- `{x}` and `{x:.3}`
  pub show_f64 : F64 → Text
  pub show_ms : F64 → Text
  -- `char::is_alphanumeric`, and `char::to_uppercase`
  pub is_alphanumeric : ℕ → Bool
  pub to_uppercase : ℕ → Text
  -- `str::to_lowercase`, and `utf8_percent_encode` with `NON_ALPHANUMERIC`
  pub to_lowercase : Text → Text
  pub percent_encode : Text → Text
