-- ===== src/Sample.antt =====
-- A platform for concrete inputs, where a number of seconds is a natural number.
use unicast.Base.{
  ℕ, ◌+◌, ◌-◌, ◌*◌, ◌/◌, ◌%◌, min, max, true, ltb, leb, print_nat, parse_uint, u64_max, Platform,
  ◌&&◌, ◌∷◌, [],
}

abbrev pub platform : Platform
platform = record {
  F64 = ℕ;
  zero_seconds = 0;
  max_media_seconds = 1000000000;
  is_finite = λ x. true;
  lt = ltb;
  le = leb;
  add = λ x y. x + y;
  sub = λ x y. x - y;
  div = λ x y. x / y;
  min_of = min;
  max_of = max;
  of_nat = λ n. n;
  rem = λ x y. x % y;
  floor_u64 = λ x. x;
  sexagesimal = λ x y. x * 60 + y;
  total_ms = λ x. x * 1000;
  clamp_unit = λ x. min x 1000;
  floor_ms = λ x. x;
  hundredfold = λ x. x * 100;
  to_f32 = λ x. x;
  percent = λ x. min (x / 1000) 100;
  parse_f64 = parse_uint u64_max;
  show_f64 = print_nat;
  show_ms = print_nat;
  is_alphanumeric = λ c. leb 48 c && leb c 122;
  to_uppercase = λ c. c ∷ [];
  to_lowercase = λ s. s;
  percent_encode = λ s. s;
}
