-- ===== src/Server/Access.antt =====
-- src/media_server.rs: who is answered. `handle` checks the peer, then the token, and only then
-- looks at the method and the path.
use Prim.Native.Nat.{bit_or, bit_xor}
use unicast.Base.{
  holds_below, holds_below-at, ℕ, ◌<◌, ◌≡◌, refl, ◌≢◌, ◌↔◌, Bool, true, false, not, ◌&&◌, List, [],
  ◌∷◌, arith, ◌==◌, if◌then◌else◌, length, eq_text, eq_text_iff, ltb, ap, inl, inr, Bool-cases,
}

-- The loop of `constant_time_eq`, over the bytes of both tokens.
difference_from : ℕ → List ℕ → List ℕ → ℕ
difference_from d [] _ = d
difference_from d (_ ∷ _) [] = d
difference_from d (a ∷ left) (b ∷ right) = difference_from (bit_or d (bit_xor a b)) left right

unfoldable pub constant_time_eq : List ℕ → List ℕ → Bool
unfolding difference_from
constant_time_eq left right =
    if length left == length right then difference_from 0 left right == 0 else false

abbrev pub AllBytes : List ℕ → Type 0
AllBytes [] = Unit
AllBytes (a ∷ s) = (a < 256) × AllBytes s

same_bool : Bool → Bool → Bool
same_bool true b = b
same_bool false b = not b

-- Over bytes `|` is zero where both sides are, and `^` where they agree; both give bytes.
or_cell : ℕ → ℕ → Bool
unfolding same_bool
or_cell d x = same_bool (bit_or d x == 0) (d == 0 && x == 0) && ltb (bit_or d x) 256

xor_cell : ℕ → ℕ → Bool
unfolding same_bool
xor_cell a b = same_bool (bit_xor a b == 0) (a == b) && ltb (bit_xor a b) 256

or_row : ℕ → Bool
unfolding holds_below or_cell
or_row d = holds_below (or_cell d) 256

xor_row : ℕ → Bool
unfolding holds_below xor_cell
xor_row a = holds_below (xor_cell a) 256

or_table : holds_below or_row 256 ≡ true
unfolding holds_below or_row
or_table = refl

xor_table : holds_below xor_row 256 ≡ true
unfolding holds_below xor_row
xor_table = refl

or_zero :
    (d x : ℕ) → d < 256 → x < 256 → (bit_or d x < 256) × ((bit_or d x == 0) ≡ (d == 0 && x == 0))
or_zero d x hd hx =
    let row = holds_below-at or_row 256 d hd or_table in
    let cell = holds_below-at (or_cell d) 256 x hx (unfold or_row in row) in
    unfold or_cell in ground arith

xor_zero : (a b : ℕ) → a < 256 → b < 256 → (bit_xor a b < 256) × ((bit_xor a b == 0) ≡ (a == b))
xor_zero a b ha hb =
    let row = holds_below-at xor_row 256 a ha xor_table in
    let cell = holds_below-at (xor_cell a) 256 b hb (unfold xor_row in row) in
    unfold xor_cell in ground arith

difference-eq_text :
    (d : ℕ) (left right : List ℕ)
    → d < 256
    → AllBytes left
    → AllBytes right
    → length left ≡ length right
    → (difference_from d left right == 0) ≡ (d == 0 && eq_text left right)
unfolding difference_from eq_text
difference-eq_text d [] [] hd hl hr same = ground arith
difference-eq_text d [] (b ∷ right) hd hl hr same = absurd (omega arith)
difference-eq_text d (a ∷ left) [] hd hl hr same = absurd (omega arith)
difference-eq_text d (a ∷ left) (b ∷ right) hd hl hr same =
    let (xor_byte, xor_eq) = xor_zero a b hl.0 hr.0 in
    let (or_byte, or_eq) = or_zero d (bit_xor a b) hd xor_byte in
    let ih =
      difference-eq_text (bit_or d (bit_xor a b)) left right or_byte hl.1 hr.1 (omega arith) in
    rw (ih, or_eq, xor_eq) (and_assoc (d == 0) (a == b) (eq_text left right))
  where
    and_assoc : (x y z : Bool) → ((x && y) && z) ≡ (x && (y && z))
    and_assoc true y z = refl
    and_assoc false y z = refl

lengths_of_eq : (left right : List ℕ) → (length left == length right) ≡ false → left ≢ right
lengths_of_eq left right h e = let same : length left ≡ length right = ap length e in ground arith

-- The comparison in constant time accepts a token exactly when it is the token.
pub constant_time_eq_iff :
    (left right : List ℕ)
    → AllBytes left
    → AllBytes right
    → (constant_time_eq left right ≡ true) ↔ (left ≡ right)
unfolding constant_time_eq
constant_time_eq_iff left right hl hr = elim (Bool-cases (length left == length right)) [
  | inr e ↦ rw e (λ h. cc h, λ h. absurd (lengths_of_eq left right e h))
  | inl e ↦
      rw (e, difference-eq_text 0 left right (omega arith) hl hr (ground arith))
        (eq_text_iff left right)
]
