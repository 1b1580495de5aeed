-- ===== src/Cast/Frame/Walk.antt =====
-- src/cast.rs: a reader of single bytes, against which `FrameLimit` is held.
use unicast.Base.{
  ℕ, ◌+◌, ◌-◌, ◌≤◌, ◌<◌, ◌≡◌, refl, ◌∙◌, ap, false, List, [], ◌∷◌, ◌++◌, arith, append_assoc,
  append-nil, ltb, ◌==◌, if◌then◌else◌, length, length-append,
}
use unicast.Cast.Frame.{from_be_bytes}

-- Where a reader of single bytes stands: in a length prefix, or in a body with bytes left; and how
-- many length prefixes it has read whole.
pub record Place : Type 0 where
  pub header : List ℕ
  pub left : ℕ
  pub begun : ℕ

abbrev pub first_place : Place
first_place = record { header = []; left = 0; begun = 0 }

unfoldable pub step_byte : Place → ℕ → Place
unfolding from_be_bytes
step_byte p b =
    if ltb 0 p.left
    then record p { left = p.left - 1 }
    else (if length (p.header ++ b ∷ []) == 4
        then record { header = []; left = from_be_bytes (p.header ++ b ∷ []); begun = p.begun + 1 }
        else record { header = p.header ++ b ∷ []; left = 0; begun = p.begun })

unfoldable pub walk : Place → List ℕ → Place
walk p [] = p
walk p (b ∷ bs) = walk (step_byte p b) bs

pub walk-append : (p : Place) (s t : List ℕ) → walk p (s ++ t) ≡ walk (walk p s) t
unfolding walk
walk-append p [] t = refl
walk-append p (b ∷ s) t = walk-append (step_byte p b) s t

pub walk_body :
    (h : List ℕ) (left n : ℕ) (s : List ℕ)
    → length s ≤ left
    → walk (record { header = h; left = left; begun = n }) s
      ≡ record { header = h; left = left - length s; begun = n }
unfolding walk step_byte
walk_body h left n [] fits = ground arith
walk_body h left n (b ∷ s) fits = ground (arith, walk_body h (left - 1) n s)

-- Where the bytes of a length prefix lead that do not pass its end.
abbrev pub piece_place : ℕ → List ℕ → Place
piece_place n t =
    if length t == 4
    then record { header = []; left = from_be_bytes t; begun = n + 1 }
    else record { header = t; left = 0; begun = n }

pub walk_piece :
    (n : ℕ) (h s : List ℕ)
    → length h < 4
    → length h + length s ≤ 4
    → walk (record { header = h; left = 0; begun = n }) s ≡ piece_place n (h ++ s)
unfolding walk
walk_piece n h [] inside fits =
    let same : h ++ [] ≡ h = append-nil h in
    let short : (length h == 4) ≡ false = ground arith in rw (same, short)
walk_piece n h (b ∷ []) inside fits = unfold step_byte in refl
walk_piece n h (b ∷ c ∷ s) inside fits =
    let grown : length (h ++ b ∷ []) ≡ length h + 1 = length-append h (b ∷ []) in
    let open_still : (length (h ++ b ∷ []) == 4) ≡ false = ground arith in
    let moved : step_byte (record { header = h; left = 0; begun = n }) b
        ≡ record { header = h ++ b ∷ []; left = 0; begun = n } =
      unfold step_byte in rw open_still in
    rw moved (
      walk_piece n (h ++ b ∷ []) (c ∷ s) (omega arith) (omega arith)
      ∙ ap (λ t. piece_place n t) (append_assoc h (b ∷ []) (c ∷ s)))
