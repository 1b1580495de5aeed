-- ===== src/Dlna/Soap/Escaped.antt =====
-- src/util.rs: `xml_escape`, and what an XML reader makes of its result.
use unicast.Base.{
  ℕ, false, [], ◌∷◌, ◌++◌, Text, codes, ◌==◌, if◌then◌else◌, ◌≡◌, refl, ◌∙◌, sym, subst, ap, ◌≢◌,
  inl, inr, arith, Bool-cases, append_assoc,
}
use unicast.Dlna.Soap.{replace_char, xml_escape}

-- The characters that stand for markup in a text or an attribute.
abbrev pub IsPlain : ℕ → Type 0
IsPlain c = (c ≢ b'&') × (c ≢ b'<') × (c ≢ b'>') × (c ≢ b'"') × (c ≢ b'\'')

-- A reference to a predefined entity of XML.
pub data Entity : Text → ℕ → Type 0 where
  amp : Entity (codes "&amp;") b'&'
  lt : Entity (codes "&lt;") b'<'
  gt : Entity (codes "&gt;") b'>'
  quot : Entity (codes "&quot;") b'"'
  apos : Entity (codes "&apos;") b'\''

-- How an XML reader reads character data without markup: plain characters and entities.
pub data Reads : Text → Text → Type 0 where
  done : Reads [] []
  plain : (c : ℕ) {s t : Text} → IsPlain c → Reads s t → Reads (c ∷ s) (c ∷ t)
  entity : {e : Text} {c : ℕ} {s t : Text} → Entity e c → Reads s t → Reads (e ++ s) (c ∷ t)

replace_char-append :
    (c : ℕ) (u s t : Text) → replace_char c u (s ++ t) ≡ replace_char c u s ++ replace_char c u t
unfolding replace_char
replace_char-append c u [] t = refl
replace_char-append c u (a ∷ s) t =
    ap (λ r. (if a == c then u else a ∷ []) ++ r) (replace_char-append c u s t)
    ∙ sym (append_assoc (if a == c then u else a ∷ []) (replace_char c u s) (replace_char c u t))

xml_escape-append : (s t : Text) → xml_escape (s ++ t) ≡ xml_escape s ++ xml_escape t
unfolding xml_escape
xml_escape-append s t = simp replace_char-append refl

-- A character is read back from what it is replaced by.
Escapes : ℕ → Type 0
Escapes c = (s t : Text) → Reads s t → Reads (xml_escape (c ∷ []) ++ s) (c ∷ t)

Entity-Escapes : (c : ℕ) {e : Text} → Entity e c → xml_escape (c ∷ []) ≡ e → Escapes c
unfolding Escapes
Entity-Escapes c {e} named same s t r =
    subst (λ x. Reads (x ++ s) (c ∷ t)) (sym same) (entity named r)

amp-Escapes : Escapes b'&'
unfolding xml_escape replace_char
amp-Escapes = Entity-Escapes b'&' amp refl

lt-Escapes : Escapes b'<'
unfolding xml_escape replace_char
lt-Escapes = Entity-Escapes b'<' lt refl

gt-Escapes : Escapes b'>'
unfolding xml_escape replace_char
gt-Escapes = Entity-Escapes b'>' gt refl

quot-Escapes : Escapes b'"'
unfolding xml_escape replace_char
quot-Escapes = Entity-Escapes b'"' quot refl

apos-Escapes : Escapes b'\''
unfolding xml_escape replace_char
apos-Escapes = Entity-Escapes b'\'' apos refl

plain-Escapes : (c : ℕ) → IsPlain c → Escapes c
unfolding Escapes xml_escape replace_char
plain-Escapes c (a, b, d, e, f) s t r =
    let no_amp : (c == b'&') ≡ false = ground arith in
    let no_lt : (c == b'<') ≡ false = ground arith in
    let no_gt : (c == b'>') ≡ false = ground arith in
    let no_quot : (c == b'"') ≡ false = ground arith in
    let no_apos : (c == b'\'') ≡ false = ground arith in
    simp (no_amp, no_lt, no_gt, no_quot, no_apos) (plain c (a, b, d, e, f) r)

Escapes-where : (c d : ℕ) → Escapes d → (c ≢ d → Escapes c) → Escapes c
Escapes-where c d h k = elim (Bool-cases (c == d)) [
  | inl e ↦ let same : d ≡ c = ground arith in subst Escapes same h
  | inr e ↦ k (ground arith)
]

char-Escapes : (c : ℕ) → Escapes c
char-Escapes c = Escapes-where c b'&' amp-Escapes λ a. Escapes-where c b'<' lt-Escapes λ b.
    Escapes-where c b'>' gt-Escapes λ d.
      Escapes-where c b'"' quot-Escapes
        λ e. Escapes-where c b'\'' apos-Escapes λ f. plain-Escapes c (a, b, d, e, f)

-- An escaped text is character data without markup, which an XML reader reads as that very text.
pub xml_escape-Reads : (s : Text) → Reads (xml_escape s) s
unfolding Escapes
xml_escape-Reads [] = unfold xml_escape replace_char in done
xml_escape-Reads (c ∷ s) =
    subst (λ x. Reads x (c ∷ s)) (sym (xml_escape-append (c ∷ []) s))
      (char-Escapes c (xml_escape s) s (xml_escape-Reads s))
