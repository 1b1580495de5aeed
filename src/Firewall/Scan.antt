-- ===== src/Firewall/Scan.antt =====
-- src/firewall.rs: the scan of ufw's saved rules, read a line at a time with a bound on a line.
-- `from_utf8_lossy` of the standard library is the parameter `decode`.
use unicast.Base.{
  ℕ, zero, suc, ◌+◌, ◌<◌, ◌≤◌, ◌≡◌, refl, Bool, true, false, not, ◌&&◌, ◌||◌, ltb, ap, ◌∙◌, ◌≢◌,
  Option, none, some, inl, inr, List, [], ◌∷◌, Text, arith, ◌==◌, leb, if◌then◌else◌, is_empty,
  length, Bool-cases,
}
use unicast.Firewall.{Rule, tuple_matches}

abbrev pub user_rules_max_line : ℕ
user_rules_max_line = 65536

-- `reader.take(limit).read_until(b'\n', &mut line)`: the bytes read, and those left.
unfoldable pub read_until : ℕ → List ℕ → List ℕ × List ℕ
read_until zero bytes = ([], bytes)
read_until (suc limit) [] = ([], [])
read_until (suc limit) (c ∷ bytes) =
    let (line, rest) = read_until limit bytes in
    if c == 10 then (c ∷ [], bytes) else (c ∷ line, rest)

unfoldable pub ends_line : List ℕ → Bool
ends_line [] = false
ends_line (c ∷ []) = c == 10
ends_line (c ∷ d ∷ s) = ends_line (d ∷ s)

-- One round: `line` was read, and `more` is what the later rounds find.
round : (List ℕ → Bool) → ℕ → List ℕ → Option Bool → Option Bool
round test limit line more =
    if is_empty line
    then some false
    else (if leb limit (length line) && not (ends_line line)
        then none
        else (if test line then some true else more))

module _ (decode : List ℕ → Text) where
  -- The loop, over the bytes that are left. A round reads at least one byte.
  unfoldable pub scan : ℕ → ℕ → List ℕ → Rule → Option Bool
  unfolding round
  scan zero limit bytes rule = none
  scan (suc fuel) limit bytes rule =
      let more = scan fuel limit (read_until limit bytes).1 rule in
      round (λ line. tuple_matches (decode line) rule) limit (read_until limit bytes).0 more

  unfoldable pub scan_user_rules : List ℕ → Rule → Option Bool
  unfolding scan
  scan_user_rules bytes rule = scan (suc (length bytes)) user_rules_max_line bytes rule

abbrev cons_line : ℕ → List (List ℕ) → List (List ℕ)
cons_line c [] = (c ∷ []) ∷ []
cons_line c (l ∷ ls) = (c ∷ l) ∷ ls

-- The lines of a file, each with its newline.
unfoldable pub whole_lines : List ℕ → List (List ℕ)
whole_lines [] = []
whole_lines (c ∷ s) = let ls = whole_lines s in if c == 10 then (c ∷ []) ∷ ls else cons_line c ls

-- A line that does not fit into the bound.
unfoldable pub oversized : ℕ → List ℕ → Bool
unfolding ends_line
oversized limit l = leb limit (length l) && (ltb limit (length l) || not (ends_line l))

-- The answer, read off the lines: the first that is oversized or that matches decides.
unfoldable pub answer : (List ℕ → Bool) → ℕ → List (List ℕ) → Option Bool
unfolding oversized
answer test limit [] = some false
answer test limit (l ∷ ls) =
    if oversized limit l then none else (if test l then some true else answer test limit ls)

length-read_until :
    (limit : ℕ) (bytes : List ℕ)
    → length (read_until limit bytes).0 + length (read_until limit bytes).1 ≡ length bytes
unfolding read_until
length-read_until zero bytes = omega arith
length-read_until (suc limit) [] = omega arith
length-read_until (suc limit) (c ∷ bytes) = ground (arith, length-read_until limit bytes)

read_until-pos : (limit c : ℕ) (bytes : List ℕ) → 0 < length (read_until (suc limit) (c ∷ bytes)).0
unfolding read_until
read_until-pos limit c bytes = ground arith

-- One bounded read against the first whole line: it returns that line, or a piece of it that
-- fills the bound and does not end in a newline.
data FirstLine (limit : ℕ) (bytes l : List ℕ) (ls : List (List ℕ)) : Type 0 where
  read_whole :
      length l ≤ limit
      → (read_until limit bytes).0 ≡ l
      → whole_lines (read_until limit bytes).1 ≡ ls
      → FirstLine limit bytes l ls
  cut :
      limit < length l
      → length (read_until limit bytes).0 ≡ limit
      → ends_line (read_until limit bytes).0 ≡ false
      → FirstLine limit bytes l ls

whole_lines-pos :
    (bytes : List ℕ) {l : List ℕ} {ls : List (List ℕ)} → whole_lines bytes ≡ l ∷ ls → 0 < length l
unfolding whole_lines
whole_lines-pos [] h = ground arith
whole_lines-pos (c ∷ s) h = split_on (whole_lines s) h
  where
    split_on :
        (w : List (List ℕ)) {l : List ℕ} {ls : List (List ℕ)}
        → (if c == 10 then (c ∷ []) ∷ w else cons_line c w) ≡ l ∷ ls
        → 0 < length l
    split_on [] h = ground arith
    split_on (x ∷ xs) h = ground arith

FirstLine-cons :
    (limit c : ℕ) (s l : List ℕ) (ls : List (List ℕ))
    → (c == 10) ≡ false
    → FirstLine limit s l ls
    → FirstLine (suc limit) (c ∷ s) (c ∷ l) ls
unfolding read_until ends_line
FirstLine-cons limit c s l ls n (read_whole b e f) =
    read_whole (omega arith) (ground arith) (ground arith)
FirstLine-cons limit c s l ls n (cut b e f) =
    cut (omega arith) (ground arith) (rw n (ends (read_until limit s).0 f))
  where
    ends : (line : List ℕ) → ends_line line ≡ false → ends_line (c ∷ line) ≡ false
    ends [] h = n
    ends (d ∷ line) h = h

no_lines : (s : List ℕ) → whole_lines s ≡ [] → s ≡ []
unfolding whole_lines
no_lines [] h = refl
no_lines (c ∷ s) h = absurd (split_on (whole_lines s) h)
  where
    split_on : (w : List (List ℕ)) → (if c == 10 then (c ∷ []) ∷ w else cons_line c w) ≡ [] → ⊥
    split_on [] h = ground arith
    split_on (x ∷ xs) h = ground arith

no_lines-cons : (c : ℕ) (s : List ℕ) → whole_lines (c ∷ s) ≢ []
no_lines-cons c s h = cc (no_lines (c ∷ s) h)

alone : (limit c : ℕ) → (c == 10) ≡ false → FirstLine (suc limit) (c ∷ []) (c ∷ []) []
unfolding read_until whole_lines
alone zero c e = read_whole (omega arith) (ground arith) (ground arith)
alone (suc limit) c e = read_whole (omega arith) (ground arith) (ground arith)

first_line :
    (limit : ℕ) (bytes l : List ℕ) (ls : List (List ℕ))
    → whole_lines bytes ≡ l ∷ ls
    → FirstLine limit bytes l ls
unfolding whole_lines read_until
first_line zero bytes l ls h = cut (whole_lines-pos bytes h) refl (unfold ends_line in refl)
first_line (suc limit) [] l ls h = absurd (cc h)
first_line (suc limit) (c ∷ s) l ls h = elim (Bool-cases (c == 10)) [
  | inl e ↦ read_whole (ground arith) (ground arith) (ground arith)
  | inr e ↦ later e (whole_lines s) refl (λ l' ls' q. first_line limit s l' ls' q) (rw e at h)
]
  where
    later :
        (c == 10) ≡ false
        → (w : List (List ℕ)) → whole_lines s ≡ w
        → ((l' : List ℕ) (ls' : List (List ℕ))
            → whole_lines s ≡ l' ∷ ls'
            → FirstLine limit s l' ls')
        → cons_line c w ≡ l ∷ ls
        → FirstLine (suc limit) (c ∷ s) l ls
    later e [] q ih h =
        let nothing = no_lines s q in
        let one : l ≡ c ∷ [] = ground arith in
        let none_left : ls ≡ [] = ground arith in rw (nothing, one, none_left) (alone limit c e)
    later e (x ∷ xs) q ih h =
        let one : l ≡ c ∷ x = ground arith in
        let rest : ls ≡ xs = ground arith in
        rw (one, rest) (FirstLine-cons limit c s x xs e (ih x xs q))

round-answer :
    (test : List ℕ → Bool) (limit : ℕ) (bytes l : List ℕ) (ls : List (List ℕ)) (more : Option Bool)
    → FirstLine (suc limit) bytes l ls
    → 0 < length l
    → (length l ≤ suc limit
        → whole_lines (read_until (suc limit) bytes).1 ≡ ls
        → more ≡ answer test (suc limit) ls)
    → round test (suc limit) (read_until (suc limit) bytes).0 more
      ≡ answer test (suc limit) (l ∷ ls)
unfolding round answer oversized is_empty
round-answer test limit bytes l ls more (read_whole b e f) p m = rw (e, m b f) (whole l p b)
  where
    whole :
        (l : List ℕ)
        → 0 < length l
        → length l ≤ suc limit
        → round test (suc limit) l (answer test (suc limit) ls) ≡ answer test (suc limit) (l ∷ ls)
    whole [] p b = absurd (omega arith)
    whole (c ∷ l) p b = ground arith
round-answer test limit bytes l ls more (cut b e f) p m =
    let big : oversized (suc limit) l ≡ true = ground arith in
    rw big (filled (read_until (suc limit) bytes).0 e f)
  where
    filled :
        (line : List ℕ)
        → length line ≡ suc limit
        → ends_line line ≡ false
        → round test (suc limit) line more ≡ none
    filled [] e f = absurd (omega arith)
    filled (c ∷ line) e f = ground arith

answer-scan :
    (decode : List ℕ → Text) (rule : Rule) (fuel limit : ℕ) (bytes : List ℕ)
    → length bytes < fuel
    → scan decode fuel (suc limit) bytes rule
      ≡ answer (λ l. tuple_matches (decode l) rule) (suc limit) (whole_lines bytes)
unfolding scan
answer-scan decode rule zero limit bytes h = absurd (omega arith)
answer-scan decode rule (suc fuel) limit [] h =
    unfold whole_lines answer read_until is_empty in refl
answer-scan decode rule (suc fuel) limit (c ∷ s) h =
    go (whole_lines (c ∷ s)) refl
      λ less. answer-scan decode rule fuel limit (read_until (suc limit) (c ∷ s)).1 less
  where
    test : List ℕ → Bool
    test l = tuple_matches (decode l) rule

    rest : List ℕ
    rest = (read_until (suc limit) (c ∷ s)).1

    go :
        (w : List (List ℕ))
        → whole_lines (c ∷ s) ≡ w
        → (length (read_until (suc limit) (c ∷ s)).1 < fuel
            → scan decode fuel (suc limit) (read_until (suc limit) (c ∷ s)).1 rule
              ≡ answer
                  (λ l. tuple_matches (decode l) rule)
                  (suc limit)
                  (whole_lines (read_until (suc limit) (c ∷ s)).1))
        → scan decode (suc fuel) (suc limit) (c ∷ s) rule
          ≡ answer (λ l. tuple_matches (decode l) rule) (suc limit) (whole_lines (c ∷ s))
    go [] e ih = absurd (no_lines-cons c s e)
    go (l ∷ ls) e ih = rw e (
        round-answer (λ l. tuple_matches (decode l) rule) limit (c ∷ s) l ls _
          (first_line (suc limit) (c ∷ s) l ls e) (whole_lines-pos (c ∷ s) e)
          λ b f.
            ih (omega (arith, length-read_until (suc limit) (c ∷ s), read_until-pos limit c s))
            ∙ ap (answer _ (suc limit)) f)

-- The scan answers what the first oversized or matching line of the whole file decides, and
-- `some false` when there is none: it never stops early.
pub scan_user_rules-answer :
    (decode : List ℕ → Text) (bytes : List ℕ) (rule : Rule)
    → scan_user_rules decode bytes rule
      ≡ answer (λ l. tuple_matches (decode l) rule) user_rules_max_line (whole_lines bytes)
unfolding scan_user_rules
scan_user_rules-answer decode bytes rule =
    answer-scan decode rule (suc (length bytes)) 65535 bytes (omega arith)

-- No line is oversized, and none passes the test.
abbrev pub NoneMatch : (List ℕ → Bool) → ℕ → List (List ℕ) → Type 0
NoneMatch test limit [] = Unit
NoneMatch test limit (l ∷ ls) =
    (oversized limit l ≡ false) × (test l ≡ false) × NoneMatch test limit ls

answer-NoneMatch :
    (test : List ℕ → Bool) (limit : ℕ) (ls : List (List ℕ))
    → answer test limit ls ≡ some false
    → NoneMatch test limit ls
unfolding answer
answer-NoneMatch test limit [] h = tt
answer-NoneMatch test limit (l ∷ ls) h = ground (arith, answer-NoneMatch test limit ls)

-- Where the scan says that the user has no such rule, every line of the file was read whole and
-- none is a rule for the same traffic.
pub scan_user_rules-NoneMatch :
    (decode : List ℕ → Text) (bytes : List ℕ) (rule : Rule)
    → scan_user_rules decode bytes rule ≡ some false
    → NoneMatch (λ l. tuple_matches (decode l) rule) user_rules_max_line (whole_lines bytes)
scan_user_rules-NoneMatch decode bytes rule h =
    answer-NoneMatch _ user_rules_max_line (whole_lines bytes)
      (rw (scan_user_rules-answer decode bytes rule) at h)
