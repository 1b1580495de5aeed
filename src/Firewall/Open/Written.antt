-- ===== src/Firewall/Open/Written.antt =====
-- src/firewall.rs: the rules of a ledger that was written, and of the ledger that `clear` leaves.
use unicast.Base.{
  ℕ, ◌≡◌, refl, sym, ◌∙◌, ap, ◌↔◌, inl, inr, none, some, List, [], ◌∷◌, ◌++◌, map, Text, In,
  In-sorted_set, filter_map, sorted_set, Option-cases,
}
use unicast.Firewall.{Rule, IsRule, parse, line}
use unicast.Firewall.Ledger.{parse-line, parse-IsRule}
use unicast.Firewall.Open.{Ufw, ledger_rules, write_ledger, delete_args, remaining}

abbrev pub AllRules : ℕ → List Rule → Type 0
AllRules legacy_port [] = Unit
AllRules legacy_port (rule ∷ rules) = IsRule legacy_port rule × AllRules legacy_port rules

-- A rule is read from a ledger exactly when one of its lines parses as that rule.
In-ledger_rules :
    (legacy_port : ℕ) (rule : Rule) (ledger : List Text)
    → In rule (ledger_rules legacy_port ledger)
      ↔ ((text : Text) × In text ledger × (parse text legacy_port ≡ some rule))
unfolding ledger_rules filter_map
In-ledger_rules legacy_port rule [] = (λ h. absurd h, λ h. absurd h.1)
In-ledger_rules legacy_port rule (text ∷ ledger) =
    let ih = In-ledger_rules legacy_port rule ledger in
    elim (Option-cases (parse text legacy_port)) [
      | inl e ↦
          rw (e, In)
            (
              λ h. let (t, i, q) = ih.0 h in (t, inr i, q),
              λ (t, i, q). elim i [ inl same ↦ absurd (cc (same, e, q)) | inr k ↦ ih.1 (t, k, q) ],
            )
      | inr (r, e) ↦
          rw (e, In)
            (
              elim [
                | inl same ↦ (text, inl refl, e ∙ ap some (sym same))
                | inr h ↦ let (t, i, q) = ih.0 h in (t, inr i, q)
              ],
              λ (t, i, q). elim i [
                | inl same ↦ inl (cc (same, e, q))
                | inr k ↦ inr (ih.1 (t, k, q))
              ],
            )
    ]

In-map-line :
    (text : Text) (rules : List Rule)
    → In text (map line rules) ↔ ((r : Rule) × In r rules × (text ≡ line r))
In-map-line text [] = (λ h. absurd h, λ h. absurd h.1)
In-map-line text (rule ∷ rules) =
    let ih = In-map-line text rules in
    (
      elim [ inl e ↦ (rule, inl refl, e) | inr h ↦ let (r, i, q) = ih.0 h in (r, inr i, q) ],
      λ (r, i, q). elim i [ inl e ↦ inl (q ∙ ap line e) | inr k ↦ inr (ih.1 (r, k, q)) ],
    )

IsRule-of-In :
    (legacy_port : ℕ) (r : Rule) (rules : List Rule)
    → AllRules legacy_port rules
    → In r rules
    → IsRule legacy_port r
IsRule-of-In legacy_port r [] all i = absurd i
IsRule-of-In legacy_port r (rule ∷ rules) all (inl e) = rw e all.0
IsRule-of-In legacy_port r (rule ∷ rules) all (inr k) = IsRule-of-In legacy_port r rules all.1 k

-- The ledger that is written for some rules is read back as those rules.
pub In-write_ledger :
    (legacy_port : ℕ) (rule : Rule) (rules : List Rule)
    → AllRules legacy_port rules
    → In rule (ledger_rules legacy_port (write_ledger rules)) ↔ In rule rules
unfolding write_ledger
In-write_ledger legacy_port rule rules all =
    let reads = In-ledger_rules legacy_port rule (sorted_set (map line rules)) in
    (
      λ h.
          let (t, i, q) = reads.0 h in
          let (r, k, e) = (In-map-line t rules).0 ((In-sorted_set t (map line rules)).0 i) in
          let same : rule ≡ r =
            cc (q, e, parse-line legacy_port r (IsRule-of-In legacy_port r rules all k)) in
          rw same k,
      λ k. reads.1 (
        line rule,
        (In-sorted_set (line rule) (map line rules)).1
            ((In-map-line (line rule) rules).1 (rule, k, refl)),
        parse-line legacy_port rule (IsRule-of-In legacy_port rule rules all k),
      ),
    )

pub ledger_rules-AllRules :
    (legacy_port : ℕ) (ledger : List Text) → AllRules legacy_port (ledger_rules legacy_port ledger)
unfolding ledger_rules filter_map
ledger_rules-AllRules legacy_port [] = tt
ledger_rules-AllRules legacy_port (text ∷ ledger) = elim (Option-cases (parse text legacy_port)) [
  | inl e ↦ rw (e, AllRules) (ledger_rules-AllRules legacy_port ledger)
  | inr (r, e) ↦
      rw (e, AllRules)
        (parse-IsRule text legacy_port {rule = r} e, ledger_rules-AllRules legacy_port ledger)
]

pub AllRules-append :
    (legacy_port : ℕ) (xs : List Rule) (r : Rule)
    → AllRules legacy_port xs
    → IsRule legacy_port r
    → AllRules legacy_port (xs ++ r ∷ [])
AllRules-append legacy_port [] r a h = (h, tt)
AllRules-append legacy_port (x ∷ xs) r a h = (a.0, AllRules-append legacy_port xs r a.1 h)

pub remaining-AllRules :
    (ufw : Ufw) (legacy_port : ℕ) (rules : List Rule)
    → AllRules legacy_port rules
    → AllRules legacy_port (remaining ufw rules)
unfolding remaining
remaining-AllRules ufw legacy_port [] a = tt
remaining-AllRules ufw legacy_port (rule ∷ rules) a =
    elim (Option-cases (ufw.run_output (delete_args rule))) [
      | inl e ↦ rw (e, AllRules) (a.0, remaining-AllRules ufw legacy_port rules a.1)
      | inr (out, e) ↦ rw (e, AllRules) (remaining-AllRules ufw legacy_port rules a.1)
    ]

pub In-remaining :
    (ufw : Ufw) (rule : Rule) (rules : List Rule)
    → In rule (remaining ufw rules) ↔ (In rule rules × (ufw.run_output (delete_args rule) ≡ none))
unfolding remaining
In-remaining ufw rule [] = (λ h. absurd h, λ h. absurd h.0)
In-remaining ufw rule (r ∷ rules) =
    let ih = In-remaining ufw rule rules in
    elim (Option-cases (ufw.run_output (delete_args r))) [
      | inl e ↦
          rw (e, In)
            (
              elim [ inl same ↦ (inl same, rw same e) | inr h ↦ (inr (ih.0 h).0, (ih.0 h).1) ],
              λ (i, failed). elim i [ inl same ↦ inl same | inr k ↦ inr (ih.1 (k, failed)) ],
            )
      | inr (out, e) ↦
          rw (e, In)
            (
              λ h. (inr (ih.0 h).0, (ih.0 h).1),
              λ (i, failed). elim i [
                | inl same ↦ absurd (deleted same e failed)
                | inr k ↦ ih.1 (k, failed)
              ],
            )
    ]
  where
    deleted :
        {out : Text}
        → rule ≡ r
        → ufw.run_output (delete_args r) ≡ some out
        → ufw.run_output (delete_args rule) ≡ none
        → ⊥
    deleted same e failed = cc (ap (λ q. ufw.run_output (delete_args q)) same, e, failed)
