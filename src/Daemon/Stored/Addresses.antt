-- ===== src/Daemon/Stored/Addresses.antt =====
-- src/daemon.rs: which manual addresses are stored.
use unicast.Base.{
  ◌≡◌, sym, subst, ◌∙◌, ◌≢◌, ◌↔◌, ◌⊎◌, inl, inr, true, false, some, List, [], ◌∷◌, ◌++◌, Text, In,
  In-append, eq_text, eq_text_iff, mem_text, if◌then◌else◌, Bool-cases, Platform,
}
use unicast.Net.{valid_receiver_ip}
use unicast.Daemon.State.{Daemon}
use unicast.Daemon.Env.{Env}
use unicast.Daemon.Target.{discover}
use unicast.Daemon.Target.Search.{discover-SameSession}
use unicast.Daemon.Stored.{
  without, write_manual_ips, answer_devices, add_manual, add_ip, remove_manual, remove_ip,
}

In-without : (ip x : Text) (ips : List Text) → In x (without ip ips) ↔ (In x ips × (x ≢ ip))
unfolding without
In-without ip x [] = (λ i. absurd i, λ h. h.0)
In-without ip x (entry ∷ ips) = elim (Bool-cases (eq_text entry ip)) [
  | inl e ↦ rw e (
    λ i. let kept = (In-without ip x ips).0 i in (inr kept.0, kept.1),
    λ h. elim h.0 [
      | inl first ↦ absurd (h.1 (first ∙ (eq_text_iff entry ip).0 e))
      | inr i ↦ (In-without ip x ips).1 (i, h.1)
    ],
  )
  | inr e ↦ rw e (
    λ i. elim i [
      | inl first ↦ (inl first, λ same. distinct entry e (sym first ∙ same))
      | inr j ↦ let kept = (In-without ip x ips).0 j in (inr kept.0, kept.1)
    ],
    λ h. elim h.0 [ inl first ↦ inl first | inr i ↦ inr ((In-without ip x ips).1 (i, h.1)) ],
  )
]
  where
    distinct : (entry : Text) → eq_text entry ip ≡ false → entry ≢ ip
    distinct entry e same = let t = (eq_text_iff entry ip).1 same in cc

mem_text_iff : (x : Text) (ips : List Text) → mem_text x ips ≡ true → In x ips
unfolding mem_text
mem_text_iff x [] h = cc h
mem_text_iff x (entry ∷ ips) h = elim (Bool-cases (eq_text entry x)) [
  | inl e ↦ inl (sym ((eq_text_iff entry x).0 e))
  | inr e ↦ inr (mem_text_iff x ips (simp e at h))
]

module _ (platform : Platform) where
  open platform use {F64}

  added : Env F64 → Text → Daemon F64 → Daemon F64
  added env ip d =
      if mem_text ip d.manual_ips
      then d
      else write_manual_ips platform env (d.manual_ips ++ ip ∷ []) d

  In-added :
      (env : Env F64) (ip x : Text) (d : Daemon F64)
      → env.saves ≡ true
      → In x (added env ip d).manual_ips ↔ (In x d.manual_ips ⊎ (x ≡ ip))
  unfolding added write_manual_ips
  In-added env ip x d saves = elim (Bool-cases (mem_text ip d.manual_ips)) [
    | inl there ↦ rw there (
      λ i. inl i,
      λ h. elim h [
        | inl i ↦ i
        | inr e ↦ subst (λ y. In y d.manual_ips) (sym e) (mem_text_iff ip d.manual_ips there)
      ],
    )
    | inr missing ↦
        simp (missing, saves)
          (
            λ i. elim ((In-append x d.manual_ips (ip ∷ [])).0 i) [
              | inl old ↦ inl old
              | inr last ↦ elim last [ inl e ↦ inr e | inr none_left ↦ absurd none_left ]
            ],
            λ h.
                (In-append x d.manual_ips (ip ∷ [])).1
                  (elim h [ inl old ↦ inl old | inr e ↦ inr (inl e) ]),
          )
  ]

  answered :
      (env : Env F64) (d : Daemon F64)
      → (answer_devices platform (discover platform env true d)).0.manual_ips ≡ d.manual_ips
  unfolding answer_devices
  answered env d = (discover-SameSession platform env true d).same_manual

  add_manual-added :
      (env : Env F64) (ip : Text) (d : Daemon F64)
      → (add_manual platform env (some ip) d).0.manual_ips ≡ (added env ip d).manual_ips
  unfolding add_manual added
  add_manual-added env ip d = answered env (added env ip d)

  -- Adding a manual address, where the file can be written and the text is that of a local address:
  -- the addresses stored afterwards are those stored before and the canonical form of the new one.
  pub add_ip_stored :
      (env : Env F64) (value ip x : Text) (d : Daemon F64)
      → env.saves ≡ true
      → valid_receiver_ip value ≡ some ip
      → In x (add_ip platform env value d).0.manual_ips ↔ (In x d.manual_ips ⊎ (x ≡ ip))
  unfolding add_ip
  add_ip_stored env value ip x d saves valid =
      rw (valid, add_manual-added env ip d) (In-added env ip x d saves)

  -- Removing a manual address, where the file can be written and the text is that of an address:
  -- the addresses stored afterwards are the others that were stored before.
  pub remove_ip_stored :
      (env : Env F64) (value ip x : Text) (d : Daemon F64)
      → env.saves ≡ true
      → env.parse_ip value ≡ some ip
      → In x (remove_ip platform env value d).0.manual_ips ↔ (In x d.manual_ips × (x ≢ ip))
  unfolding remove_ip remove_manual write_manual_ips
  remove_ip_stored env value ip x d saves valid =
      rw (valid, answered env (write_manual_ips platform env (without ip d.manual_ips) d))
        (simp saves (In-without ip x d.manual_ips))

  -- Where the file can be written: the addresses stored after one was added, the text of a local
  -- address, are those stored before and its canonical form; and those stored after one was removed,
  -- the text of an address, are the others that were stored before.
  pub ips_stored :
      (env : Env F64) (value ip other removed x : Text) (d : Daemon F64)
      → env.saves ≡ true
      → valid_receiver_ip value ≡ some ip
      → env.parse_ip other ≡ some removed
      → (In x (add_ip platform env value d).0.manual_ips ↔ (In x d.manual_ips ⊎ (x ≡ ip)))
        × (In x (remove_ip platform env other d).0.manual_ips ↔ (In x d.manual_ips × (x ≢ removed)))
  ips_stored env value ip other removed x d saves valid parsed = (
    add_ip_stored env value ip x d saves valid,
    remove_ip_stored env other removed x d saves parsed,
  )
