-- ===== src/Base/Members.antt =====
-- Membership as a disjunction, and sets of texts as sorted lists.

use mathlib.Core.Path.{refl, sym, subst, ◌≡◌}
use mathlib.Core.Logic.{◌↔◌, ◌⊎◌, inl, inr}
use mathlib.Core.Bool.{Bool, true, false, ◌&&◌, ◌||◌}
use mathlib.Core.List.{List, [], ◌∷◌, ◌++◌}
use mathlib.Core.Option.{Option, none, some}
use native.Mathlib.Omega.{arith}
use unicast.Base.Tests.{ltb, ◌==◌, if◌then◌else◌}
use unicast.Base.Strings.{Text, eq_text, eq_text_iff}

module _ {A : Type 0} where
  abbrev pub In : A → List A → Type 0
  In x [] = ⊥
  In x (y ∷ ys) = (x ≡ y) ⊎ In x ys

  pub In-append : (x : A) (ys zs : List A) → In x (ys ++ zs) ↔ (In x ys ⊎ In x zs)
  In-append x [] zs = (λ h. inr h, elim [ inl h ↦ absurd h | inr h ↦ h ])
  In-append x (y ∷ ys) zs =
      let ih = In-append x ys zs in
      (
        elim [
          | inl e ↦ inl (inl e)
          | inr h ↦ elim (ih.0 h) [ inl k ↦ inl (inr k) | inr k ↦ inr k ]
        ],
        elim [
          | inl h ↦ elim h [ inl e ↦ inl e | inr k ↦ inr (ih.1 (inl k)) ]
          | inr k ↦ inr (ih.1 (inr k))
        ],
      )

module _ {ℓ κ} {A : Type ℓ} {B : Type κ} where
  unfoldable pub filter_map : (A → Option B) → List A → List B
  filter_map f [] = []
  filter_map f (x ∷ xs) = elim (f x) [ none ↦ filter_map f xs | some y ↦ y ∷ filter_map f xs ]

module _ {ℓ κ} {A : Type ℓ} {B : Type κ} (f : A → Option B) (x : A) (xs : List A) where
  pub filter_map-none : f x ≡ none → filter_map f (x ∷ xs) ≡ filter_map f xs
  unfolding filter_map
  filter_map-none e = rw (e, filter_map) refl

  pub filter_map-some : {y : B} → f x ≡ some y → filter_map f (x ∷ xs) ≡ y ∷ filter_map f xs
  unfolding filter_map
  filter_map-some e = rw (e, filter_map) refl

module _ {A B : Type 0} (f : A → Option B) where
  In-filter_map_rest :
      (z : A) (xs : List A) (y : B)
      → In y (filter_map f xs)
      → (o : Option B) → f z ≡ o
      → In y (filter_map f (z ∷ xs))
  In-filter_map_rest z xs y i none e = subst (λ l. In y l) (sym (filter_map-none f z xs e)) i
  In-filter_map_rest z xs y i (some w) e =
      subst (λ l. In y l) (sym (filter_map-some f z xs e)) (inr i)

  pub In-filter_map :
      (x : A) (xs : List A) {y : B} → In x xs → f x ≡ some y → In y (filter_map f xs)
  In-filter_map x [] i h = absurd i
  In-filter_map x (z ∷ xs) {y} (inl e) h =
      subst (λ l. In y l) (sym (filter_map-some f z xs (subst (λ z. f z ≡ some y) e h))) (inl refl)
  In-filter_map x (z ∷ xs) {y} (inr i) h =
      In-filter_map_rest z xs y (In-filter_map x xs {y = y} i h) (f z) refl

  In-filter_map_split :
      (z : A) (xs : List A) (y : B)
      → In y (filter_map f (z ∷ xs))
      → (o : Option B) → f z ≡ o
      → (f z ≡ some y) ⊎ In y (filter_map f xs)
  In-filter_map_split z xs y i none e = inr (subst (λ l. In y l) (filter_map-none f z xs e) i)
  In-filter_map_split z xs y i (some w) e =
      elim (subst (λ l. In y l) (filter_map-some f z xs e) i) [
        | inl same ↦ inl (subst (λ w. f z ≡ some w) (sym same) e)
        | inr rest ↦ inr rest
      ]

  -- What a filtered list holds comes from an element of the list.
  pub filter_map_all :
      (P : B → Type 0) (xs : List A) (y : B)
      → ((x : A) (y : B) → f x ≡ some y → P y)
      → In y (filter_map f xs)
      → P y
  filter_map_all P [] y h i = absurd (unfold filter_map in i)
  filter_map_all P (z ∷ xs) y h i = elim (In-filter_map_split z xs y i (f z) refl) [
    | inl e ↦ h z y e
    | inr rest ↦ filter_map_all P xs y h rest
  ]

-- The order of `str`: code points compare as their bytes do.
unfoldable pub lt_text : Text → Text → Bool
lt_text s [] = false
lt_text [] (b ∷ t) = true
lt_text (a ∷ s) (b ∷ t) = ltb a b || (a == b && lt_text s t)

-- Insertion into a `BTreeSet<String>`.
unfoldable pub insert_text : Text → List Text → List Text
unfolding lt_text
insert_text t [] = t ∷ []
insert_text t (u ∷ us) =
    if eq_text t u then u ∷ us else (if lt_text t u then t ∷ u ∷ us else u ∷ insert_text t us)

-- `texts.collect::<BTreeSet<String>>()`.
unfoldable pub sorted_set : List Text → List Text
unfolding insert_text
sorted_set [] = []
sorted_set (t ∷ ts) = insert_text t (sorted_set ts)

In-insert_text : (s t : Text) (us : List Text) → In s (insert_text t us) ↔ ((s ≡ t) ⊎ In s us)
unfolding insert_text
In-insert_text s t [] = ground arith
In-insert_text s t (u ∷ us) =
    ground (arith, eq_text_iff t u, (In-insert_text s t us).0, (In-insert_text s t us).1)

pub In-sorted_set : (s : Text) (ts : List Text) → In s (sorted_set ts) ↔ In s ts
unfolding sorted_set
In-sorted_set s [] = (λ h. h, λ h. h)
In-sorted_set s (t ∷ ts) =
    let ih = In-sorted_set s ts in
    let step = In-insert_text s t (sorted_set ts) in
    (
      λ h. elim (step.0 h) [ inl e ↦ inl e | inr k ↦ inr (ih.0 k) ],
      elim [ inl e ↦ step.1 (inl e) | inr k ↦ step.1 (inr (ih.1 k)) ],
    )
