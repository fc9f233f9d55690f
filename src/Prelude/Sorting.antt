-- ===== src/Prelude/Sorting.antt =====
-- `ORDER BY` as an insertion sort, membership as a recursion, and what both keep.
use mathlib.Core.Path.{◌≡◌, refl}
use mathlib.Core.Logic.{◌⊎◌, inl, inr}
use mathlib.Core.Bool.{Bool, true}
use mathlib.Core.List.{List, [], ◌∷◌, ◌++◌}
use document_insight.Prelude.Tests.{if◌then◌else◌, Bool-cases}
use document_insight.Prelude.Lists.{any, keep_if}
use mathlib.Core.Option.{some}
use document_insight.Prelude.Table.{
  first_where, All, All-first_where, All-and, All-append, All-imp, All-keep_if, All-kept,
}

module _ {ℓ} {A : Type ℓ} where
  -- `before x y` where `x` comes before `y`, or the two are equal in the order
  unfoldable pub insert_by : (A → A → Bool) → A → List A → List A
  insert_by before x [] = x ∷ []
  insert_by before x (y ∷ ys) = if before x y then x ∷ y ∷ ys else y ∷ insert_by before x ys

  unfoldable pub order_by : (A → A → Bool) → List A → List A
  unfolding insert_by
  order_by before [] = []
  order_by before (x ∷ xs) = insert_by before x (order_by before xs)

  insert_by-All {κ} :
      (P : A → Type κ) (before : A → A → Bool) (x : A) (ys : List A)
      → P x
      → All P ys
      → All P (insert_by before x ys)
  unfolding insert_by
  insert_by-All P before x [] p h = (p, tt)
  insert_by-All P before x (y ∷ ys) p h = elim (Bool-cases (before x y)) [
    | inl e ↦ rw e (p, h)
    | inr e ↦ rw e (h.0, insert_by-All P before x ys p h.1)
  ]

  pub order_by-All {κ} :
      (P : A → Type κ) (before : A → A → Bool) (xs : List A) → All P xs → All P (order_by before xs)
  unfolding order_by
  order_by-All P before [] h = tt
  order_by-All P before (x ∷ xs) h =
      insert_by-All P before x (order_by before xs) h.0 (order_by-All P before xs h.1)

module _ {ℓ} {A : Type ℓ} where
  -- What a filter keeps of rows that have a property also has what the test gives.
  pub keep_if-All {κ κ'} :
      (P : A → Type κ) (Q : A → Type κ') (test : A → Bool)
      → ((x : A) → test x ≡ true → Q x)
      → (xs : List A) → All P xs
      → All (λ x. P x × Q x) (keep_if test xs)
  keep_if-All P Q test gives xs h =
      All-and P Q (keep_if test xs) (All-kept P test xs h) (All-keep_if Q test gives xs)

module _ {A : Type 0} where
  abbrev pub In : A → List A → Type 0
  In x [] = ⊥
  In x (y ∷ ys) = (x ≡ y) ⊎ In x ys

  -- A list is made of its members.
  pub All-In : (xs : List A) → All (λ x. In x xs) xs
  All-In [] = tt
  All-In (x ∷ xs) = (inl refl, All-imp (λ y. In y xs) _ (λ y h. inr h) xs (All-In xs))

  -- What is found stands in the list.
  pub first_where-In :
      (test : A → Bool) (xs : List A) {x : A} → first_where test xs ≡ some x → In x xs
  first_where-In test xs e = All-first_where (λ x. In x xs) test xs (All-In xs) e

  -- What a filter keeps stood in the list and has what the test gives.
  pub keep_if-In {κ} :
      (P : A → Type κ) (test : A → Bool)
      → ((x : A) → test x ≡ true → P x)
      → (xs : List A) → All (λ x. In x xs × P x) (keep_if test xs)
  keep_if-In P test gives xs = keep_if-All (λ x. In x xs) P test gives xs (All-In xs)

  -- A test that some member passes has a witness.
  pub any-witness :
      (test : A → Bool) (xs : List A) → any test xs ≡ true → (x : A) × In x xs × (test x ≡ true)
  any-witness test [] e = cc
  any-witness test (x ∷ xs) e = elim (Bool-cases (test x)) [
    | inl t ↦ (x, inl refl, t)
    | inr t ↦ let (y, member, passes) = any-witness test xs (rw t at e) in (y, inr member, passes)
  ]

module _ {ℓ} {A : Type ℓ} where
  -- A test that some member passes is passed by one with the property that all have.
  pub any-All {κ} :
      (P : A → Type κ) (test : A → Bool) (xs : List A)
      → All P xs
      → any test xs ≡ true
      → (x : A) × P x × (test x ≡ true)
  any-All P test [] h e = cc
  any-All P test (x ∷ xs) h e = elim (Bool-cases (test x)) [
    | inl t ↦ (x, h.0, t)
    | inr t ↦ any-All P test xs h.1 (rw t at e)
  ]

module _ {ℓ κ} {A : Type ℓ} {B : Type κ} where
  -- `[y for x in xs for y in f(x)]`
  abbrev pub flat_map : (A → List B) → List A → List B
  flat_map f [] = []
  flat_map f (x ∷ xs) = f x ++ flat_map f xs

  pub flat_map-All {μ ν} :
      (P : A → Type μ) (Q : B → Type ν) (f : A → List B)
      → ((x : A) → P x → All Q (f x))
      → (xs : List A) → All P xs
      → All Q (flat_map f xs)
  flat_map-All P Q f gives [] h = tt
  flat_map-All P Q f gives (x ∷ xs) h =
      All-append Q (f x) (flat_map f xs) (gives x h.0) (flat_map-All P Q f gives xs h.1)
