-- ===== src/Prelude/Table.antt =====
-- A database table as the list of its rows: `SELECT … WHERE`, `UPDATE … WHERE` and the laws that
-- the repositories share. A WHERE clause is a Boolean test of a row, false where SQL has NULL.
use mathlib.Core.Path.{◌≡◌, refl, sym, ap, subst}
use mathlib.Core.Logic.{inl, inr}
use mathlib.Core.Bool.{Bool, true, false}
use mathlib.Core.Option.{Option, none, some}
use mathlib.Core.List.{List, [], ◌∷◌, ◌++◌}
use document_insight.Prelude.Tests.{if◌then◌else◌, Bool-cases}
use mathlib.Core.List.{map}
use Prim.Native.Nat.{ℕ, zero, suc}
use document_insight.Prelude.Lists.{keep_if, take}

module _ {ℓ} {A : Type ℓ} where
  -- the first row that passes the test
  abbrev pub first_where : (A → Bool) → List A → Option A
  first_where test [] = none
  first_where test (x ∷ xs) = if test x then some x else first_where test xs

  -- `UPDATE … WHERE`
  abbrev pub update_where : (A → Bool) → (A → A) → List A → List A
  update_where test change [] = []
  update_where test change (x ∷ xs) = (if test x then change x else x) ∷ update_where test change xs

  -- Every row has the property.
  abbrev pub All {κ} : (A → Type κ) → List A → Type κ
  All P [] = Unit
  All P (x ∷ xs) = P x × All P xs

module _ {ℓ} {A : Type ℓ} where
  pub All-update_where {κ} :
      (P : A → Type κ) (test : A → Bool) (change : A → A)
      → ((x : A) → test x ≡ true → P x → P (change x))
      → (xs : List A) → All P xs
      → All P (update_where test change xs)
  All-update_where P test change keep [] h = tt
  All-update_where P test change keep (x ∷ xs) h = elim (Bool-cases (test x)) [
    | inl e ↦ rw e (keep x e h.0, All-update_where P test change keep xs h.1)
    | inr e ↦ rw e (h.0, All-update_where P test change keep xs h.1)
  ]

  pub All-append {κ} : (P : A → Type κ) (xs ys : List A) → All P xs → All P ys → All P (xs ++ ys)
  All-append P [] ys h k = k
  All-append P (x ∷ xs) ys h k = (h.0, All-append P xs ys h.1 k)

  pub All-first_where {κ} :
      (P : A → Type κ) (test : A → Bool) (xs : List A) {x : A}
      → All P xs
      → first_where test xs ≡ some x
      → P x
  All-first_where P test [] h e = cc
  All-first_where P test (y ∷ xs) {x} h e = elim (Bool-cases (test y)) [
    | inl t ↦ subst P (cc (t, e)) h.0
    | inr t ↦ All-first_where P test xs h.1 (rw t at e)
  ]

  -- What passes the test is what was found.
  pub first_where-passes :
      (test : A → Bool) (xs : List A) {x : A} → first_where test xs ≡ some x → test x ≡ true
  first_where-passes test [] e = cc
  first_where-passes test (y ∷ xs) e = elim (Bool-cases (test y)) [
    | inl t ↦ subst (λ z. test z ≡ true) (cc (t, e)) t
    | inr t ↦ first_where-passes test xs (rw t at e)
  ]

  -- After an update that leaves no row to pass, none is found.
  pub first_where-update_none :
      (test' test : A → Bool) (change : A → A)
      → ((x : A) → test' (if test x then change x else x) ≡ false)
      → (xs : List A) → first_where test' (update_where test change xs) ≡ none
  first_where-update_none test' test change never [] = refl
  first_where-update_none test' test change never (x ∷ xs) =
      rw (never x) (first_where-update_none test' test change never xs)

  -- An update of rows that the test does not take, before or after, hides nothing from it.
  pub first_where-other :
      (test' test : A → Bool) (change : A → A)
      → ((y : A) → test y ≡ true → test' y ≡ false)
      → ((y : A) → test y ≡ true → test' (change y) ≡ false)
      → (xs : List A) → first_where test' (update_where test change xs) ≡ first_where test' xs
  first_where-other test' test change before after [] = refl
  first_where-other test' test change before after (x ∷ xs) = elim (Bool-cases (test x)) [
    | inl e ↦ rw (e, before x e, after x e) (first_where-other test' test change before after xs)
    | inr e ↦ rw (e, first_where-other test' test change before after xs) refl
  ]

  -- An update of the row that is found, and of no row that would not be, is what is found after.
  pub first_where-changed :
      (test' test : A → Bool) (change : A → A)
      → ((y : A) → test y ≡ true → test' y ≡ true)
      → ((y : A) → test' y ≡ true → test' (change y) ≡ true)
      → (xs : List A) {x : A} → first_where test' xs ≡ some x
      → test x ≡ true
      → first_where test' (update_where test change xs) ≡ some (change x)
  first_where-changed test' test change inner after [] e t = cc
  first_where-changed test' test change inner after (y ∷ ys) {x} e t = elim (Bool-cases (test' y)) [
    | inl f ↦
        let same : y ≡ x = cc (f, e) in
        let t' : test y ≡ true = subst (λ z. test z ≡ true) (sym same) t in
        rw (t', after y f) (ap (λ z. some (change z)) same)
    | inr f ↦
        let unchanged : test y ≡ false = elim (Bool-cases (test y)) [
          | inl g ↦ cc (inner y g, f)
          | inr g ↦ g
        ] in
        rw (unchanged, f) (first_where-changed test' test change inner after ys (rw f at e) t)
  ]

  -- An update whose test no row passes changes nothing.
  pub update_where-none :
      (test : A → Bool) (change : A → A) (xs : List A)
      → first_where test xs ≡ none
      → update_where test change xs ≡ xs
  update_where-none test change [] e = refl
  update_where-none test change (x ∷ xs) e = elim (Bool-cases (test x)) [
    | inl t ↦ cc (t, e)
    | inr t ↦ rw t (rw (update_where-none test change xs (rw t at e)))
  ]

  pub keep_if-none :
      (test : A → Bool) (xs : List A) → first_where test xs ≡ none → keep_if test xs ≡ []
  keep_if-none test [] e = refl
  keep_if-none test (x ∷ xs) e = elim (Bool-cases (test x)) [
    | inl t ↦ cc (t, e)
    | inr t ↦ rw t (keep_if-none test xs (rw t at e))
  ]

  -- The rows that are kept all have what the test gives.
  pub All-keep_if {κ} :
      (P : A → Type κ) (test : A → Bool)
      → ((x : A) → test x ≡ true → P x)
      → (xs : List A) → All P (keep_if test xs)
  All-keep_if P test gives [] = tt
  All-keep_if P test gives (x ∷ xs) = elim (Bool-cases (test x)) [
    | inl t ↦ rw t (gives x t, All-keep_if P test gives xs)
    | inr t ↦ rw t (All-keep_if P test gives xs)
  ]

  pub All-imp {κ κ'} :
      (P : A → Type κ) (Q : A → Type κ')
      → ((x : A) → P x → Q x)
      → (xs : List A) → All P xs
      → All Q xs
  All-imp P Q f [] h = tt
  All-imp P Q f (x ∷ xs) h = (f x h.0, All-imp P Q f xs h.1)

  pub All-and {κ κ'} :
      (P : A → Type κ) (Q : A → Type κ') (xs : List A)
      → All P xs
      → All Q xs
      → All (λ x. P x × Q x) xs
  All-and P Q [] h k = tt
  All-and P Q (x ∷ xs) h k = ((h.0, k.0), All-and P Q xs h.1 k.1)

  pub All-kept {κ} :
      (P : A → Type κ) (test : A → Bool) (xs : List A) → All P xs → All P (keep_if test xs)
  All-kept P test [] h = tt
  All-kept P test (x ∷ xs) h = elim (Bool-cases (test x)) [
    | inl e ↦ rw e (h.0, All-kept P test xs h.1)
    | inr e ↦ rw e (All-kept P test xs h.1)
  ]

  pub All-take {κ} : (P : A → Type κ) (n : ℕ) (xs : List A) → All P xs → All P (take n xs)
  All-take P zero [] h = tt
  All-take P zero (x ∷ xs) h = tt
  All-take P (suc n) [] h = tt
  All-take P (suc n) (x ∷ xs) h = (h.0, All-take P n xs h.1)

  pub All-map {κ ℓ'} :
      {B : Type ℓ'} (Q : B → Type κ) (f : A → B) (xs : List A)
      → All (λ x. Q (f x)) xs
      → All Q (map f xs)
  All-map Q f [] h = tt
  All-map Q f (x ∷ xs) h = (h.0, All-map Q f xs h.1)
