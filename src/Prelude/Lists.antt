-- ===== src/Prelude/Lists.antt =====
-- Python sequences: lists measured, indexed and sliced by native numbers.
use Prim.Native.Nat.{ℕ, zero, suc, ◌+◌, ◌-◌, ◌≤◌, ◌<◌, min}
use mathlib.Core.Path.{◌≡◌, refl, ap}
use mathlib.Core.Bool.{Bool, true, false, ◌||◌, ◌&&◌}
use mathlib.Core.List.{List, [], ◌∷◌, ◌++◌, map}
use mathlib.Core.Option.{Option, none, some}
use native.Mathlib.Nat.{zero-add, suc-add}
use native.Mathlib.Omega.{arith}
use document_insight.Prelude.Tests.{if◌then◌else◌}

module _ {ℓ} {A : Type ℓ} where
  abbrev pub length : List A → ℕ
  length [] = 0
  length (x ∷ xs) = suc (length xs)

  abbrev pub get_elem? : List A → ℕ → Option A
  get_elem? [] i = none
  get_elem? (x ∷ xs) zero = some x
  get_elem? (x ∷ xs) (suc i) = get_elem? xs i

  abbrev pub take : ℕ → List A → List A
  take zero xs = []
  take (suc n) [] = []
  take (suc n) (x ∷ xs) = x ∷ take n xs

  abbrev pub drop : ℕ → List A → List A
  drop zero xs = xs
  drop (suc n) [] = []
  drop (suc n) (x ∷ xs) = drop n xs

  -- `xs[start:stop]` for bounds that are not negative
  abbrev pub slice : List A → ℕ → ℕ → List A
  slice xs start stop = take (stop - start) (drop start xs)

  -- `any(test(x) for x in xs)`
  abbrev pub any : (A → Bool) → List A → Bool
  any test [] = false
  any test (x ∷ xs) = test x || any test xs

  -- `all(test(x) for x in xs)`
  abbrev pub all : (A → Bool) → List A → Bool
  all test [] = true
  all test (x ∷ xs) = test x && all test xs

  -- `tuple(x for x in xs if test(x))`
  abbrev pub keep_if : (A → Bool) → List A → List A
  keep_if test [] = []
  keep_if test (x ∷ xs) = if test x then x ∷ keep_if test xs else keep_if test xs

  -- `sum(1 for x in xs if test(x))`
  abbrev pub count_if : (A → Bool) → List A → ℕ
  count_if test [] = 0
  count_if test (x ∷ xs) = if test x then suc (count_if test xs) else count_if test xs

module _ {ℓ} {A : Type ℓ} where
  pub length-append : (xs ys : List A) → length (xs ++ ys) ≡ length xs + length ys
  length-append [] ys = omega arith
  length-append (x ∷ xs) ys = omega (arith, length-append xs ys)

  pub length-take : (n : ℕ) (xs : List A) → length (take n xs) ≡ min n (length xs)
  length-take zero xs = omega arith
  length-take (suc n) [] = omega arith
  length-take (suc n) (x ∷ xs) = omega (arith, length-take n xs)

  pub length-drop : (n : ℕ) (xs : List A) → length (drop n xs) ≡ length xs - n
  length-drop zero xs = omega arith
  length-drop (suc n) [] = omega arith
  length-drop (suc n) (x ∷ xs) = omega (arith, length-drop n xs)

  pub count_if-le-length : (test : A → Bool) (xs : List A) → count_if test xs ≤ length xs
  count_if-le-length test [] = omega arith
  count_if-le-length test (x ∷ xs) = ground (arith, count_if-le-length test xs)

  drop-nil : (n : ℕ) → drop {A = A} n [] ≡ []
  drop-nil zero = refl
  drop-nil (suc n) = refl

  pub drop-add : (n m : ℕ) (xs : List A) → drop (n + m) xs ≡ drop m (drop n xs)
  drop-add zero m xs = rw zero-add
  drop-add (suc n) m [] = rw (suc-add, drop-nil m)
  drop-add (suc n) m (x ∷ xs) = rw suc-add (drop-add n m xs)

  pub take-drop-take :
      (k l n : ℕ) (xs : List A) → l + k ≤ n → take k (drop l (take n xs)) ≡ take k (drop l xs)
  take-drop-take zero l n xs h = refl
  take-drop-take (suc k) l zero xs h = absurd (omega arith)
  take-drop-take (suc k) zero (suc n) [] h = refl
  take-drop-take (suc k) zero (suc n) (x ∷ xs) h =
      ap (λ r. x ∷ r) (take-drop-take k zero n xs (omega arith))
  take-drop-take (suc k) (suc l) (suc n) [] h = refl
  take-drop-take (suc k) (suc l) (suc n) (x ∷ xs) h = take-drop-take (suc k) l n xs (omega arith)

  pub get_elem?-drop : (n i : ℕ) (xs : List A) → get_elem? (drop n xs) i ≡ get_elem? xs (n + i)
  get_elem?-drop zero i xs = rw zero-add
  get_elem?-drop (suc n) i [] = refl
  get_elem?-drop (suc n) i (x ∷ xs) = rw suc-add (get_elem?-drop n i xs)

  pub get_elem?-take : (n i : ℕ) (xs : List A) → i < n → get_elem? (take n xs) i ≡ get_elem? xs i
  get_elem?-take zero i xs h = elim h [ ]
  get_elem?-take (suc n) i [] h = refl
  get_elem?-take (suc n) zero (x ∷ xs) h = refl
  get_elem?-take (suc n) (suc i) (x ∷ xs) h = get_elem?-take n i xs (omega arith)

  pub length-map {κ} : {B : Type κ} (f : A → B) (xs : List A) → length (map f xs) ≡ length xs
  length-map f [] = refl
  length-map f (x ∷ xs) = ap suc (length-map f xs)
