-- ===== src/Evaluation/Recall.antt =====
-- Recall over growing K.
use Prim.Native.String.{String}
use document_insight.Prelude.{
  ℕ, zero, suc, ◌≤◌, ◌≡◌, refl, inl, inr, Bool, true, Option, List, [], ◌∷◌, take, any, count_if,
  arith, Bool-cases,
}
use document_insight.Evaluation.Scoring.{SourceSpan, ScoredMetric, covers, is_covered, at_k}

module _ {A : Type 0} where
  any-take :
      (test : A → Bool) (k k' : ℕ) (xs : List A)
      → k ≤ k'
      → any test (take k xs) ≡ true
      → any test (take k' xs) ≡ true
  any-take test zero k' [] h e = cc
  any-take test zero k' (x ∷ xs) h e = cc
  any-take test (suc k) k' [] h e = cc
  any-take test (suc k) zero (x ∷ xs) h e = absurd (omega arith)
  any-take test (suc k) (suc k') (x ∷ xs) h e = elim (Bool-cases (test x)) [
    | inl is_so ↦ rw is_so refl
    | inr not_so ↦ rw not_so (any-take test k k' xs (omega arith) (rw not_so at e))
  ]

  count_if_mono :
      (test test' : A → Bool)
      → ((x : A) → test x ≡ true → test' x ≡ true)
      → (xs : List A) → count_if test xs ≤ count_if test' xs
  count_if_mono test test' imp [] = omega arith
  count_if_mono test test' imp (x ∷ xs) = elim (Bool-cases (test x)) [
    | inl is_so ↦ rw (is_so, imp x is_so) (omega (arith, count_if_mono test test' imp xs))
    | inr not_so ↦ rw not_so (ground (arith, count_if_mono test test' imp xs))
  ]

-- the numerator of the recall that `at_k` puts second
abbrev pub recall_numerator : List ScoredMetric → ℕ
recall_numerator (p ∷ r ∷ ms) = r.numerator
recall_numerator _ = 0

-- Recall never falls as K grows, for the same ranking and labels.
pub at_k_mono :
    (ranked gold : List SourceSpan) (stage : String) (cohort : Option ℕ) (k k' : ℕ)
    → k ≤ k'
    → recall_numerator (at_k ranked gold stage true cohort k)
      ≤ recall_numerator (at_k ranked gold stage true cohort k')
unfolding at_k
at_k_mono ranked gold stage cohort k k' h =
    count_if_mono (is_covered (take k ranked)) (is_covered (take k' ranked))
      (λ label e. any-take (λ candidate. covers candidate label) k k' ranked h e) gold
