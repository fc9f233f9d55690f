-- ===== src/Evaluation/Bounds.antt =====
-- Every score is a fraction of a whole: its denominator is positive, and its numerator no larger.
use Prim.Native.String.{String}
use mathlib.Core.Path.{subst}
use document_insight.Prelude.{
  ℕ, ◌≤◌, ◌<◌, ◌≡◌, inl, inr, Bool, true, false, Option, none, some, List, [], ◌∷◌, length, take,
  count_if, count_if-le-length, length-take, arith, All, All-append, Bool-cases, if◌then◌else◌,
}
use document_insight.Evaluation.Scoring.{
  SourceSpan, ScoredMetric, is_relevant, is_covered, at_k, at_all_k, k_values_are_valid,
  retrieval_metrics, distinct_after, cited_precision, citation_metrics,
}

abbrev pub IsFraction : ScoredMetric → Type 0
IsFraction m = (0 < m.denominator) × (m.numerator ≤ m.denominator)

counted_in_take :
    {A : Type 0} (test : A → Bool) (k : ℕ) (xs : List A) → count_if test (take k xs) ≤ k
counted_in_take test k xs = omega (arith, count_if-le-length test (take k xs), length-take k xs)

module _ (ranked : List SourceSpan) (g : SourceSpan) (gold : List SourceSpan) (stage : String)
    (complete : Bool) (cohort : Option ℕ) where
  at_k-IsFraction :
      (k : ℕ) → 0 < k → All IsFraction (at_k ranked (g ∷ gold) stage complete cohort k)
  unfolding at_k
  at_k-IsFraction k pos = ((pos, counted_in_take (is_relevant (g ∷ gold)) k ranked), rest complete)
    where
      rest :
          (c : Bool)
          → All IsFraction (
              if c
              then record {
                name = "recall";
                stage = stage;
                k = some k;
                numerator = count_if (is_covered (take k ranked)) (g ∷ gold);
                denominator = length (g ∷ gold);
                cohort_id = cohort;
              }
                ∷ []
              else [])
      rest true = ((omega arith, count_if-le-length (is_covered (take k ranked)) (g ∷ gold)), tt)
      rest false = tt

  at_all_k-IsFraction :
      (ks : List ℕ)
      → k_values_are_valid ks ≡ true
      → All IsFraction (at_all_k ranked (g ∷ gold) stage complete cohort ks)
  unfolding at_all_k k_values_are_valid
  at_all_k-IsFraction [] h = tt
  at_all_k-IsFraction (k ∷ ks) h =
      All-append IsFraction (at_k ranked (g ∷ gold) stage complete cohort k)
        (at_all_k ranked (g ∷ gold) stage complete cohort ks)
        (at_k-IsFraction k (ground (arith, h))) (at_all_k-IsFraction ks (ground (arith, h)))

-- Every retrieval score that is given is a fraction of a positive whole, for any ranking, any
-- labels and any values of K.
pub retrieval_metrics-IsFraction :
    (ranked gold : List SourceSpan) (ks : List ℕ) (stage : String) (complete : Bool)
    (cohort : Option ℕ) (metrics : List ScoredMetric)
    → retrieval_metrics ranked gold ks stage complete cohort ≡ some metrics
    → All IsFraction metrics
unfolding retrieval_metrics
retrieval_metrics-IsFraction ranked [] ks stage complete cohort metrics e = subst (AllIn) e tt
  where
    AllIn : Option (List ScoredMetric) → Type 0
    AllIn none = Unit
    AllIn (some ms) = All IsFraction ms
retrieval_metrics-IsFraction ranked (g ∷ gold) ks stage complete cohort metrics e =
    elim (Bool-cases (k_values_are_valid ks)) [
      | inr bad ↦ cc (rw bad at e)
      | inl good ↦
          subst AllIn (rw good at e)
            (at_all_k-IsFraction ranked g gold stage complete cohort ks good)
    ]
  where
    AllIn : Option (List ScoredMetric) → Type 0
    AllIn none = Unit
    AllIn (some ms) = All IsFraction ms

cited_precision-IsFraction :
    (gold cited : List SourceSpan) → All IsFraction (cited_precision gold cited)
cited_precision-IsFraction gold [] = tt
cited_precision-IsFraction gold (c ∷ cs) =
    ((omega arith, count_if-le-length (is_relevant gold) (c ∷ cs)), tt)

-- Every citation score is a fraction of a positive whole.
pub citation_metrics-IsFraction :
    (citations gold : List SourceSpan) (complete : Bool)
    → All IsFraction (citation_metrics citations gold complete)
unfolding citation_metrics
citation_metrics-IsFraction citations [] complete = tt
citation_metrics-IsFraction citations (g ∷ gold) true =
    All-append IsFraction (cited_precision (g ∷ gold) (distinct_after [] citations)) (_ ∷ [])
      (cited_precision-IsFraction (g ∷ gold) (distinct_after [] citations))
      ((omega arith, count_if-le-length (is_covered (distinct_after [] citations)) (g ∷ gold)), tt)
citation_metrics-IsFraction citations (g ∷ gold) false =
    All-append IsFraction (cited_precision (g ∷ gold) (distinct_after [] citations)) []
      (cited_precision-IsFraction (g ∷ gold) (distinct_after [] citations)) tt
