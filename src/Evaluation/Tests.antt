-- ===== src/Evaluation/Tests.antt =====
-- Scores of a ranking of two passages against two labels.
use document_insight.Prelude.{ℕ, ◌≡◌, refl, true, none, some, List, [], ◌∷◌, arith, All}
use document_insight.Evaluation.Scoring.{
  SourceSpan, ScoredMetric, covers, at_k, at_all_k, k_values_are_valid, retrieval_metrics,
  aggregate_metrics,
}
use document_insight.Evaluation.Bounds.{IsFraction, retrieval_metrics-IsFraction}
use document_insight.Evaluation.Aggregation.{
  aggregate_metrics-IsFraction, aggregate_metrics-sum, sum_of, numerator, denominator,
}

abbrev span : ℕ → ℕ → SourceSpan
span start end = record {
  document_version_id = 20;
  page_number = 1;
  start_offset = start;
  end_offset = end;
}

abbrev ranked : List SourceSpan
ranked = span 500 600 ∷ span 0 100 ∷ []

abbrev gold : List SourceSpan
gold = span 20 80 ∷ span 300 340 ∷ []

abbrev metrics : List ScoredMetric
metrics =
    record {
      name = "precision";
      stage = "fusion";
      k = some 2;
      numerator = 1;
      denominator = 2;
      cohort_id = none;
    }
    ∷ record {
      name = "recall";
      stage = "fusion";
      k = some 2;
      numerator = 1;
      denominator = 2;
      cohort_id = none;
    }
    ∷ []

scored : retrieval_metrics ranked gold (2 ∷ []) "fusion" true none ≡ some metrics
unfolding retrieval_metrics k_values_are_valid at_all_k at_k covers
scored = refl

retrieval_metrics-IsFraction_example : All IsFraction metrics
retrieval_metrics-IsFraction_example =
    retrieval_metrics-IsFraction ranked gold (2 ∷ []) "fusion" true none metrics scored

fractions : All IsFraction metrics
fractions = ground arith

aggregate_metrics-IsFraction_example : All IsFraction (aggregate_metrics (metrics ∷ metrics ∷ []))
aggregate_metrics-IsFraction_example =
    aggregate_metrics-IsFraction (metrics ∷ metrics ∷ []) (fractions, (fractions, tt))

aggregate_metrics-sum_example :
    (sum_of numerator (aggregate_metrics (metrics ∷ metrics ∷ [])) ≡ 4)
    × (sum_of denominator (aggregate_metrics (metrics ∷ metrics ∷ [])) ≡ 8)
aggregate_metrics-sum_example = aggregate_metrics-sum (metrics ∷ metrics ∷ [])
