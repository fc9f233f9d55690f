-- ===== src/Evaluation/Scoring.antt =====
-- The scores of application/evaluation/scoring.py. A value is left as its numerator and denominator,
-- of which the source also stores the quotient.
use Prim.Native.String.{String}
use text.Mathlib.Text.{◌==◌ as str_eq}
use document_insight.Prelude.{
  ℕ, ◌+◌, ◌-◌, ◌*◌, Bool, true, false, ◌&&◌, not, Option, none, some, List, [], ◌∷◌, ◌++◌, ◌==◌,
  length, leb, ltb, min, max, any, count_if, take, if◌then◌else◌,
}

pub record SourceSpan : Type 0 where
  pub document_version_id : ℕ
  pub page_number : ℕ
  pub start_offset : ℕ
  pub end_offset : ℕ

-- what `__post_init__` accepts; an offset here is never negative
unfoldable pub is_valid : SourceSpan → Bool
is_valid span = leb 1 span.page_number && ltb span.start_offset span.end_offset

pub record ScoredMetric : Type 0 where
  pub name : String
  pub stage : String
  pub k : Option ℕ
  pub numerator : ℕ
  pub denominator : ℕ
  pub cohort_id : Option ℕ

-- `_covers`
unfoldable pub covers : SourceSpan → SourceSpan → Bool
covers candidate gold =
    (candidate.document_version_id == gold.document_version_id)
    && (candidate.page_number == gold.page_number)
    && leb (gold.end_offset - gold.start_offset) (
        (min candidate.end_offset gold.end_offset - max candidate.start_offset gold.start_offset)
        * 2)

-- a candidate that covers some label, and a label that some candidate covers
abbrev pub is_relevant : List SourceSpan → SourceSpan → Bool
is_relevant gold candidate = any (covers candidate) gold

abbrev pub is_covered : List SourceSpan → SourceSpan → Bool
is_covered top label = any (λ candidate. covers candidate label) top

unfoldable pub at_k :
    List SourceSpan → List SourceSpan → String → Bool → Option ℕ → ℕ → List ScoredMetric
unfolding covers
at_k ranked gold stage complete_relevance_set cohort_id k =
    let top = take k ranked in
    record {
      name = "precision";
      stage = stage;
      k = some k;
      numerator = count_if (is_relevant gold) top;
      denominator = k;
      cohort_id = cohort_id;
    }
    ∷ (if complete_relevance_set
        then record {
          name = "recall";
          stage = stage;
          k = some k;
          numerator = count_if (is_covered top) gold;
          denominator = length gold;
          cohort_id = cohort_id;
        }
          ∷ []
        else [])

unfoldable pub at_all_k :
    List SourceSpan → List SourceSpan → String → Bool → Option ℕ → List ℕ → List ScoredMetric
unfolding at_k
at_all_k ranked gold stage complete_relevance_set cohort_id [] = []
at_all_k ranked gold stage complete_relevance_set cohort_id (k ∷ ks) =
    at_k ranked gold stage complete_relevance_set cohort_id k
    ++ at_all_k ranked gold stage complete_relevance_set cohort_id ks

-- distinct positive integers
unfoldable pub k_values_are_valid : List ℕ → Bool
k_values_are_valid [] = true
k_values_are_valid (k ∷ ks) = leb 1 k && not (any (λ j. j == k) ks) && k_values_are_valid ks

-- `none` is the `ValueError`.
unfoldable pub retrieval_metrics :
    List SourceSpan
    → List SourceSpan
    → List ℕ
    → String
    → Bool
    → Option ℕ
    → Option (List ScoredMetric)
unfolding at_all_k k_values_are_valid
retrieval_metrics ranked [] k_values stage complete_relevance_set cohort_id = some []
retrieval_metrics ranked (g ∷ gold) k_values stage complete_relevance_set cohort_id =
    if k_values_are_valid k_values
    then some (at_all_k ranked (g ∷ gold) stage complete_relevance_set cohort_id k_values)
    else none

abbrev pub same_span : SourceSpan → SourceSpan → Bool
same_span a b =
    (a.document_version_id == b.document_version_id)
    && (a.page_number == b.page_number)
    && (a.start_offset == b.start_offset)
    && (a.end_offset == b.end_offset)

-- `tuple(dict.fromkeys(spans))`, without those in `seen`
unfoldable pub distinct_after : List SourceSpan → List SourceSpan → List SourceSpan
distinct_after seen [] = []
distinct_after seen (span ∷ spans) =
    let rest = distinct_after (span ∷ seen) spans in
    let others = distinct_after seen spans in
    if any (same_span span) seen then others else span ∷ rest

abbrev pub citation_metric : String → ℕ → ℕ → ScoredMetric
citation_metric name numerator denominator = record {
  name = name;
  stage = "citation";
  k = none;
  numerator = numerator;
  denominator = denominator;
  cohort_id = none;
}

abbrev pub cited_precision : List SourceSpan → List SourceSpan → List ScoredMetric
cited_precision gold [] = []
cited_precision gold (c ∷ cs) =
    citation_metric "citation_precision" (count_if (is_relevant gold) (c ∷ cs)) (length (c ∷ cs))
    ∷ []

unfoldable pub citation_metrics : List SourceSpan → List SourceSpan → Bool → List ScoredMetric
unfolding covers distinct_after
citation_metrics citations [] complete_relevance_set = []
citation_metrics citations (g ∷ gold) complete_relevance_set =
    let distinct_citations = distinct_after [] citations in
    cited_precision (g ∷ gold) distinct_citations
    ++ (if complete_relevance_set
        then citation_metric "citation_recall" (count_if (is_covered distinct_citations) (g ∷ gold))
            (length (g ∷ gold))
          ∷ []
        else [])

abbrev same_option : Option ℕ → Option ℕ → Bool
same_option none none = true
same_option (some a) (some b) = a == b
same_option _ _ = false

-- equality of the key `(name, stage, k, cohort_id)`
abbrev pub same_group : ScoredMetric → ScoredMetric → Bool
same_group a b =
    str_eq a.name b.name
    && str_eq a.stage b.stage
    && same_option a.k b.k
    && same_option a.cohort_id b.cohort_id

-- one metric counted into its group; the groups stay in the order in which they came
unfoldable pub add_metric : ScoredMetric → List ScoredMetric → List ScoredMetric
add_metric metric [] = metric ∷ []
add_metric metric (group ∷ groups) =
    if same_group group metric
    then record group {
      numerator = group.numerator + metric.numerator;
      denominator = group.denominator + metric.denominator;
    }
      ∷ groups
    else group ∷ add_metric metric groups

unfoldable pub add_metrics : List ScoredMetric → List ScoredMetric → List ScoredMetric
unfolding add_metric
add_metrics [] groups = groups
add_metrics (metric ∷ metrics) groups = add_metrics metrics (add_metric metric groups)

unfoldable pub add_cases : List (List ScoredMetric) → List ScoredMetric → List ScoredMetric
unfolding add_metrics
add_cases [] groups = groups
add_cases (metrics ∷ cases) groups = add_cases cases (add_metrics metrics groups)

unfoldable pub aggregate_metrics : List (List ScoredMetric) → List ScoredMetric
unfolding add_cases
aggregate_metrics cases = add_cases cases []
