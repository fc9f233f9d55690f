-- ===== src/Evaluation/Aggregation.antt =====
-- Micro-averaging over the cases of a run.
use document_insight.Prelude.{ℕ, ◌+◌, ◌≡◌, refl, inl, inr, List, [], ◌∷◌, arith, All, Bool-cases}
use document_insight.Evaluation.Scoring.{
  ScoredMetric, same_group, add_metric, add_metrics, add_cases, aggregate_metrics,
}
use document_insight.Evaluation.Bounds.{IsFraction}

add_metric-IsFraction :
    (m : ScoredMetric) (groups : List ScoredMetric)
    → IsFraction m
    → All IsFraction groups
    → All IsFraction (add_metric m groups)
unfolding add_metric
add_metric-IsFraction m [] f h = (f, tt)
add_metric-IsFraction m (g ∷ groups) f h = elim (Bool-cases (same_group g m)) [
  | inl e ↦ simp e ((omega (arith, f, h.0), omega (arith, f, h.0)), h.1)
  | inr e ↦ simp e (h.0, add_metric-IsFraction m groups f h.1)
]

add_metrics-IsFraction :
    (ms groups : List ScoredMetric)
    → All IsFraction ms
    → All IsFraction groups
    → All IsFraction (add_metrics ms groups)
unfolding add_metrics
add_metrics-IsFraction [] groups f h = h
add_metrics-IsFraction (m ∷ ms) groups f h =
    add_metrics-IsFraction ms (add_metric m groups) f.1 (add_metric-IsFraction m groups f.0 h)

add_cases-IsFraction :
    (cases : List (List ScoredMetric)) (groups : List ScoredMetric)
    → All (λ ms. All IsFraction ms) cases
    → All IsFraction groups
    → All IsFraction (add_cases cases groups)
unfolding add_cases
add_cases-IsFraction [] groups f h = h
add_cases-IsFraction (ms ∷ cases) groups f h =
    add_cases-IsFraction cases (add_metrics ms groups) f.1 (add_metrics-IsFraction ms groups f.0 h)

-- The aggregate of fractions is made of fractions: no quotient of a run divides by 0 or exceeds 1.
pub aggregate_metrics-IsFraction :
    (cases : List (List ScoredMetric))
    → All (λ ms. All IsFraction ms) cases
    → All IsFraction (aggregate_metrics cases)
unfolding aggregate_metrics
aggregate_metrics-IsFraction cases f = add_cases-IsFraction cases [] f tt

-- the numerators and the denominators of a list, summed
abbrev pub sum_of : (ScoredMetric → ℕ) → List ScoredMetric → ℕ
sum_of f [] = 0
sum_of f (m ∷ ms) = f m + sum_of f ms

abbrev pub sum_of_cases : (ScoredMetric → ℕ) → List (List ScoredMetric) → ℕ
sum_of_cases f [] = 0
sum_of_cases f (ms ∷ cases) = sum_of f ms + sum_of_cases f cases

abbrev pub numerator : ScoredMetric → ℕ
numerator m = m.numerator

abbrev pub denominator : ScoredMetric → ℕ
denominator m = m.denominator

-- a count that merging two metrics of a group adds up
abbrev IsCount : (ScoredMetric → ℕ) → Type 0
IsCount f =
    (g m : ScoredMetric)
    → f (record g {
      numerator = g.numerator + m.numerator;
      denominator = g.denominator + m.denominator;
    })
      ≡ f g + f m

module _ (f : ScoredMetric → ℕ) (counts : IsCount f) where
  add_metric-sum :
      (m : ScoredMetric) (groups : List ScoredMetric)
      → sum_of f (add_metric m groups) ≡ f m + sum_of f groups
  unfolding add_metric
  add_metric-sum m [] = refl
  add_metric-sum m (g ∷ groups) = elim (Bool-cases (same_group g m)) [
    | inl e ↦ simp e (omega (arith, counts g m))
    | inr e ↦ simp e (omega (arith, add_metric-sum m groups))
  ]

  add_metrics-sum :
      (ms groups : List ScoredMetric)
      → sum_of f (add_metrics ms groups) ≡ sum_of f ms + sum_of f groups
  unfolding add_metrics
  add_metrics-sum [] groups = omega arith
  add_metrics-sum (m ∷ ms) groups =
      omega (arith, add_metrics-sum ms (add_metric m groups), add_metric-sum m groups)

  add_cases-sum :
      (cases : List (List ScoredMetric)) (groups : List ScoredMetric)
      → sum_of f (add_cases cases groups) ≡ sum_of_cases f cases + sum_of f groups
  unfolding add_cases
  add_cases-sum [] groups = omega arith
  add_cases-sum (ms ∷ cases) groups =
      omega (arith, add_cases-sum cases (add_metrics ms groups), add_metrics-sum ms groups)

-- Aggregation loses no count: the numerators of the groups sum up to those of all the cases, and so
-- do the denominators.
pub aggregate_metrics-sum :
    (cases : List (List ScoredMetric))
    → (sum_of numerator (aggregate_metrics cases) ≡ sum_of_cases numerator cases)
      × (sum_of denominator (aggregate_metrics cases) ≡ sum_of_cases denominator cases)
unfolding aggregate_metrics
aggregate_metrics-sum cases = (
  omega (arith, add_cases-sum numerator (λ g m. refl) cases []),
  omega (arith, add_cases-sum denominator (λ g m. refl) cases []),
)
