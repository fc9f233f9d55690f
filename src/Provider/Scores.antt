-- ===== src/Provider/Scores.antt =====
-- The reranker scores each of its candidates (infrastructure/reranker/mistral.py), which the query
-- service then finds (application/query/service.py).
use mathlib.Core.Path.{subst}
use document_insight.Prelude.{
  ℕ, ◌+◌, ◌≤◌, ◌≡◌, refl, ap, ◌∙◌, inl, inr, true, ◌==◌, none, some, List, [], ◌∷◌, map, all,
  length, arith, All, All-imp, Bool-cases, ==_refl, ◌⊎◌,
}
use document_insight.Chunker.Text.{Text}
use document_insight.Configuration.Models.{RerankingConfiguration, unit}
use document_insight.Store.System.{Result, ok, err}
use document_insight.Query.Models.{RetrievedChunk, RerankScore, QueryError}
use document_insight.Query.Fusion.{Scored, chunk_of}
use document_insight.Query.Evidence.{attach_scores, score_of}
use document_insight.Provider.Reranker.{
  with_scores, by_rank, scores_for, in_unit, normal_scores, checked, typed, rerank,
}

abbrev pub id_of_score : RerankScore → ℕ
id_of_score s = s.chunk_id

abbrev pub id_of_chunk : RetrievedChunk → ℕ
id_of_chunk c = c.chunk_id

-- one score up to 1.0 for each of the candidates, in their order
abbrev pub Scores : List RetrievedChunk → List RerankScore → Type 0
Scores candidates scores =
    (map id_of_score scores ≡ map id_of_chunk candidates) × All (λ s. s.score ≤ unit) scores

with_scores-ids :
    (cs : List RetrievedChunk) (xs : List ℕ)
    → length cs ≡ length xs
    → map id_of_score (with_scores cs xs) ≡ map id_of_chunk cs
with_scores-ids [] xs e = refl
with_scores-ids (c ∷ cs) [] e = absurd (omega (arith, e))
with_scores-ids (c ∷ cs) (x ∷ xs) e =
    ap (λ r. c.chunk_id ∷ r) (with_scores-ids cs xs (omega (arith, e)))

by_rank-ids :
    (reciprocal : ℕ → ℕ) (index : ℕ) (cs : List RetrievedChunk)
    → map id_of_score (by_rank reciprocal index cs) ≡ map id_of_chunk cs
by_rank-ids reciprocal index [] = refl
by_rank-ids reciprocal index (c ∷ cs) =
    ap (λ r. c.chunk_id ∷ r) (by_rank-ids reciprocal (index + 1) cs)

scores_for-ids :
    (reciprocal : ℕ → ℕ) (cs : List RetrievedChunk) (xs : List ℕ)
    → map id_of_score (scores_for reciprocal cs xs) ≡ map id_of_chunk cs
scores_for-ids reciprocal cs xs = elim (Bool-cases (length cs == length xs)) [
  | inl t ↦ rw t (with_scores-ids cs xs (ground (arith, t)))
  | inr t ↦ rw t (by_rank-ids reciprocal 0 cs)
]

normal_scores-ids :
    (scores : List RerankScore) → map id_of_score (normal_scores scores) ≡ map id_of_score scores
normal_scores-ids [] = refl
normal_scores-ids (s ∷ scores) = ap (λ r. s.chunk_id ∷ r) (normal_scores-ids scores)

normal_scores-bounded :
    (scores : List RerankScore)
    → all in_unit scores ≡ true
    → All (λ s. s.score ≤ unit) (normal_scores scores)
normal_scores-bounded [] e = tt
normal_scores-bounded (s ∷ scores) e =
    (ground (arith, e), normal_scores-bounded scores (ground (arith, e)))

-- A reranking that succeeds has one score for each candidate, in their order, and none above 1.0,
-- also where the model's response had another number of scores.
pub rerank-Scores :
    (respond : RerankingConfiguration → Text → List RetrievedChunk → Result QueryError (List ℕ))
    (reciprocal : ℕ → ℕ) (configuration : RerankingConfiguration) (question : Text)
    (candidates : List RetrievedChunk) (scores : List RerankScore)
    → rerank respond reciprocal configuration question candidates ≡ ok scores
    → Scores candidates scores
unfolding rerank
rerank-Scores respond reciprocal configuration question candidates scores e =
    answered (typed (respond configuration question candidates)) e
  where
    checked-Scores :
        (given : List RerankScore)
        → map id_of_score given ≡ map id_of_chunk candidates
        → checked given ≡ ok scores
        → Scores candidates scores
    checked-Scores given ids e = elim (Bool-cases (all in_unit given)) [
      | inr t ↦ absurd (cc (rw t at e))
      | inl t ↦
          let same : ok (normal_scores given) ≡ ok scores = rw t at e in
          subst (Scores candidates) (cc same)
            (normal_scores-ids given ∙ ids, normal_scores-bounded given t)
    ]

    answered :
        (r : Result QueryError (List ℕ))
        → elim r [ err e ↦ err e | ok xs ↦ checked (scores_for reciprocal candidates xs) ]
          ≡ ok scores
        → Scores candidates scores
    answered (err e) h = cc
    answered (ok xs) h =
        checked-Scores (scores_for reciprocal candidates xs)
          (scores_for-ids reciprocal candidates xs) h

abbrev pub Found : List RerankScore → ℕ → Type 0
Found scores id = (x : ℕ) × (score_of id scores ≡ some x) × (x ≤ unit)

-- What a later entry has, the dict keeps.
Found-later :
    (s : RerankScore) (scores : List RerankScore) (id : ℕ) → Found scores id → Found (s ∷ scores) id
unfolding score_of
Found-later s scores id (x, e, bound) = (x, rw e refl, bound)

score_of-cases :
    (scores : List RerankScore) (id : ℕ)
    → All (λ t. t.score ≤ unit) scores
    → (score_of id scores ≡ none) ⊎ Found scores id
unfolding score_of
score_of-cases [] id h = inl refl
score_of-cases (s ∷ scores) id h = elim (score_of-cases scores id h.1) [
  | inr found ↦ inr (Found-later s scores id found)
  | inl missing ↦ elim (Bool-cases (s.chunk_id == id)) [
    | inl t ↦ inr (s.score, rw (missing, t) refl, h.0)
    | inr t ↦ inl (rw (missing, t) refl)
  ]
]

Found-here :
    (s : RerankScore) (scores : List RerankScore)
    → All (λ t. t.score ≤ unit) (s ∷ scores)
    → Found (s ∷ scores) s.chunk_id
unfolding score_of
Found-here s scores h = elim (score_of-cases scores s.chunk_id h.1) [
  | inl missing ↦ (s.score, rw (missing, ==_refl s.chunk_id) refl, h.0)
  | inr found ↦ Found-later s scores s.chunk_id found
]

-- Every candidate is found.
Scores-Found :
    (candidates : List RetrievedChunk) (scores : List RerankScore)
    → map id_of_score scores ≡ map id_of_chunk candidates
    → All (λ s. s.score ≤ unit) scores
    → All (λ c. Found scores c.chunk_id) candidates
Scores-Found [] scores e h = tt
Scores-Found (c ∷ cs) [] e h = absurd (cc e)
Scores-Found (c ∷ cs) (s ∷ scores) e h =
    let same : s.chunk_id ≡ c.chunk_id = cc e in
    (
      subst (Found (s ∷ scores)) same (Found-here s scores h),
      All-imp (λ d. Found scores d.chunk_id) (λ d. Found (s ∷ scores) d.chunk_id)
          (λ d found. Found-later s scores d.chunk_id found) cs (Scores-Found cs scores (cc e) h.1),
    )

-- the candidates themselves, each with a score up to 1.0
abbrev pub Ranked : List RetrievedChunk → List Scored → Type 0
Ranked candidates xs = (map chunk_of xs ≡ candidates) × All (λ x. x.score ≤ unit) xs

attach_scores-Ranked :
    (scores : List RerankScore) (candidates : List RetrievedChunk)
    → All (λ c. Found scores c.chunk_id) candidates
    → (xs : List Scored) × (attach_scores scores candidates ≡ ok xs) × Ranked candidates xs
unfolding attach_scores
attach_scores-Ranked scores [] h = ([], refl, (refl, tt))
attach_scores-Ranked scores (c ∷ cs) ((x, found, bound), h) =
    let (xs, attached, (same, bounded)) = attach_scores-Ranked scores cs h in
    (
      record { chunk = c; score = x } ∷ xs,
      rw (found, attached) refl,
      (ap (λ r. c ∷ r) same, (bound, bounded)),
    )

-- What the reranker gives, the query service attaches to all of the candidates: no lookup of a score
-- fails.
pub rerank-Ranked :
    (respond : RerankingConfiguration → Text → List RetrievedChunk → Result QueryError (List ℕ))
    (reciprocal : ℕ → ℕ) (configuration : RerankingConfiguration) (question : Text)
    (candidates : List RetrievedChunk) (scores : List RerankScore)
    → rerank respond reciprocal configuration question candidates ≡ ok scores
    → (xs : List Scored) × (attach_scores scores candidates ≡ ok xs) × Ranked candidates xs
rerank-Ranked respond reciprocal configuration question candidates scores e =
    let (ids, bounded) =
      rerank-Scores respond reciprocal configuration question candidates scores e in
    attach_scores-Ranked scores candidates (Scores-Found candidates scores ids bounded)
