-- ===== src/Provider/Reranker.antt =====
-- `MistralReranker.rerank` (infrastructure/reranker/mistral.py). A double is its bit pattern; the
-- request's texts are what the client is called with.
use document_insight.Prelude.{ℕ, ◌+◌, Bool, ◌==◌, List, [], ◌∷◌, all, length, if◌then◌else◌}
use document_insight.Chunker.Text.{Text}
use document_insight.Configuration.Models.{RerankingConfiguration, unit, up_to}
use document_insight.Store.System.{Result, ok, err}
use document_insight.Query.Models.{
  RetrievedChunk, RerankScore, QueryError, query_provider_unavailable,
}

-- A negative zero is the score 0.
abbrev pub score_of_bits : ℕ → ℕ
score_of_bits x = if x == 0x8000000000000000 then 0 else x

-- `zip` of two sequences of one length
abbrev pub with_scores : List RetrievedChunk → List ℕ → List RerankScore
with_scores [] scores = []
with_scores (c ∷ cs) [] = []
with_scores (c ∷ cs) (x ∷ xs) = record { chunk_id = c.chunk_id; score = x } ∷ with_scores cs xs

-- 1.0 / (index + 1), by the division of doubles
abbrev pub by_rank : (ℕ → ℕ) → ℕ → List RetrievedChunk → List RerankScore
by_rank reciprocal index [] = []
by_rank reciprocal index (c ∷ cs) =
    record { chunk_id = c.chunk_id; score = reciprocal (index + 1) }
    ∷ by_rank reciprocal (index + 1) cs

abbrev pub scores_for : (ℕ → ℕ) → List RetrievedChunk → List ℕ → List RerankScore
scores_for reciprocal candidates scores =
    if length candidates == length scores
    then with_scores candidates scores
    else by_rank reciprocal 0 candidates

-- `isfinite(score) and 0.0 <= score <= 1.0`
abbrev pub in_unit : RerankScore → Bool
in_unit s = up_to unit s.score

abbrev pub normal : RerankScore → RerankScore
normal s = record s { score = score_of_bits s.score }

abbrev pub normal_scores : List RerankScore → List RerankScore
normal_scores [] = []
normal_scores (s ∷ scores) = normal s ∷ normal_scores scores

abbrev pub checked : List RerankScore → Result QueryError (List RerankScore)
checked scores =
    if all in_unit scores then ok (normal_scores scores) else err query_provider_unavailable

-- The schema asks for a score; a response without one leaves the provider unavailable.
abbrev pub typed : Result QueryError (List ℕ) → Result QueryError (List ℕ)
typed (err e) = err e
typed (ok []) = err query_provider_unavailable
typed (ok (x ∷ xs)) = ok (x ∷ xs)

-- `respond` is the completion: the scores of the response, or an exception.
unfoldable pub rerank :
    (RerankingConfiguration → Text → List RetrievedChunk → Result QueryError (List ℕ))
    → (ℕ → ℕ)
    → RerankingConfiguration
    → Text
    → List RetrievedChunk
    → Result QueryError (List RerankScore)
rerank respond reciprocal configuration question candidates =
    elim (typed (respond configuration question candidates)) [
      | err e ↦ err e
      | ok scores ↦ checked (scores_for reciprocal candidates scores)
    ]
