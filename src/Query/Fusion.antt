-- ===== src/Query/Fusion.antt =====
-- `_fuse` and the orders of `_fuse` and `_rerank` (application/query/service.py). A UUID's text orders
-- as its number does.
use document_insight.Prelude.{
  ℕ, ◌+◌, Bool, ◌&&◌, ◌||◌, List, [], ◌∷◌, ◌==◌, leb, ltb, map, if◌then◌else◌,
}
use document_insight.Store.Documents.{contains}
use document_insight.Query.Models.{RetrievedChunk, Providers}

-- a chunk with the score that it is ranked by
pub record Scored : Type 0 where
  pub chunk : RetrievedChunk
  pub score : ℕ

-- the order of the key `(-score, str(chunk_id))`
abbrev pub comes_first : Scored → Scored → Bool
comes_first a b =
    ltb b.score a.score || ((a.score == b.score) && leb a.chunk.chunk_id b.chunk.chunk_id)

unfoldable pub insert_scored : Scored → List Scored → List Scored
insert_scored x [] = x ∷ []
insert_scored x (y ∷ ys) = if comes_first x y then x ∷ y ∷ ys else y ∷ insert_scored x ys

unfoldable pub sort_scored : List Scored → List Scored
unfolding insert_scored
sort_scored [] = []
sort_scored (x ∷ xs) = insert_scored x (sort_scored xs)

abbrev pub chunk_of : Scored → RetrievedChunk
chunk_of entry = entry.chunk

module _ (providers : Providers) where
  -- the two dicts as one list in insertion order; the latest candidate of an id replaces the chunk
  unfoldable pub add_candidate : RetrievedChunk → ℕ → List Scored → List Scored
  add_candidate candidate gain [] = record { chunk = candidate; score = gain } ∷ []
  add_candidate candidate gain (entry ∷ entries) =
      if entry.chunk.chunk_id == candidate.chunk_id
      then record { chunk = candidate; score = providers.add entry.score gain } ∷ entries
      else entry ∷ add_candidate candidate gain entries

  -- one ranked list, from the rank on
  unfoldable pub add_list : ℕ → ℕ → List RetrievedChunk → List Scored → List Scored
  unfolding add_candidate
  add_list rrf_k rank [] entries = entries
  add_list rrf_k rank (candidate ∷ candidates) entries =
      add_list rrf_k (rank + 1) candidates
        (add_candidate candidate (providers.reciprocal (rrf_k + rank)) entries)

  unfoldable pub add_lists : ℕ → List (List RetrievedChunk) → List Scored → List Scored
  unfolding add_list
  add_lists rrf_k [] entries = entries
  add_lists rrf_k (candidates ∷ ranked_lists) entries =
      add_lists rrf_k ranked_lists (add_list rrf_k 1 candidates entries)

  abbrev pub boosted : List ℕ → ℕ → Scored → Scored
  boosted entity_version_ids entity_boost entry = record entry {
    score =
        if contains entity_version_ids entry.chunk.document_version_id
        then providers.add entry.score entity_boost
        else entry.score;
  }

  unfoldable pub fuse : List (List RetrievedChunk) → List ℕ → ℕ → ℕ → List RetrievedChunk
  unfolding add_lists sort_scored
  fuse ranked_lists entity_version_ids rrf_k entity_boost = map chunk_of (
      sort_scored (map (boosted entity_version_ids entity_boost) (add_lists rrf_k ranked_lists [])))
