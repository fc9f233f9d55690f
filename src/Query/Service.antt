-- ===== src/Query/Service.antt =====
-- `QueryPreparationService.query` (application/query/service.py). Metrics, traces and the release of
-- the database session are left out.
use document_insight.Prelude.{ℕ, Option, none, some, List, [], ◌∷◌, ◌++◌, map, take}
use document_insight.Chunker.Text.{Text}
use document_insight.Configuration.Models.{
  EmbeddingConfiguration, RerankingConfiguration, GenerationConfiguration, RetrievalConfiguration,
  ResolvedQueryProfile,
}
use document_insight.Store.Active.{get_query_profile_id, platform}
use document_insight.Store.System.{Database, Result, ok, err}
use document_insight.Query.Models.{
  RetrievedChunk, EntityMatch, RetrievalScope, PrepareQueryCommand, QueryError, value_error,
  QueryResult, Providers,
}
use document_insight.Query.Fusion.{Scored, sort_scored, fuse, chunk_of}
use document_insight.Query.Evidence.{
  ◌>>=◌, authorized_departments, is_value_error, is_embedding_failure, unavailable_if,
  insufficient_evidence, attach_scores, select_evidence, cited_entries, match_version,
  after_generation, lexical_query, scope_of, profile_or_active,
}

module _ (providers : Providers) where
  unfoldable pub lexical_lists :
      RetrievalScope → Text → ℕ → List ℕ → Result QueryError (List (List RetrievedChunk))
  lexical_lists scope text limit [] = ok []
  lexical_lists scope text limit (cohort ∷ cohorts) = do
    candidates ← providers.lexical_search scope cohort text limit
    rest ← lexical_lists scope text limit cohorts
    ok (candidates ∷ rest)

  -- `_vector_lists`
  unfoldable pub vector_lists :
      RetrievalScope
      → Text
      → ℕ
      → List (ℕ × EmbeddingConfiguration)
      → Result QueryError (List (List RetrievedChunk))
  vector_lists scope question limit [] = ok []
  vector_lists scope question limit ((profile_id, configuration) ∷ cohorts) = do
    vector ← unavailable_if is_embedding_failure (providers.embed configuration question)
    candidates ← providers.vector_search scope profile_id vector limit
    rest ← vector_lists scope question limit cohorts
    ok (candidates ∷ rest)

  abbrev pub rerank_capped :
      RerankingConfiguration → Text → List RetrievedChunk → Result QueryError (List Scored)
  rerank_capped configuration question [] = ok []
  rerank_capped configuration question (c ∷ cs) = do
    scores ← unavailable_if is_value_error (providers.rerank configuration question (c ∷ cs))
    scored ← attach_scores scores (c ∷ cs)
    ok (sort_scored scored)

  -- `_rerank`
  unfoldable pub rerank :
      RerankingConfiguration → Text → List RetrievedChunk → ℕ → Result QueryError (List Scored)
  unfolding attach_scores sort_scored
  rerank configuration question candidates limit =
      rerank_capped configuration question (take limit candidates)

  abbrev pub answer_from :
      GenerationConfiguration
      → Text
      → List EntityMatch
      → Option (List Scored)
      → Result QueryError QueryResult
  answer_from configuration question matches none = ok insufficient_evidence
  answer_from configuration question matches (some citable) = after_generation matches citable (
      unavailable_if is_value_error
        (providers.generate configuration question (map chunk_of citable)))

  abbrev pub entity_matches :
      RetrievalScope → RetrievalConfiguration → Option Text → Result QueryError (List EntityMatch)
  entity_matches scope retrieval none = ok []
  entity_matches scope retrieval (some filter_text) =
      providers.find_entity_matches scope filter_text retrieval.rerank_candidate_limit

  abbrev pub answer_reranked :
      PrepareQueryCommand
      → ResolvedQueryProfile
      → List EntityMatch
      → List Scored
      → Result QueryError QueryResult
  answer_reranked command profile matches reranked =
      answer_from profile.generation command.question matches
        (select_evidence profile.retrieval command.top_k reranked)

  abbrev pub rank_and_answer :
      PrepareQueryCommand
      → ResolvedQueryProfile
      → List EntityMatch
      → List (List RetrievedChunk)
      → Result QueryError QueryResult
  rank_and_answer command profile matches ranked_lists =
      rerank profile.reranking command.question
        (fuse providers ranked_lists (map match_version matches) profile.retrieval.rrf_k
          profile.retrieval.entity_match_boost)
        profile.retrieval.rerank_candidate_limit
      >>= answer_reranked command profile matches

  abbrev pub search_vectors :
      PrepareQueryCommand
      → RetrievalScope
      → ResolvedQueryProfile
      → List EntityMatch
      → List (List RetrievedChunk)
      → Result QueryError QueryResult
  search_vectors command scope profile matches lexical =
      vector_lists scope command.question profile.retrieval.vector_candidate_limit
        profile.embedding_configurations
      >>= λ vectors. rank_and_answer command profile matches (lexical ++ vectors)

  abbrev pub search_lexical :
      PrepareQueryCommand
      → RetrievalScope
      → ResolvedQueryProfile
      → List EntityMatch
      → Result QueryError QueryResult
  search_lexical command scope profile matches =
      lexical_lists scope (lexical_query command.question command.filter_text)
        profile.retrieval.lexical_candidate_limit profile.lexical_profile_ids
      >>= search_vectors command scope profile matches

  -- the stages under one resolved profile
  unfoldable pub run_stages :
      PrepareQueryCommand → RetrievalScope → ResolvedQueryProfile → Result QueryError QueryResult
  unfolding lexical_lists vector_lists fuse rerank select_evidence cited_entries
  run_stages command scope profile =
      entity_matches scope profile.retrieval command.filter_text
      >>= search_lexical command scope profile

  -- `_query`; the profile is resolved twice, once by `_prepare`
  unfoldable pub query_under :
      PrepareQueryCommand → Option ℕ → Option (List ℕ) → Database → Result QueryError QueryResult
  unfolding authorized_departments run_stages
  query_under command query_profile_id allowed_version_ids d = do
    profile_id ←
        profile_or_active query_profile_id (get_query_profile_id platform d.active_profiles)
    prepared ← providers.resolve profile_id
    profile ← providers.resolve prepared.query_profile_id
    run_stages command (scope_of command allowed_version_ids d) profile

  unfoldable pub query : PrepareQueryCommand → Database → Result QueryError QueryResult
  unfolding query_under
  query command d = query_under command none none d

  -- `query_for_evaluation`; no allowed version is the `ValueError`
  unfoldable pub query_for_evaluation :
      PrepareQueryCommand → ℕ → List ℕ → Database → Result QueryError QueryResult
  unfolding query_under
  query_for_evaluation command query_profile_id [] d = err value_error
  query_for_evaluation command query_profile_id (v ∷ vs) d =
      query_under command (some query_profile_id) (some (v ∷ vs)) d
