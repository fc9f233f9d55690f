-- ===== src/Query/Grounding.antt =====
-- What an answer may cite.
use mathlib.Core.Path.{subst}
use document_insight.Prelude.{
  ℕ, ◌≤◌, ◌≡◌, refl, Bool, true, false, Option, none, some, List, [], ◌∷◌, ◌++◌, leb, leb→le, ltb,
  map, take, All, All-imp, All-append, All-take, All-map, All-kept, All-keep_if, All-and,
  if◌then◌else◌,
}
use document_insight.Chunker.Text.{Text}
use document_insight.Configuration.Models.{
  GenerationConfiguration, RetrievalConfiguration, ResolvedQueryProfile,
}
use document_insight.Store.System.{Result, ok, err}
use document_insight.Query.Models.{
  RetrievedChunk, EntityMatch, RetrievalScope, PrepareQueryCommand, GroundedAnswer, QueryError,
  QueryCitation, QueryResult, Providers, invalid_grounding, query_profile_unavailable,
  query_provider_unavailable, key_error, value_error, embedding_error, index_error, other,
}
use document_insight.Query.Fusion.{Scored, fuse}
use document_insight.Query.Service.{
  lexical_lists, vector_lists, rerank, answer_from, entity_matches, answer_reranked,
  rank_and_answer, search_vectors, search_lexical, run_stages,
}
use document_insight.Query.Evidence.{
  select_evidence, above_threshold, nonempty, cited_entries, citation_of, grounded,
  after_generation, lexical_query, match_version,
}
use document_insight.Query.Propagation.{
  AllOk, AnyOk, always, bind-AllOk, On, Retrieves, fuse-All, lexical_lists-AllOk,
  vector_lists-AllOk, rerank-AllOk, cited_entries-On,
}

module _ (P : RetrievedChunk → Type 0) (floor : ℕ) where
  -- a scored chunk that may be cited
  abbrev pub Citable : Scored → Type 0
  Citable x = P x.chunk × (floor ≤ x.score)

  -- a citation of one
  abbrev pub Backed : QueryCitation → Type 0
  Backed c = (x : Scored) × Citable x × (c ≡ citation_of x)

  Evidence : Option (List Scored) → Type 0
  Evidence none = Unit
  Evidence (some xs) = All Citable xs

  nonempty-Evidence : (xs : List Scored) → All Citable xs → Evidence (nonempty xs)
  unfolding Evidence
  nonempty-Evidence [] h = tt
  nonempty-Evidence (x ∷ xs) h = h

  if-Evidence :
      (b : Bool) (found : Option (List Scored))
      → Evidence found
      → Evidence (if b then none else found)
  unfolding Evidence
  if-Evidence true found h = tt
  if-Evidence false found h = h

  grounded-Backed :
      (matches : List EntityMatch) (answer : Text) (xs : List Scored)
      → All Citable xs
      → AllOk (λ (r : QueryResult). All Backed r.citations) (grounded matches answer xs)
  unfolding AllOk
  grounded-Backed matches answer [] h = tt
  grounded-Backed matches answer (x ∷ xs) h =
      All-map Backed citation_of (x ∷ xs) (All-imp Citable _ (λ y c. (y, c, refl)) (x ∷ xs) h)

  after_generation-Backed :
      (matches : List EntityMatch) (citable : List Scored)
      (answer : Result QueryError GroundedAnswer)
      → All Citable citable
      → AllOk
          (λ (r : QueryResult). All Backed r.citations)
          (after_generation matches citable answer)
  unfolding AllOk
  after_generation-Backed matches citable (ok answer) h =
      grounded-Backed matches answer.answer (cited_entries answer.cited_chunk_ids citable)
        (cited_entries-On P Citable answer.cited_chunk_ids citable h)
  after_generation-Backed matches citable (err invalid_grounding) h = tt
  after_generation-Backed matches citable (err query_profile_unavailable) h = tt
  after_generation-Backed matches citable (err query_provider_unavailable) h = tt
  after_generation-Backed matches citable (err key_error) h = tt
  after_generation-Backed matches citable (err value_error) h = tt
  after_generation-Backed matches citable (err embedding_error) h = tt
  after_generation-Backed matches citable (err index_error) h = tt
  after_generation-Backed matches citable (err other) h = tt

  answer_from-Backed :
      (providers : Providers) (configuration : GenerationConfiguration) (question : Text)
      (matches : List EntityMatch) (found : Option (List Scored))
      → Evidence found
      → AllOk
          (λ (r : QueryResult). All Backed r.citations)
          (answer_from providers configuration question matches found)
  unfolding AllOk Evidence
  answer_from-Backed providers configuration question matches none h = tt
  answer_from-Backed providers configuration question matches (some citable) h =
      after_generation-Backed matches citable _ h

select_evidence-Evidence :
    (P : RetrievedChunk → Type 0) (retrieval : RetrievalConfiguration) (top_k : ℕ)
    (xs : List Scored)
    → All (On P) xs
    → Evidence P retrieval.min_citation_score (select_evidence retrieval top_k xs)
unfolding select_evidence Evidence
select_evidence-Evidence P retrieval top_k xs h = above (take top_k xs) (All-take (On P) top_k xs h)
  where
    above :
        (ys : List Scored)
        → All (On P) ys
        → Evidence P retrieval.min_citation_score (above_threshold retrieval ys)
    above [] h = tt
    above (y ∷ ys) h =
        if-Evidence P retrieval.min_citation_score
          (ltb y.score retrieval.insufficient_evidence_threshold) _
          (nonempty-Evidence P retrieval.min_citation_score _ (
            All-and (On P) (λ x. retrieval.min_citation_score ≤ x.score) _
              (All-kept (On P) (λ x. leb retrieval.min_citation_score x.score) (y ∷ ys) h)
              (All-keep_if _ (λ x. leb retrieval.min_citation_score x.score)
                (λ x e. leb→le retrieval.min_citation_score x.score e) (y ∷ ys))))

module _ (P : RetrievedChunk → Type 0) (providers : Providers) (scope : RetrievalScope)
    (retrieves : Retrieves P providers scope) where
  module _ (command : PrepareQueryCommand) (profile : ResolvedQueryProfile) where
    abbrev Grounded : Result QueryError QueryResult → Type 0
    Grounded =
        AllOk (λ (r : QueryResult). All (Backed P profile.retrieval.min_citation_score) r.citations)

    abbrev Cites : QueryResult → Type 0
    Cites r = All (Backed P profile.retrieval.min_citation_score) r.citations

    rank_and_answer-Grounded :
        (matches : List EntityMatch) (lists : List (List RetrievedChunk))
        → All (All P) lists
        → Grounded (rank_and_answer providers command profile matches lists)
    rank_and_answer-Grounded matches lists h =
        let fused =
          fuse providers lists (map match_version matches) profile.retrieval.rrf_k
            profile.retrieval.entity_match_boost in
        bind-AllOk (All (On P)) Cites
          (rerank providers profile.reranking command.question fused
            profile.retrieval.rerank_candidate_limit)
          (answer_reranked providers command profile matches)
          (rerank-AllOk P providers profile.reranking command.question fused
            profile.retrieval.rerank_candidate_limit
            (fuse-All P providers lists (map match_version matches) profile.retrieval.rrf_k
              profile.retrieval.entity_match_boost h))
          (λ reranked k.
            answer_from-Backed P profile.retrieval.min_citation_score providers profile.generation
              command.question matches (select_evidence profile.retrieval command.top_k reranked)
              (select_evidence-Evidence P profile.retrieval command.top_k reranked k))

    search_vectors-Grounded :
        (matches : List EntityMatch) (lexical : List (List RetrievedChunk))
        → All (All P) lexical
        → Grounded (search_vectors providers command scope profile matches lexical)
    search_vectors-Grounded matches lexical h =
        bind-AllOk (All (All P)) Cites
          (vector_lists providers scope command.question profile.retrieval.vector_candidate_limit
            profile.embedding_configurations)
          (λ vectors. rank_and_answer providers command profile matches (lexical ++ vectors))
          (vector_lists-AllOk P providers scope retrieves command.question
            profile.retrieval.vector_candidate_limit profile.embedding_configurations)
          (λ vectors k.
            rank_and_answer-Grounded matches (lexical ++ vectors)
              (All-append (All P) lexical vectors h k))

    search_lexical-Grounded :
        (matches : List EntityMatch)
        → Grounded (search_lexical providers command scope profile matches)
    search_lexical-Grounded matches =
        bind-AllOk (All (All P)) Cites
          (lexical_lists providers scope (lexical_query command.question command.filter_text)
            profile.retrieval.lexical_candidate_limit profile.lexical_profile_ids)
          (search_vectors providers command scope profile matches)
          (lexical_lists-AllOk P providers scope retrieves
            (lexical_query command.question command.filter_text)
            profile.retrieval.lexical_candidate_limit profile.lexical_profile_ids)
          (search_vectors-Grounded matches)

    run_stages-Grounded : Grounded (run_stages providers command scope profile)
    unfolding run_stages
    run_stages-Grounded =
        bind-AllOk AnyOk Cites
          (entity_matches providers scope profile.retrieval command.filter_text)
          (search_lexical providers command scope profile)
          (always (entity_matches providers scope profile.retrieval command.filter_text))
          (λ matches u. search_lexical-Grounded matches)

-- Whatever property every branch of retrieval gives its chunks within a scope, such as lying in it:
-- each citation of an answer is of a chunk with that property, with the chunk's own document, page
-- and text, and with a score of at least the profile's citation floor.
pub run_stages-Backed :
    (P : RetrievedChunk → Type 0) (providers : Providers)
    → (scope : RetrievalScope) → Retrieves P providers scope
    → (command : PrepareQueryCommand) (profile : ResolvedQueryProfile) (r : QueryResult)
    → run_stages providers command scope profile ≡ ok r
    → All (Backed P profile.retrieval.min_citation_score) r.citations
unfolding AllOk
run_stages-Backed P providers scope retrieves command profile r e =
    subst
      (AllOk (λ (x : QueryResult). All (Backed P profile.retrieval.min_citation_score) x.citations))
      e (run_stages-Grounded P providers scope retrieves command profile)
