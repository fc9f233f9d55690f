-- ===== src/Query/Authorization.antt =====
-- The query service with the retrieval repository and the profile resolver behind it: what a caller
-- can be shown (application/query/service.py, infrastructure/retrieval/repository.py).
use mathlib.Core.Path.{subst}
use document_insight.Prelude.{ℕ, ◌≡◌, ap, Option, none, some, List, [], ◌∷◌, All, All-imp}
use document_insight.Chunker.Text.{Text}
use document_insight.Configuration.Models.{
  EmbeddingConfiguration, RerankingConfiguration, GenerationConfiguration, ResolvedQueryProfile,
}
use document_insight.Store.Chunks.{Vector}
use document_insight.Store.Active.{get_query_profile_id, platform}
use document_insight.Store.System.{Database, Result, ok, err}
use document_insight.Query.Models.{
  RetrievedChunk, RetrievalScope, PrepareQueryCommand, RerankScore, GroundedAnswer, QueryError,
  query_profile_unavailable, QueryCitation, QueryResult, Providers,
}
use document_insight.Query.Evidence.{scope_of, profile_or_active}
use document_insight.Query.Service.{query_under, run_stages, query, query_for_evaluation}
use document_insight.Query.Propagation.{AllOk, AnyOk, always, bind-AllOk, to_AllOk, Retrieves}
use document_insight.Query.Grounding.{Backed, run_stages-Backed}
use document_insight.Query.Resolver.{resolve_query}
use document_insight.Retrieval.Repository.{
  Engine, find_entity_matches, lexical_search, vector_search,
}
use document_insight.Retrieval.Scope.{IsInScope, lexical_search-IsInScope, vector_search-IsInScope}

-- the models behind the service, and the arithmetic of doubles
pub record Adapters : Type 0 where
  pub engine : Engine
  pub embed : EmbeddingConfiguration → Text → Result QueryError Vector
  pub rerank :
      RerankingConfiguration → Text → List RetrievedChunk → Result QueryError (List RerankScore)
  pub generate :
      GenerationConfiguration → Text → List RetrievedChunk → Result QueryError GroundedAnswer
  pub add : ℕ → ℕ → ℕ
  pub reciprocal : ℕ → ℕ

abbrev or_unavailable : Option ResolvedQueryProfile → Result QueryError ResolvedQueryProfile
or_unavailable none = err query_profile_unavailable
or_unavailable (some profile) = ok profile

-- `QueryPreparationService` as api/dependencies.py puts it together
abbrev pub providers_of : Adapters → Database → Providers
providers_of a d = record {
  find_entity_matches = λ scope text limit. ok (find_entity_matches a.engine d scope text limit);
  lexical_search = λ scope id text limit. ok (lexical_search a.engine d scope id text limit);
  embed = a.embed;
  vector_search = λ scope id vector limit. ok (vector_search a.engine d scope id vector limit);
  rerank = a.rerank;
  generate = a.generate;
  resolve = λ id. or_unavailable (resolve_query id d.profiles);
  add = a.add;
  reciprocal = a.reciprocal;
}

-- A citation of a passage in the scope: the passage's own document, version, page and text.
pub record IsPermitted (scope : RetrievalScope) (d : Database) (c : QueryCitation) : Type 0 where
  pub passage : RetrievedChunk
  pub in_scope : IsInScope scope d passage
  pub same_document : c.document_id ≡ passage.document_id
  pub same_version : c.document_version_id ≡ passage.document_version_id
  pub same_page : c.page_number ≡ passage.page_number
  pub same_text : c.quote ≡ passage.text

module _ (a : Adapters) (d : Database) (scope : RetrievalScope) where
  retrieves : Retrieves (IsInScope scope d) (providers_of a d) scope
  unfolding AllOk
  retrieves = (
    λ cohort text limit cs e.
        subst (AllOk (All (IsInScope scope d))) e
          (lexical_search-IsInScope scope d a.engine cohort text limit),
    λ cohort vector limit cs e.
        subst (AllOk (All (IsInScope scope d))) e
          (vector_search-IsInScope scope d a.engine cohort vector limit),
  )

  abbrev Permits : QueryResult → Type 0
  Permits r = All (IsPermitted scope d) r.citations

  run_stages-Permits :
      (command : PrepareQueryCommand) (profile : ResolvedQueryProfile)
      → AllOk Permits (run_stages (providers_of a d) command scope profile)
  run_stages-Permits command profile =
      to_AllOk Permits (run_stages (providers_of a d) command scope profile) (λ r e.
        All-imp (Backed (IsInScope scope d) profile.retrieval.min_citation_score)
          (IsPermitted scope d)
          (λ c b. record {
            passage = b.0.chunk;
            in_scope = b.1.0;
            same_document = ap (λ x. x.document_id) b.2;
            same_version = ap (λ x. x.document_version_id) b.2;
            same_page = ap (λ x. x.page_number) b.2;
            same_text = ap (λ x. x.quote) b.2;
          })
          r.citations
          (run_stages-Backed (IsInScope scope d) (providers_of a d) scope retrieves command profile
            r e))

query_under-Permits :
    (a : Adapters) (d : Database) (command : PrepareQueryCommand) (profile_id : Option ℕ)
    (versions : Option (List ℕ))
    → AllOk
        (Permits a d (scope_of command versions d))
        (query_under (providers_of a d) command profile_id versions d)
unfolding query_under
query_under-Permits a d command profile_id versions =
    let scope = scope_of command versions d in
    let goal = Permits a d scope in
    bind-AllOk AnyOk goal
      (profile_or_active profile_id (get_query_profile_id platform d.active_profiles)) _ (always _)
      (λ id u.
        bind-AllOk AnyOk goal (or_unavailable (resolve_query id d.profiles)) _ (always _)
          (λ prepared v.
            bind-AllOk AnyOk goal
              (or_unavailable (resolve_query prepared.query_profile_id d.profiles)) _ (always _)
              (λ profile w. run_stages-Permits a d scope command profile)))

-- Whatever the models answer, a query cites only passages that the caller may read: each citation is
-- the text and the page of a stored chunk, of the version that its document shows now, in the
-- caller's tenant and shared with a department of the caller's, or of the tenant if the caller is
-- its administrator.
pub query-IsPermitted :
    (a : Adapters) (d : Database) (command : PrepareQueryCommand) (r : QueryResult)
    → query (providers_of a d) command d ≡ ok r
    → All (IsPermitted (scope_of command none d) d) r.citations
unfolding query AllOk
query-IsPermitted a d command r e =
    subst (AllOk (Permits a d (scope_of command none d))) e
      (query_under-Permits a d command none none)

-- An evaluation query cites in the same way, and only passages of the versions that it allows.
pub query_for_evaluation-IsPermitted :
    (a : Adapters) (d : Database) (command : PrepareQueryCommand) (profile_id : ℕ)
    (versions : List ℕ) (r : QueryResult)
    → query_for_evaluation (providers_of a d) command profile_id versions d ≡ ok r
    → All (IsPermitted (scope_of command (some versions) d) d) r.citations
unfolding query_for_evaluation AllOk
query_for_evaluation-IsPermitted a d command profile_id [] r e = cc
query_for_evaluation-IsPermitted a d command profile_id (v ∷ vs) r e =
    subst (AllOk (Permits a d (scope_of command (some (v ∷ vs)) d))) e
      (query_under-Permits a d command (some profile_id) (some (v ∷ vs)))
