-- ===== src/Query/Models.antt =====
-- What the query service exchanges with its providers (application/query/models.py and the protocols
-- of retrieval, reranker and generation). A score is the bit pattern of a non-negative double, which
-- orders as the doubles do.
use document_insight.Prelude.{ℕ, Option, List}
use document_insight.Chunker.Text.{Text}
use document_insight.Access.{AuthorizationContext}
use document_insight.Configuration.Models.{
  EmbeddingConfiguration, RerankingConfiguration, GenerationConfiguration, ResolvedQueryProfile,
}
use document_insight.Store.Chunks.{Vector}
use document_insight.Store.System.{Result}

pub record RetrievedChunk : Type 0 where
  pub chunk_id : ℕ
  pub document_id : ℕ
  pub document_version_id : ℕ
  pub title : Text
  pub text : Text
  pub page_number : Option ℕ
  pub score : ℕ
  pub start_offset : ℕ
  pub end_offset : ℕ

pub record EntityMatch : Type 0 where
  pub document_version_id : ℕ
  pub display_value : Text
  pub label : Text

pub record RetrievalScope : Type 0 where
  pub tenant_id : ℕ
  pub department_ids : List ℕ
  pub allowed_version_ids : Option (List ℕ)

pub record PrepareQueryCommand : Type 0 where
  pub question : Text
  pub filter_text : Option Text
  pub top_k : ℕ
  pub actor : AuthorizationContext

pub record RerankScore : Type 0 where
  pub chunk_id : ℕ
  pub score : ℕ

pub record GroundedAnswer : Type 0 where
  pub answer : Text
  pub cited_chunk_ids : List ℕ

-- `key_error` is the `KeyError` of a chunk that the reranker left out; `other` any other exception.
pub data QueryError : Type 0 where
  query_profile_unavailable query_provider_unavailable invalid_grounding key_error : QueryError
  value_error embedding_error index_error other : QueryError

pub record QueryCitation : Type 0 where
  pub document_id : ℕ
  pub document_version_id : ℕ
  pub chunk_id : ℕ
  pub page_number : Option ℕ
  pub quote : Text
  pub relevance_score : ℕ

pub record QueryEntity : Type 0 where
  pub document_version_id : ℕ
  pub text : Text
  pub label : Text

pub record QueryResult : Type 0 where
  pub answer : Text
  pub confidence : ℕ
  pub citations : List QueryCitation
  pub entities : List QueryEntity

-- The providers of one service, and the arithmetic of doubles that fusion uses.
pub record Providers : Type 0 where
  pub find_entity_matches : RetrievalScope → Text → ℕ → Result QueryError (List EntityMatch)
  pub lexical_search : RetrievalScope → ℕ → Text → ℕ → Result QueryError (List RetrievedChunk)
  pub embed : EmbeddingConfiguration → Text → Result QueryError Vector
  pub vector_search : RetrievalScope → ℕ → Vector → ℕ → Result QueryError (List RetrievedChunk)
  pub rerank :
      RerankingConfiguration → Text → List RetrievedChunk → Result QueryError (List RerankScore)
  pub generate :
      GenerationConfiguration → Text → List RetrievedChunk → Result QueryError GroundedAnswer
  pub resolve : ℕ → Result QueryError ResolvedQueryProfile
  pub add : ℕ → ℕ → ℕ
  pub reciprocal : ℕ → ℕ
