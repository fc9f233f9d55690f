-- ===== src/Query/Evidence.antt =====
-- From scored passages to an answer with citations (application/query/service.py).
use document_insight.Prelude.{
  ℕ, Bool, true, false, Option, none, some, List, [], ◌∷◌, ◌++◌, ◌==◌, leb, ltb, max, map, take,
  keep_if, if◌then◌else◌,
}
use document_insight.Chunker.Text.{Text, code_points}
use document_insight.Access.{AuthorizationContext, is_tenant_admin}
use document_insight.Configuration.Models.{RetrievalConfiguration}
use document_insight.Store.Documents.{contains, list_all_ids}
use document_insight.Store.System.{Database, Result, ok, err}
use document_insight.Query.Models.{
  RetrievedChunk, EntityMatch, RetrievalScope, PrepareQueryCommand, RerankScore, GroundedAnswer,
  QueryError, query_profile_unavailable, query_provider_unavailable, invalid_grounding, key_error,
  value_error, embedding_error, index_error, QueryCitation, QueryEntity, QueryResult,
}
use document_insight.Query.Fusion.{Scored}

infixl 5 ◌>>=◌
abbrev pub ◌>>=◌ :
    {A B : Type 0} → Result QueryError A → (A → Result QueryError B) → Result QueryError B
ok a >>= f = f a
err e >>= f = err e

-- `_authorized_departments`
unfoldable pub authorized_departments : AuthorizationContext → Database → List ℕ
authorized_departments actor d =
    if is_tenant_admin actor.role
    then list_all_ids actor.tenant_id d.departments
    else actor.department_ids

-- `except ValueError`, and the like for the embedder
abbrev pub is_value_error : QueryError → Bool
is_value_error value_error = true
is_value_error _ = false

abbrev pub is_embedding_failure : QueryError → Bool
is_embedding_failure embedding_error = true
is_embedding_failure index_error = true
is_embedding_failure value_error = true
is_embedding_failure _ = false

abbrev pub unavailable_if :
    {A : Type 0} → (QueryError → Bool) → Result QueryError A → Result QueryError A
unavailable_if test (ok a) = ok a
unavailable_if test (err e) = if test e then err query_provider_unavailable else err e

-- `_insufficient_evidence`
abbrev pub insufficient_evidence : QueryResult
insufficient_evidence = record {
  answer = code_points "The information is not available in your authorized documents.";
  confidence = 0;
  citations = [];
  entities = [];
}

-- `by_id[chunk_id]`, where the dict keeps the last score of an id
unfoldable pub score_of : ℕ → List RerankScore → Option ℕ
score_of chunk_id [] = none
score_of chunk_id (s ∷ scores) = elim (score_of chunk_id scores) [
  | some later ↦ some later
  | none ↦ if s.chunk_id == chunk_id then some s.score else none
]

abbrev pub attach :
    RetrievedChunk → Option ℕ → Result QueryError (List Scored) → Result QueryError (List Scored)
attach candidate none rest = err key_error
attach candidate (some score) rest =
    rest >>= λ xs. ok (record { chunk = candidate; score = score } ∷ xs)

unfoldable pub attach_scores :
    List RerankScore → List RetrievedChunk → Result QueryError (List Scored)
unfolding score_of
attach_scores scores [] = ok []
attach_scores scores (candidate ∷ candidates) =
    attach candidate (score_of candidate.chunk_id scores) (attach_scores scores candidates)

-- the evidence that an answer may cite, if there is any
abbrev pub nonempty : List Scored → Option (List Scored)
nonempty [] = none
nonempty (x ∷ xs) = some (x ∷ xs)

abbrev pub above_threshold : RetrievalConfiguration → List Scored → Option (List Scored)
above_threshold retrieval [] = none
above_threshold retrieval (best ∷ selected) =
    if ltb best.score retrieval.insufficient_evidence_threshold
    then none
    else nonempty (keep_if (λ x. leb retrieval.min_citation_score x.score) (best ∷ selected))

unfoldable pub select_evidence : RetrievalConfiguration → ℕ → List Scored → Option (List Scored)
select_evidence retrieval top_k reranked = above_threshold retrieval (take top_k reranked)

-- the last entry of the id, as in the dict `by_id`
unfoldable pub entry_of : ℕ → List Scored → Option Scored
entry_of chunk_id [] = none
entry_of chunk_id (x ∷ xs) = elim (entry_of chunk_id xs) [
  | some later ↦ some later
  | none ↦ if x.chunk.chunk_id == chunk_id then some x else none
]

abbrev pub cite : Option Scored → List Scored → List Scored
cite none rest = rest
cite (some x) rest = x ∷ rest

unfoldable pub cited_entries : List ℕ → List Scored → List Scored
unfolding entry_of
cited_entries [] citable = []
cited_entries (id ∷ ids) citable = cite (entry_of id citable) (cited_entries ids citable)

abbrev pub citation_of : Scored → QueryCitation
citation_of x = record {
  document_id = x.chunk.document_id;
  document_version_id = x.chunk.document_version_id;
  chunk_id = x.chunk.chunk_id;
  page_number = x.chunk.page_number;
  quote = x.chunk.text;
  relevance_score = x.score;
}

abbrev pub entity_of : EntityMatch → QueryEntity
entity_of m = record {
  document_version_id = m.document_version_id;
  text = m.display_value;
  label = m.label;
}

abbrev pub max_score : List Scored → ℕ
max_score [] = 0
max_score (x ∷ xs) = max x.score (max_score xs)

abbrev version_of : QueryCitation → ℕ
version_of c = c.document_version_id

abbrev pub match_version : EntityMatch → ℕ
match_version m = m.document_version_id

-- the result of an answer with its cited evidence
abbrev pub grounded : List EntityMatch → Text → List Scored → Result QueryError QueryResult
grounded matches answer [] = err query_provider_unavailable
grounded matches answer (x ∷ xs) =
    let citations = map citation_of (x ∷ xs) in
    ok (record {
      answer = answer;
      confidence = max_score (x ∷ xs);
      citations = citations;
      entities =
          map entity_of
            (keep_if (λ m. contains (map version_of citations) m.document_version_id) matches);
    })

abbrev pub after_generation :
    List EntityMatch
    → List Scored
    → Result QueryError GroundedAnswer
    → Result QueryError QueryResult
after_generation matches citable (ok answer) =
    grounded matches answer.answer (cited_entries answer.cited_chunk_ids citable)
after_generation matches citable (err invalid_grounding) = ok insufficient_evidence
after_generation matches citable (err e) = err e

-- `" ".join(value for value in (question, filter_text) if value)`
abbrev pub lexical_query : Text → Option Text → Text
lexical_query question none = question
lexical_query question (some []) = question
lexical_query [] (some (c ∷ cs)) = c ∷ cs
lexical_query question (some (c ∷ cs)) = question ++ 32 ∷ c ∷ cs

abbrev pub scope_of : PrepareQueryCommand → Option (List ℕ) → Database → RetrievalScope
scope_of command allowed_version_ids d = record {
  tenant_id = command.actor.tenant_id;
  department_ids = authorized_departments command.actor d;
  allowed_version_ids = allowed_version_ids;
}

abbrev pub profile_or_active : Option ℕ → Option ℕ → Result QueryError ℕ
profile_or_active (some id) active = ok id
profile_or_active none (some id) = ok id
profile_or_active none none = err query_profile_unavailable
