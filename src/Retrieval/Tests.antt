-- ===== src/Retrieval/Tests.antt =====
-- A question about the one document of the sample.
use document_insight.Prelude.{
  ◌≡◌, ◌+◌, refl, true, false, none, some, [], ◌∷◌, All, insert_by, order_by,
}
use document_insight.Access.{UserRole}
use document_insight.Chunker.Text.{code_points, is_space}
use document_insight.Configuration.Models.{
  embedding_is_valid, reranking_is_valid, generation_is_valid, retrieval_is_valid,
  validate_embedding, validate_reranking, validate_generation, validate_retrieval,
}
use document_insight.Configuration.Profiles.{get_query, get_capability, get_snapshot}
use document_insight.Configuration.Resolver.{snapshot_for}
use document_insight.Store.Documents.{contains}
use document_insight.Store.Active.{get_query_profile_id, same_scope}
use document_insight.Store.System.{ok}
use document_insight.Query.Models.{PrepareQueryCommand, QueryResult}
use document_insight.Query.Fusion.{
  fuse, add_lists, add_list, add_candidate, sort_scored, insert_scored,
}
use document_insight.Query.Evidence.{
  authorized_departments, attach_scores, score_of, select_evidence, cited_entries, entry_of,
  scope_of,
}
use document_insight.Query.Service.{
  query, query_under, run_stages, lexical_lists, vector_lists, rerank,
}
use document_insight.Query.Resolver.{resolve_query, embeddings_of}
use document_insight.Query.Authorization.{Adapters, providers_of, IsPermitted, query-IsPermitted}
use document_insight.Retrieval.Sample.{database}
use document_insight.Retrieval.Like.{split, like, contains_term}
use document_insight.Retrieval.Repository.{
  lexical_search, vector_search, chunk_statement, visible, authorized_document,
}

abbrev adapters : Adapters
adapters = record {
  engine = record {
    matches = λ text chunk. true;
    rank = λ text chunk. 9;
    distance = λ a b. 1;
    similarity = λ n. n;
    casefold = λ text. text;
  };
  embed = λ configuration text. ok (1 ∷ []);
  rerank = λ configuration text chunks. ok (record { chunk_id = 30; score = 8 } ∷ []);
  generate = λ configuration text chunks.
      ok (record { answer = code_points "It rose."; cited_chunk_ids = 30 ∷ [] });
  add = λ a b. a + b;
  reciprocal = λ n. n;
}

abbrev question : PrepareQueryCommand
question = record {
  question = code_points "Revenue?";
  filter_text = none;
  top_k = 3;
  actor = record { user_id = 2; tenant_id = 1; department_ids = 5 ∷ []; role = UserRole.viewer };
}

abbrev answer : QueryResult
answer = record {
  answer = code_points "It rose.";
  confidence = 8;
  citations =
      record {
        document_id = 10;
        document_version_id = 20;
        chunk_id = 30;
        page_number = some 1;
        quote = code_points "Revenue rose.";
        relevance_score = 8;
      }
      ∷ [];
  entities = [];
}

answered : query (providers_of adapters database) question database ≡ ok answer
unfolding query query_under run_stages lexical_lists vector_lists rerank attach_scores score_of
    select_evidence cited_entries entry_of fuse add_lists add_list add_candidate sort_scored
    insert_scored lexical_search vector_search chunk_statement visible authorized_document contains
    resolve_query embeddings_of snapshot_for get_query get_capability get_snapshot
    validate_embedding validate_reranking validate_generation validate_retrieval embedding_is_valid
    reranking_is_valid generation_is_valid retrieval_is_valid get_query_profile_id same_scope
    authorized_departments order_by insert_by
answered = refl

query-IsPermitted_example :
    All (IsPermitted (scope_of question none database) database) answer.citations
query-IsPermitted_example = query-IsPermitted adapters database question answer answered

-- A percent sign in a filter term stands for any text.
wildcard_test : contains_term (code_points "acme") (code_points "a%e") ≡ true
unfolding contains_term like
wildcard_test = refl

plain_test : contains_term (code_points "acme") (code_points "ame") ≡ false
unfolding contains_term like
plain_test = refl

split_test : split (code_points " acme  corp ") ≡ code_points "acme" ∷ code_points "corp" ∷ []
unfolding split is_space
split_test = refl
