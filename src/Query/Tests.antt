-- ===== src/Query/Tests.antt =====
-- A question with one passage of evidence.
use mathlib.Core.Path.{subst}
use document_insight.Prelude.{◌≡◌, ◌+◌, refl, none, some, [], ◌∷◌, All}
use document_insight.Access.{UserRole}
use document_insight.Chunker.Text.{code_points}
use document_insight.Configuration.Models.{ResolvedQueryProfile}
use document_insight.Store.System.{ok, err}
use document_insight.Query.Models.{
  RetrievedChunk, RetrievalScope, PrepareQueryCommand, QueryCitation, QueryResult, Providers, other,
}
use document_insight.Query.Fusion.{
  fuse, add_lists, add_list, add_candidate, sort_scored, insert_scored,
}
use document_insight.Query.Service.{run_stages, lexical_lists, vector_lists, rerank}
use document_insight.Query.Evidence.{
  attach_scores, score_of, select_evidence, cited_entries, entry_of,
}
use document_insight.Query.Propagation.{AllOk, Retrieves}
use document_insight.Query.Grounding.{Backed, run_stages-Backed}

abbrev passage : RetrievedChunk
passage = record {
  chunk_id = 1;
  document_id = 10;
  document_version_id = 20;
  title = code_points "Report";
  text = code_points "Revenue rose.";
  page_number = some 1;
  score = 9;
  start_offset = 0;
  end_offset = 13;
}

abbrev profile : ResolvedQueryProfile
profile = record {
  query_profile_id = 70;
  lexical_profile_ids = 53 ∷ [];
  embedding_profile_ids = [];
  embedding_configurations = [];
  reranking = record {
    provider = "mistral";
    model = "small";
    configuration_revision = "1";
    prompt_revision = "1";
    system_prompt = code_points "Rank.";
    response_schema_revision = "1";
    temperature = 0;
    max_output_tokens = 512;
  };
  generation = record {
    provider = "mistral";
    model = "small";
    configuration_revision = "1";
    prompt_revision = "1";
    system_prompt = code_points "Answer.";
    correction_prompt = code_points "Cite.";
    response_schema_revision = "1";
    temperature = 0;
    max_output_tokens = 512;
  };
  retrieval = record {
    lexical_candidate_limit = 10;
    vector_candidate_limit = 10;
    rerank_candidate_limit = 10;
    rrf_k = 60;
    entity_match_boost = 1;
    insufficient_evidence_threshold = 3;
    min_citation_score = 5;
  };
}

abbrev providers : Providers
providers = record {
  find_entity_matches = λ scope text limit. ok [];
  lexical_search = λ scope cohort text limit. ok (passage ∷ []);
  embed = λ configuration text. err other;
  vector_search = λ scope cohort vector limit. ok [];
  rerank = λ configuration question chunks. ok (record { chunk_id = 1; score = 8 } ∷ []);
  generate = λ configuration question chunks.
      ok (record { answer = code_points "It rose."; cited_chunk_ids = 1 ∷ [] });
  resolve = λ id. ok profile;
  add = λ a b. a + b;
  reciprocal = λ n. n;
}

abbrev question : PrepareQueryCommand
question = record {
  question = code_points "Revenue?";
  filter_text = none;
  top_k = 3;
  actor = record { user_id = 2; tenant_id = 1; department_ids = 5 ∷ []; role = UserRole.viewer };
}

abbrev scope : RetrievalScope
scope = record { tenant_id = 1; department_ids = 5 ∷ []; allowed_version_ids = none }

abbrev cited : QueryCitation
cited = record {
  document_id = 10;
  document_version_id = 20;
  chunk_id = 1;
  page_number = some 1;
  quote = code_points "Revenue rose.";
  relevance_score = 8;
}

abbrev answer : QueryResult
answer = record {
  answer = code_points "It rose.";
  confidence = 8;
  citations = cited ∷ [];
  entities = [];
}

answered : run_stages providers question scope profile ≡ ok answer
unfolding run_stages lexical_lists vector_lists rerank attach_scores score_of select_evidence
    cited_entries entry_of fuse add_lists add_list add_candidate sort_scored insert_scored
answered = refl

abbrev OfVersion : RetrievedChunk → Type 0
OfVersion c = c.document_version_id ≡ 20

-- every passage of the scope is of the version 20
retrieves : Retrieves OfVersion providers scope
unfolding AllOk
retrieves = (
  λ cohort text limit cs e. subst (AllOk (All OfVersion)) e (refl, tt),
  λ cohort vector limit cs e. subst (AllOk (All OfVersion)) e tt,
)

run_stages-Backed_example : All (Backed OfVersion 5) (cited ∷ [])
run_stages-Backed_example =
    run_stages-Backed OfVersion providers scope retrieves question profile answer answered
