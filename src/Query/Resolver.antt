-- ===== src/Query/Resolver.antt =====
-- `QueryProfileResolver` (application/query/profile_resolver.py). `none` is
-- `QueryProfileUnavailableError`.
use document_insight.Prelude.{
  ℕ, ◌||◌, ◌==◌, length, Option, none, some, List, [], ◌∷◌, if◌then◌else◌,
}
use document_insight.Configuration.Models.{
  Capability, retrieval, same_kind, EmbeddingConfiguration, RetrievalConfiguration,
  validate_embedding, validate_reranking, validate_generation, validate_retrieval,
  ResolvedQueryProfile,
}
use document_insight.Configuration.Profiles.{
  Profiles, QueryProfile, ConfigurationSnapshot, get_query, get_snapshot,
}
use document_insight.Configuration.Resolver.{◌>>=◌, snapshot_for}

-- the loop over the embedding cohorts
unfoldable pub embeddings_of : Profiles → List ℕ → Option (List (ℕ × EmbeddingConfiguration))
unfolding snapshot_for validate_embedding
embeddings_of profiles [] = some []
embeddings_of profiles (id ∷ ids) = do
  snapshot ← snapshot_for profiles id Capability.embedding
  configuration ← validate_embedding snapshot.configuration
  rest ← embeddings_of profiles ids
  some ((id, configuration) ∷ rest)

abbrev pub retrieval_of : ConfigurationSnapshot → Option RetrievalConfiguration
retrieval_of snapshot =
    if same_kind snapshot.capability retrieval
    then validate_retrieval snapshot.configuration
    else none

abbrev pub with_cohorts : QueryProfile → Option QueryProfile
with_cohorts profile =
    if (length profile.lexical_profile_ids == 0) || (length profile.embedding_profile_ids == 0)
    then none
    else some profile

unfoldable pub resolve_query : ℕ → Profiles → Option ResolvedQueryProfile
unfolding get_query embeddings_of validate_reranking validate_generation validate_retrieval
    get_snapshot
resolve_query query_profile_id profiles = do
  found ← get_query query_profile_id profiles
  profile ← with_cohorts found
  embeddings ← embeddings_of profiles profile.embedding_profile_ids
  reranking_snapshot ← snapshot_for profiles profile.reranker_profile_id Capability.reranking
  reranking ← validate_reranking reranking_snapshot.configuration
  generation_snapshot ← snapshot_for profiles profile.generation_profile_id Capability.generation
  generation ← validate_generation generation_snapshot.configuration
  retrieval_snapshot ← get_snapshot profile.retrieval_snapshot_id profiles
  settings ← retrieval_of retrieval_snapshot
  some (record {
    query_profile_id = profile.query_profile_id;
    lexical_profile_ids = profile.lexical_profile_ids;
    embedding_profile_ids = profile.embedding_profile_ids;
    embedding_configurations = embeddings;
    reranking = reranking;
    generation = generation;
    retrieval = settings;
  })
