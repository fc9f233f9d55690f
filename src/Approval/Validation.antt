-- ===== src/Approval/Validation.antt =====
-- What a profile has to satisfy to be approved: `_validate_configuration` and the `_require_…`
-- methods of application/configuration/approval.py. `none` is `InvalidProfileProposalError`, whose
-- messages are left out.
use text.Mathlib.Text.{◌==◌ as str_eq}
use document_insight.Prelude.{
  ℕ, Bool, true, false, not, ◌&&◌, ◌||◌, Option, none, some, List, [], ◌∷◌, all, if◌then◌else◌,
}
use document_insight.Configuration.Models.{
  Capability, SnapshotKind, of_capability, retrieval, same_capability, same_kind, Snapshot,
  ner_snapshot, chunking_snapshot, lexical_snapshot, embedding_snapshot, reranking_snapshot,
  generation_snapshot, retrieval_snapshot, other_snapshot, validate_ner, validate_chunking,
  validate_lexical, validate_embedding, validate_reranking, validate_generation, validate_retrieval,
}
use document_insight.Configuration.Profiles.{
  IngestionProfile, QueryProfile, Profiles, is_validated, get_ingestion, get_query, get_capability,
  get_snapshot,
}
use document_insight.Configuration.Resolver.{◌>>=◌}
use document_insight.Query.Resolver.{with_cohorts}
use document_insight.Store.Documents.{contains}
use document_insight.Evaluation.GateReview.{exists}

abbrev pub guard : Bool → Option (Unit {0})
guard true = some tt
guard false = none

-- `_CONFIG_MODELS[capability].model_validate(raw)` passes. No field of the models has a name with
-- one of `_SECRET_KEYS` in it, and JSON with a further field is an `other_snapshot`.
unfoldable pub is_accepted : SnapshotKind → Snapshot → Bool
unfolding validate_ner validate_chunking validate_lexical validate_embedding validate_reranking
    validate_generation validate_retrieval
is_accepted (of_capability Capability.ner) raw = exists (validate_ner raw)
is_accepted (of_capability Capability.chunking) raw = exists (validate_chunking raw)
is_accepted (of_capability Capability.lexical) raw = exists (validate_lexical raw)
is_accepted (of_capability Capability.embedding) raw = exists (validate_embedding raw)
is_accepted (of_capability Capability.reranking) raw = exists (validate_reranking raw)
is_accepted (of_capability Capability.generation) raw = exists (validate_generation raw)
is_accepted retrieval raw = exists (validate_retrieval raw)

-- what the deployment can run
unfoldable pub is_runnable : Bool → Snapshot → Bool
is_runnable mistral_available (ner_snapshot c) = str_eq c.provider "spacy"
is_runnable mistral_available (chunking_snapshot c) = str_eq c.implementation "page_window"
is_runnable mistral_available (lexical_snapshot c) =
    str_eq c.implementation "postgres_fts" && str_eq c.configuration "simple"
is_runnable mistral_available (embedding_snapshot c) =
    str_eq c.provider "mistral" && mistral_available
is_runnable mistral_available (reranking_snapshot c) =
    str_eq c.provider "mistral" && mistral_available
is_runnable mistral_available (generation_snapshot c) =
    str_eq c.provider "mistral" && mistral_available
is_runnable mistral_available (retrieval_snapshot c) = true
is_runnable mistral_available other_snapshot = true

-- The dump of a configuration is the configuration that it was read as.
unfoldable pub validate_configuration : Bool → SnapshotKind → Snapshot → Bool → Option Snapshot
unfolding is_accepted is_runnable
validate_configuration mistral_available kind raw require_runtime =
    if is_accepted kind raw && (not require_runtime || is_runnable mistral_available raw)
    then some raw
    else none

module _ (mistral_available : Bool) (profiles : Profiles) where
  unfoldable pub require_validated : ℕ → Capability → Option Snapshot
  unfolding validate_configuration get_capability get_snapshot
  require_validated profile_id capability = do
    profile ← get_capability profile_id profiles
    _ ← guard (same_capability profile.capability capability && is_validated profile.status)
    snapshot ← get_snapshot profile.configuration_snapshot_id profiles
    _ ← guard (same_kind snapshot.capability (of_capability capability))
    validate_configuration mistral_available (of_capability capability) snapshot.configuration true

  unfoldable pub require_ingestion : ℕ → Option IngestionProfile
  unfolding require_validated get_ingestion
  require_ingestion profile_id = do
    profile ← get_ingestion profile_id profiles
    _ ← require_validated profile.ner_profile_id Capability.ner
    _ ← require_validated profile.chunking_profile_id Capability.chunking
    _ ← require_validated profile.lexical_profile_id Capability.lexical
    _ ← require_validated profile.embedding_profile_id Capability.embedding
    some profile

  -- the loop over the ids of one capability
  unfoldable pub require_all : Capability → List ℕ → Option (Unit {0})
  unfolding require_validated
  require_all capability [] = some tt
  require_all capability (id ∷ ids) = do
    _ ← require_validated id capability
    require_all capability ids

  unfoldable pub require_query : ℕ → Option QueryProfile
  unfolding require_validated require_all get_query get_snapshot validate_configuration
  require_query profile_id = do
    found ← get_query profile_id profiles
    profile ← with_cohorts found
    _ ← require_all Capability.lexical profile.lexical_profile_ids
    _ ← require_all Capability.embedding profile.embedding_profile_ids
    _ ← require_validated profile.reranker_profile_id Capability.reranking
    _ ← require_validated profile.generation_profile_id Capability.generation
    snapshot ← get_snapshot profile.retrieval_snapshot_id profiles
    _ ← guard (same_kind snapshot.capability retrieval)
    _ ← validate_configuration mistral_available retrieval snapshot.configuration true
    some profile

  -- the bundles of the ids, one after the other
  unfoldable pub require_ingestions : List ℕ → Option (List IngestionProfile)
  unfolding require_ingestion
  require_ingestions [] = some []
  require_ingestions (id ∷ ids) = do
    profile ← require_ingestion id
    rest ← require_ingestions ids
    some (profile ∷ rest)

abbrev pub has_cohorts : QueryProfile → IngestionProfile → Bool
has_cohorts query ingestion =
    contains query.lexical_profile_ids ingestion.lexical_profile_id
    && contains query.embedding_profile_ids ingestion.embedding_profile_id

unfoldable pub require_cohorts : QueryProfile → List IngestionProfile → Option (Unit {0})
unfolding contains
require_cohorts query ingestions = guard (all (has_cohorts query) ingestions)
