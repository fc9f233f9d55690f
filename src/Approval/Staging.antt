-- ===== src/Approval/Staging.antt =====
-- The staging of profiles: `create_capability`, `validate_capability`, `create_ingestion` and
-- `create_query` of `ProfileApprovalService` (application/configuration/approval.py). The ids that
-- `uuid4()` makes are arguments.
use document_insight.Prelude.{
  ℕ, Bool, true, false, not, ◌&&◌, ◌||◌, ◌==◌, ltb, any, length, none, some, List, [], ◌∷◌,
  if◌then◌else◌,
}
use document_insight.Chunker.Text.{Text, strip}
use document_insight.Configuration.Models.{
  Capability, same_capability, SnapshotKind, of_capability, retrieval, same_kind, Snapshot,
}
use document_insight.Configuration.Profiles.{
  IngestionProfile, CapabilityProfile, QueryProfile, Profiles, is_draft, get_capability,
  get_snapshot, get_by_fingerprint, create_snapshot, create_capability_profile, mark_validated,
  create_ingestion_profile, create_query_profile,
}
use document_insight.Store.Documents.{contains}
use document_insight.Store.Entities.{same_text}
use document_insight.Store.System.{Database, Result, ok, err, Action, raise, transact}
use document_insight.Evaluation.GateReview.{is_empty}
use document_insight.Approval.Validation.{
  guard, validate_configuration, require_validated, require_all,
}
use document_insight.Approval.Evidence.{ApprovalService}
use document_insight.Approval.Service.{
  ApprovalError, invalid_profile_proposal, invalid_request, integrity_error, ◌>>=◌,
}

abbrev with_profiles : Profiles → Database → Database
with_profiles profiles d = record d { profiles = profiles }

abbrev pub is_named : Capability → Text → CapabilityProfile → Bool
is_named capability name profile =
    same_capability profile.capability capability && same_text profile.name name

-- `len(set(ids)) == len(ids)`
abbrev pub are_unique : List ℕ → Bool
are_unique [] = true
are_unique (id ∷ ids) = not (contains ids id) && are_unique ids

module _ (service : ApprovalService) where
  -- the snapshot with the configuration's digest, made if there is none: its id and the tables
  unfoldable pub ensure_snapshot : ℕ → SnapshotKind → Snapshot → Profiles → ℕ × Profiles
  unfolding get_by_fingerprint create_snapshot
  ensure_snapshot snapshot_id kind canonical profiles =
      elim (get_by_fingerprint kind (service.fingerprint canonical) profiles) [
        | none ↦ (
          snapshot_id,
          create_snapshot snapshot_id kind (service.fingerprint canonical) canonical profiles,
        )
        | some snapshot ↦ (snapshot.snapshot_id, profiles)
      ]

  -- The unique constraint on the capability and the name ends the transaction.
  unfoldable pub staged_capability :
      ℕ → ℕ → Capability → Text → Snapshot → Database → Result ApprovalError (ℕ × Database)
  unfolding ensure_snapshot create_capability_profile same_text
  staged_capability profile_id snapshot_id capability name canonical d =
      let made = ensure_snapshot snapshot_id (of_capability capability) canonical d.profiles in
      if any (is_named capability name) d.profiles.capability_profiles
      then err integrity_error
      else ok (
        profile_id,
        with_profiles (create_capability_profile profile_id capability name made.0 made.1) d,
      )

  unfoldable pub create_capability : ℕ → ℕ → Capability → Text → Snapshot → Action ApprovalError ℕ
  unfolding validate_configuration staged_capability
  create_capability profile_id snapshot_id capability name configuration =
      if is_empty (strip name) || ltb 120 (length name)
      then raise invalid_profile_proposal
      else elim (validate_configuration service.mistral_available (of_capability capability)
          configuration false) [
            | none ↦ raise invalid_profile_proposal
            | some canonical ↦
                transact invalid_request
                  (staged_capability profile_id snapshot_id capability name canonical)
          ]

  unfoldable pub validated_capability : ℕ → Database → Result ApprovalError (Unit {0} × Database)
  unfolding get_capability get_snapshot validate_configuration mark_validated
  validated_capability profile_id d = do
    profile ← get_capability profile_id d.profiles
    _ ← guard (is_draft profile.status)
    snapshot ← get_snapshot profile.configuration_snapshot_id d.profiles
    _ ← guard (same_kind snapshot.capability (of_capability profile.capability))
    _ ←
        validate_configuration service.mistral_available (of_capability profile.capability)
          snapshot.configuration true
    ok (tt, with_profiles (mark_validated profile_id d.profiles) d)

  unfoldable pub validate_capability : ℕ → Action ApprovalError (Unit {0})
  unfolding validated_capability
  validate_capability profile_id = transact invalid_request (validated_capability profile_id)

  unfoldable pub staged_ingestion :
      IngestionProfile → Database → Result ApprovalError (ℕ × Database)
  unfolding require_validated create_ingestion_profile
  staged_ingestion profile d = do
    let validated = require_validated service.mistral_available d.profiles
    _ ← validated profile.ner_profile_id Capability.ner
    _ ← validated profile.chunking_profile_id Capability.chunking
    _ ← validated profile.lexical_profile_id Capability.lexical
    _ ← validated profile.embedding_profile_id Capability.embedding
    ok (profile.ingestion_profile_id, with_profiles (create_ingestion_profile profile d.profiles) d)

  unfoldable pub create_ingestion :
      (profile_id ner chunking lexical embedding : ℕ) → Action ApprovalError ℕ
  unfolding staged_ingestion
  create_ingestion profile_id ner chunking lexical embedding = transact invalid_request (
      staged_ingestion (record {
        ingestion_profile_id = profile_id;
        ner_profile_id = ner;
        chunking_profile_id = chunking;
        lexical_profile_id = lexical;
        embedding_profile_id = embedding;
      }))

  unfoldable pub staged_query :
      (profile_id snapshot_id : ℕ)
      → List ℕ
      → List ℕ
      → (reranker generation : ℕ) → Snapshot
      → Database
      → Result ApprovalError (ℕ × Database)
  unfolding require_validated require_all ensure_snapshot create_query_profile
  staged_query profile_id snapshot_id lexical_ids embedding_ids reranker generation canonical d = do
    let available = service.mistral_available
    _ ← require_all available d.profiles Capability.lexical lexical_ids
    _ ← require_all available d.profiles Capability.embedding embedding_ids
    _ ← require_validated available d.profiles reranker Capability.reranking
    _ ← require_validated available d.profiles generation Capability.generation
    let made = ensure_snapshot snapshot_id retrieval canonical d.profiles
    let profile : QueryProfile = record {
      query_profile_id = profile_id;
      lexical_profile_ids = lexical_ids;
      embedding_profile_ids = embedding_ids;
      reranker_profile_id = reranker;
      generation_profile_id = generation;
      retrieval_snapshot_id = made.0;
    }
    ok (profile_id, with_profiles (create_query_profile profile made.1) d)

  abbrev pub cohort_is_valid : List ℕ → Bool
  cohort_is_valid ids = not (length ids == 0) && are_unique ids

  unfoldable pub create_query :
      (profile_id snapshot_id : ℕ)
      → List ℕ
      → List ℕ
      → (reranker generation : ℕ) → Snapshot
      → Action ApprovalError ℕ
  unfolding validate_configuration staged_query contains
  create_query profile_id snapshot_id lexical_ids embedding_ids reranker generation configuration =
      if cohort_is_valid lexical_ids && cohort_is_valid embedding_ids
      then elim (validate_configuration service.mistral_available retrieval configuration true) [
        | none ↦ raise invalid_profile_proposal
        | some canonical ↦ transact invalid_request (
            staged_query profile_id snapshot_id lexical_ids embedding_ids reranker generation
              canonical)
      ]
      else raise invalid_profile_proposal
