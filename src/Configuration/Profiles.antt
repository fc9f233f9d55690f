-- ===== src/Configuration/Profiles.antt =====
-- The tables of configuration profiles and their repositories: infrastructure/capability_profile/,
-- configuration_snapshot/, ingestion_profile/, query_profile/ and profile_activation/. The creation
-- times, which only order the operator's lists, are left out, and a query profile holds the rows of
-- its two cohort tables.
use document_insight.Prelude.{
  ℕ, Bool, true, false, ◌&&◌, Option, List, [], ◌∷◌, ◌++◌, ◌==◌, first_where, update_where,
}
use document_insight.Chunker.Text.{Text}
use document_insight.Configuration.Models.{Capability, SnapshotKind, same_kind, Snapshot}
use document_insight.Store.Active.{Scope, ProfileKind}

pub record IngestionProfile : Type 0 where
  pub ingestion_profile_id : ℕ
  pub ner_profile_id : ℕ
  pub chunking_profile_id : ℕ
  pub lexical_profile_id : ℕ
  pub embedding_profile_id : ℕ

pub data ProfileStatus : Type 0 where
  draft validated retired : ProfileStatus

abbrev pub is_draft : ProfileStatus → Bool
is_draft draft = true
is_draft _ = false

abbrev pub is_validated : ProfileStatus → Bool
is_validated validated = true
is_validated _ = false

pub record CapabilityProfile : Type 0 where
  pub profile_id : ℕ
  pub capability : Capability
  pub configuration_snapshot_id : ℕ
  pub status : ProfileStatus
  pub name : Text

pub record ConfigurationSnapshot : Type 0 where
  pub snapshot_id : ℕ
  pub capability : SnapshotKind
  pub fingerprint : ℕ
  pub configuration : Snapshot

pub record QueryProfile : Type 0 where
  pub query_profile_id : ℕ
  pub lexical_profile_ids : List ℕ
  pub embedding_profile_ids : List ℕ
  pub reranker_profile_id : ℕ
  pub generation_profile_id : ℕ
  pub retrieval_snapshot_id : ℕ

-- one row of the audit
pub record ProfileActivation : Type 0 where
  pub scope : Scope
  pub kind : ProfileKind
  pub previous_profile_id : Option ℕ
  pub new_profile_id : ℕ
  pub actor_id : ℕ
  pub reason : Text
  pub revision : ℕ

pub record Profiles : Type 0 where
  pub ingestion_profiles : List IngestionProfile
  pub query_profiles : List QueryProfile
  pub capability_profiles : List CapabilityProfile
  pub snapshots : List ConfigurationSnapshot
  pub activations : List ProfileActivation

unfoldable pub get_ingestion : ℕ → Profiles → Option IngestionProfile
get_ingestion profile_id profiles =
    first_where (λ p. p.ingestion_profile_id == profile_id) profiles.ingestion_profiles

unfoldable pub get_query : ℕ → Profiles → Option QueryProfile
get_query profile_id profiles =
    first_where (λ p. p.query_profile_id == profile_id) profiles.query_profiles

unfoldable pub get_capability : ℕ → Profiles → Option CapabilityProfile
get_capability profile_id profiles =
    first_where (λ p. p.profile_id == profile_id) profiles.capability_profiles

unfoldable pub get_snapshot : ℕ → Profiles → Option ConfigurationSnapshot
get_snapshot snapshot_id profiles =
    first_where (λ s. s.snapshot_id == snapshot_id) profiles.snapshots

unfoldable pub get_by_fingerprint : SnapshotKind → ℕ → Profiles → Option ConfigurationSnapshot
get_by_fingerprint kind fingerprint profiles =
    first_where (λ s. same_kind s.capability kind && (s.fingerprint == fingerprint))
      profiles.snapshots

unfoldable pub create_snapshot : ℕ → SnapshotKind → ℕ → Snapshot → Profiles → Profiles
create_snapshot snapshot_id kind fingerprint configuration profiles = record profiles {
  snapshots =
      profiles.snapshots
      ++ record {
        snapshot_id = snapshot_id;
        capability = kind;
        fingerprint = fingerprint;
        configuration = configuration;
      }
        ∷ [];
}

unfoldable pub create_capability_profile : ℕ → Capability → Text → ℕ → Profiles → Profiles
create_capability_profile profile_id capability name snapshot_id profiles = record profiles {
  capability_profiles =
      profiles.capability_profiles
      ++ record {
        profile_id = profile_id;
        capability = capability;
        configuration_snapshot_id = snapshot_id;
        status = draft;
        name = name;
      }
        ∷ [];
}

-- `validate`
unfoldable pub mark_validated : ℕ → Profiles → Profiles
mark_validated profile_id profiles = record profiles {
  capability_profiles =
      update_where (λ p. (p.profile_id == profile_id) && is_draft p.status)
        (λ p. record p { status = validated }) profiles.capability_profiles;
}

unfoldable pub create_ingestion_profile : IngestionProfile → Profiles → Profiles
create_ingestion_profile profile profiles = record profiles {
  ingestion_profiles = profiles.ingestion_profiles ++ profile ∷ [];
}

unfoldable pub create_query_profile : QueryProfile → Profiles → Profiles
create_query_profile profile profiles = record profiles {
  query_profiles = profiles.query_profiles ++ profile ∷ [];
}

unfoldable pub create_activation : ProfileActivation → Profiles → Profiles
create_activation activation profiles = record profiles {
  activations = profiles.activations ++ activation ∷ [];
}

-- no profile at all
abbrev pub no_profiles : Profiles
no_profiles = record {
  ingestion_profiles = [];
  query_profiles = [];
  capability_profiles = [];
  snapshots = [];
  activations = [];
}
