-- ===== src/Configuration/Resolver.antt =====
-- `IngestionProfileResolver` (application/configuration/service.py) over the tables that it reads.
-- `none` is `InvalidProcessingProfileError`.
use document_insight.Prelude.{ℕ, ◌≡◌, refl, Option, none, some, if◌then◌else◌}
use document_insight.Configuration.Models.{
  Capability, same_capability, same_kind, of_capability, validate_ner, validate_chunking,
  validate_embedding, ResolvedIngestionProfile,
}
use document_insight.Configuration.Profiles.{
  Profiles, ConfigurationSnapshot, get_ingestion, get_capability, get_snapshot,
}

infixl 5 ◌>>=◌
abbrev pub ◌>>=◌ : {A B : Type 0} → Option A → (A → Option B) → Option B
none >>= f = none
some a >>= f = f a

unfoldable pub snapshot_for : Profiles → ℕ → Capability → Option ConfigurationSnapshot
unfolding get_capability get_snapshot
snapshot_for profiles profile_id expected = do
  profile ← get_capability profile_id profiles
  snapshot ←
      (if same_capability profile.capability expected
        then get_snapshot profile.configuration_snapshot_id profiles
        else none)
  if same_kind snapshot.capability (of_capability expected) then some snapshot else none

unfoldable pub resolve : Profiles → ℕ → Option ResolvedIngestionProfile
unfolding get_ingestion snapshot_for validate_ner validate_chunking validate_embedding
resolve profiles ingestion_profile_id = do
  profile ← get_ingestion ingestion_profile_id profiles
  ner_snapshot ← snapshot_for profiles profile.ner_profile_id Capability.ner
  chunking_snapshot ← snapshot_for profiles profile.chunking_profile_id Capability.chunking
  embedding_snapshot ← snapshot_for profiles profile.embedding_profile_id Capability.embedding
  ner ← validate_ner ner_snapshot.configuration
  chunking ← validate_chunking chunking_snapshot.configuration
  embedding ← validate_embedding embedding_snapshot.configuration
  some (record {
    ingestion_profile_id = profile.ingestion_profile_id;
    ner_profile_id = profile.ner_profile_id;
    chunking_profile_id = profile.chunking_profile_id;
    lexical_profile_id = profile.lexical_profile_id;
    embedding_profile_id = profile.embedding_profile_id;
    ner = ner;
    chunking = chunking;
    embedding = embedding;
  })

-- A chain that gives a result has one at its first step.
pub bind-some :
    {A B : Type 0} (o : Option A) (f : A → Option B) {b : B}
    → (o >>= f) ≡ some b
    → (a : A) × (o ≡ some a) × (f a ≡ some b)
bind-some none f e = cc
bind-some (some a) f e = (a, refl, e)
