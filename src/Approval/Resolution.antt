-- ===== src/Approval/Resolution.antt =====
-- What the approval accepts, the resolvers of application/configuration/service.py and
-- application/query/profile_resolver.py resolve.
use document_insight.Prelude.{
  ℕ, ◌≡◌, refl, inl, inr, Bool, true, false, ◌&&◌, Option, none, some, List, [], ◌∷◌, Bool-cases,
  arith,
}
use document_insight.Configuration.Models.{
  Capability, SnapshotKind, of_capability, retrieval, same_capability, same_kind, Snapshot,
  EmbeddingConfiguration, RerankingConfiguration, GenerationConfiguration, RetrievalConfiguration,
  validate_reranking, validate_generation, validate_retrieval,
}
use document_insight.Configuration.Profiles.{
  IngestionProfile, QueryProfile, ConfigurationSnapshot, Profiles, is_validated, get_ingestion,
  get_query, get_snapshot, get_capability,
}
use document_insight.Configuration.Resolver.{bind-some, snapshot_for, resolve}
use document_insight.Query.Resolver.{embeddings_of, with_cohorts, resolve_query}
use document_insight.Evaluation.GateReview.{exists}
use document_insight.Approval.Validation.{
  guard, is_accepted, validate_configuration, require_validated, require_ingestion, require_all,
  require_query,
}

-- Two options that are there together.
abbrev pub Resolves {ℓ} : {A : Type ℓ} → Option A → Type ℓ
Resolves {A = A} o = (a : A) × (o ≡ some a)

exists-Resolves {ℓ} : {A : Type ℓ} (o : Option A) → exists o ≡ true → Resolves o
exists-Resolves none e = cc
exists-Resolves (some a) e = (a, refl)

pub guard-true : (b : Bool) {u : Unit {0}} → guard b ≡ some u → b ≡ true
guard-true true e = refl
guard-true false e = cc

validate_configuration-accepted :
    (available : Bool) (kind : SnapshotKind) (raw : Snapshot) {raw' : Snapshot}
    → validate_configuration available kind raw true ≡ some raw'
    → is_accepted kind raw ≡ true
unfolding validate_configuration
validate_configuration-accepted available kind raw e = elim (Bool-cases (is_accepted kind raw)) [
  | inl t ↦ t
  | inr t ↦ absurd (cc (rw t at e))
]

module _ (available : Bool) (profiles : Profiles) where
  require_validated-snapshot :
      (id : ℕ) (capability : Capability) {raw : Snapshot}
      → require_validated available profiles id capability ≡ some raw
      → (s : ConfigurationSnapshot) × (snapshot_for profiles id capability ≡ some s)
        × (is_accepted (of_capability capability) s.configuration ≡ true)
  unfolding require_validated snapshot_for
  require_validated-snapshot id capability e =
      let (profile, found, e1) = bind-some (get_capability id profiles) _ e in
      let (_, right, e2) =
        bind-some
          (guard (same_capability profile.capability capability && is_validated profile.status)) _
          e1 in
      let (snapshot, there, e3) =
        bind-some (get_snapshot profile.configuration_snapshot_id profiles) _ e2 in
      let (_, kind, e4) =
        bind-some (guard (same_kind snapshot.capability (of_capability capability))) _ e3 in
      let right' = guard-true _ right in
      let kind' = guard-true _ kind in
      let same : same_capability profile.capability capability ≡ true = ground (arith, right') in
      (
        snapshot,
        rw (found, same, there, kind') refl,
        validate_configuration-accepted available (of_capability capability) snapshot.configuration
            e4,
      )

  -- The bundle's embedding cohorts all have a configuration.
  require_all-embeddings_of :
      (ids : List ℕ) {u : Unit {0}}
      → require_all available profiles Capability.embedding ids ≡ some u
      → Resolves (embeddings_of profiles ids)
  unfolding require_all embeddings_of is_accepted
  require_all-embeddings_of [] e = ([], refl)
  require_all-embeddings_of (id ∷ ids) e =
      let (raw, first, e1) =
        bind-some (require_validated available profiles id Capability.embedding) _ e in
      let (snapshot, found, accepted) = require_validated-snapshot id Capability.embedding first in
      let (configuration, valid) = exists-Resolves _ accepted in
      let (rest, resolved) = require_all-embeddings_of ids e1 in
      ((id, configuration) ∷ rest, rw (found, valid, resolved) refl)

  found-all :
      (id : ℕ) {found p : QueryProfile} {embeddings : List (ℕ × EmbeddingConfiguration)}
      {ranking generating snapshot : ConfigurationSnapshot} {ranker : RerankingConfiguration}
      {generator : GenerationConfiguration} {settings : RetrievalConfiguration}
      → get_query id profiles ≡ some found
      → with_cohorts found ≡ some p
      → embeddings_of profiles p.embedding_profile_ids ≡ some embeddings
      → snapshot_for profiles p.reranker_profile_id Capability.reranking ≡ some ranking
      → validate_reranking ranking.configuration ≡ some ranker
      → snapshot_for profiles p.generation_profile_id Capability.generation ≡ some generating
      → validate_generation generating.configuration ≡ some generator
      → get_snapshot p.retrieval_snapshot_id profiles ≡ some snapshot
      → same_kind snapshot.capability retrieval ≡ true
      → validate_retrieval snapshot.configuration ≡ some settings
      → exists (resolve_query id profiles) ≡ true
  unfolding resolve_query
  found-all id a b c d e f g h i j = rw (a, b, c, d, e, f, g, h, i, j) refl

  -- A query profile that the approval accepts is one that a query resolves.
  pub require_query-Resolves :
      (id : ℕ) (profile : QueryProfile)
      → require_query available profiles id ≡ some profile
      → Resolves (resolve_query id profiles)
  unfolding require_query resolve_query is_accepted
  require_query-Resolves id profile e =
      let (found, there, e1) = bind-some (get_query id profiles) _ e in
      let (p, cohorts, e2) = bind-some (with_cohorts found) _ e1 in
      let (_, _, e3) =
        bind-some (require_all available profiles Capability.lexical p.lexical_profile_ids) _ e2 in
      let (_, embedding, e4) =
        bind-some (require_all available profiles Capability.embedding p.embedding_profile_ids) _
          e3 in
      let (_, reranker, e5) =
        bind-some (require_validated available profiles p.reranker_profile_id Capability.reranking)
          _ e4 in
      let (_, generator, e6) =
        bind-some
          (require_validated available profiles p.generation_profile_id Capability.generation) _
          e5 in
      let (snapshot, kept, e7) = bind-some (get_snapshot p.retrieval_snapshot_id profiles) _ e6 in
      let (_, kind, e8) = bind-some (guard (same_kind snapshot.capability retrieval)) _ e7 in
      let (_, settings, _) =
        bind-some (validate_configuration available retrieval snapshot.configuration true) _ e8 in
      let (embeddings, resolved) = require_all-embeddings_of p.embedding_profile_ids embedding in
      let (ranking, ranked, right) = require_validated-snapshot _ Capability.reranking reranker in
      let (_, ranking_valid) = exists-Resolves _ right in
      let (generating, generated, right') =
        require_validated-snapshot _ Capability.generation generator in
      let (_, generating_valid) = exists-Resolves _ right' in
      let accepted =
        validate_configuration-accepted available retrieval snapshot.configuration settings in
      let (_, retrieval_valid) =
        exists-Resolves (validate_retrieval snapshot.configuration) accepted in
      exists-Resolves (resolve_query id profiles) (
        found-all id there cohorts resolved ranked ranking_valid generated generating_valid kept
          (guard-true _ kind) retrieval_valid)

  -- An ingestion profile that the approval accepts is one that the worker resolves.
  pub require_ingestion-Resolves :
      (id : ℕ) (profile : IngestionProfile)
      → require_ingestion available profiles id ≡ some profile
      → Resolves (resolve profiles id)
  unfolding require_ingestion resolve is_accepted
  require_ingestion-Resolves id profile e =
      let (p, there, e1) = bind-some (get_ingestion id profiles) _ e in
      let (_, ner, e2) =
        bind-some (require_validated available profiles p.ner_profile_id Capability.ner) _ e1 in
      let (_, chunking, e3) =
        bind-some (require_validated available profiles p.chunking_profile_id Capability.chunking) _
          e2 in
      let (_, _, e4) =
        bind-some (require_validated available profiles p.lexical_profile_id Capability.lexical) _
          e3 in
      let (_, embedding, _) =
        bind-some (require_validated available profiles p.embedding_profile_id Capability.embedding)
          _ e4 in
      let (_, recognizer, right) = require_validated-snapshot _ Capability.ner ner in
      let (_, ner_valid) = exists-Resolves _ right in
      let (_, chunker, right') = require_validated-snapshot _ Capability.chunking chunking in
      let (_, chunking_valid) = exists-Resolves _ right' in
      let (_, embedder, right'') = require_validated-snapshot _ Capability.embedding embedding in
      let (_, embedding_valid) = exists-Resolves _ right'' in
      exists-Resolves (resolve profiles id)
        (rw (there, recognizer, chunker, embedder, ner_valid, chunking_valid, embedding_valid) refl)
