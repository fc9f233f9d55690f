-- ===== src/Configuration/Models.antt =====
-- The typed configuration snapshots of application/configuration/models.py, with the bounds that
-- their fields declare. A snapshot's JSON is modelled by the configuration that it validates as; a
-- float is the bit pattern of the double.
use Prim.Native.String.{String}
use document_insight.Prelude.{
  ℕ, Bool, true, false, ◌&&◌, ◌||◌, not, Option, none, some, List, leb, ◌==◌, length, if◌then◌else◌,
}
use document_insight.Chunker.Text.{Text}

pub data Capability : Type 0 where
  ner chunking lexical embedding reranking generation : Capability

-- what a snapshot says that it configures: a capability, or the retrieval of a query profile
pub data SnapshotKind : Type 0 where
  of_capability : Capability → SnapshotKind
  retrieval : SnapshotKind

abbrev pub same_capability : Capability → Capability → Bool
same_capability Capability.ner Capability.ner = true
same_capability Capability.chunking Capability.chunking = true
same_capability Capability.lexical Capability.lexical = true
same_capability Capability.embedding Capability.embedding = true
same_capability Capability.reranking Capability.reranking = true
same_capability Capability.generation Capability.generation = true
same_capability _ _ = false

abbrev pub same_kind : SnapshotKind → SnapshotKind → Bool
same_kind (of_capability a) (of_capability b) = same_capability a b
same_kind SnapshotKind.retrieval SnapshotKind.retrieval = true
same_kind _ _ = false

pub record NerConfiguration : Type 0 where
  pub provider : String
  pub english_model : String
  pub croatian_model : String
  pub model_revision : String

pub record ChunkingConfiguration : Type 0 where
  pub implementation : String
  pub implementation_revision : String
  pub max_chars : ℕ
  pub overlap_chars : ℕ

pub record EmbeddingConfiguration : Type 0 where
  pub provider : String
  pub model : String
  pub configuration_revision : String
  pub dimensions : ℕ
  pub normalize : Bool
  pub batch_size : ℕ

pub record LexicalConfiguration : Type 0 where
  pub implementation : String
  pub configuration : String
  pub implementation_revision : String

pub record RerankingConfiguration : Type 0 where
  pub provider : String
  pub model : String
  pub configuration_revision : String
  pub prompt_revision : String
  pub system_prompt : Text
  pub response_schema_revision : String
  pub temperature : ℕ
  pub max_output_tokens : ℕ

pub record GenerationConfiguration : Type 0 where
  pub provider : String
  pub model : String
  pub configuration_revision : String
  pub prompt_revision : String
  pub system_prompt : Text
  pub correction_prompt : Text
  pub response_schema_revision : String
  pub temperature : ℕ
  pub max_output_tokens : ℕ

pub record RetrievalConfiguration : Type 0 where
  pub lexical_candidate_limit : ℕ
  pub vector_candidate_limit : ℕ
  pub rerank_candidate_limit : ℕ
  pub rrf_k : ℕ
  pub entity_match_boost : ℕ
  pub insufficient_evidence_threshold : ℕ
  pub min_citation_score : ℕ

abbrev within : ℕ → ℕ → ℕ → Bool
within low high n = leb low n && leb n high

-- `0.0 <= x <= bound` for the bit pattern of a double: those up to the bound's, and that of -0.0
abbrev pub unit : ℕ
unit = 0x3ff0000000000000

abbrev two : ℕ
two = 0x4000000000000000

abbrev pub up_to : ℕ → ℕ → Bool
up_to bound x = leb x bound || x == 0x8000000000000000

-- what the pydantic models refuse of the numbers and of the prompts
unfoldable pub chunking_is_valid : ChunkingConfiguration → Bool
chunking_is_valid c =
    leb 200 c.max_chars
    && leb c.max_chars 4000
    && leb c.overlap_chars 1000
    && not (leb c.max_chars c.overlap_chars)

unfoldable pub embedding_is_valid : EmbeddingConfiguration → Bool
embedding_is_valid e =
    leb 1 e.dimensions && leb e.dimensions 16384 && leb 1 e.batch_size && leb e.batch_size 512

unfoldable pub reranking_is_valid : RerankingConfiguration → Bool
reranking_is_valid r =
    within 1 8000 (length r.system_prompt)
    && up_to two r.temperature
    && within 64 4096 r.max_output_tokens

unfoldable pub generation_is_valid : GenerationConfiguration → Bool
generation_is_valid g =
    within 1 8000 (length g.system_prompt)
    && within 1 2000 (length g.correction_prompt)
    && up_to two g.temperature
    && within 64 4096 g.max_output_tokens

unfoldable pub retrieval_is_valid : RetrievalConfiguration → Bool
retrieval_is_valid r =
    within 1 200 r.lexical_candidate_limit
    && within 1 200 r.vector_candidate_limit
    && within 1 200 r.rerank_candidate_limit
    && within 1 1000 r.rrf_k
    && up_to unit r.entity_match_boost
    && up_to unit r.insufficient_evidence_threshold
    && up_to unit r.min_citation_score

-- A stored snapshot: the fields of one of the models, or JSON that none of them accepts.
pub data Snapshot : Type 0 where
  ner_snapshot : NerConfiguration → Snapshot
  chunking_snapshot : ChunkingConfiguration → Snapshot
  lexical_snapshot : LexicalConfiguration → Snapshot
  embedding_snapshot : EmbeddingConfiguration → Snapshot
  reranking_snapshot : RerankingConfiguration → Snapshot
  generation_snapshot : GenerationConfiguration → Snapshot
  retrieval_snapshot : RetrievalConfiguration → Snapshot
  other_snapshot : Snapshot

-- `NerConfiguration.model_validate` and the others; `none` is the `ValidationError`
unfoldable pub validate_ner : Snapshot → Option NerConfiguration
validate_ner (ner_snapshot c) = some c
validate_ner _ = none

unfoldable pub validate_chunking : Snapshot → Option ChunkingConfiguration
unfolding chunking_is_valid
validate_chunking (chunking_snapshot c) = if chunking_is_valid c then some c else none
validate_chunking _ = none

unfoldable pub validate_lexical : Snapshot → Option LexicalConfiguration
validate_lexical (lexical_snapshot c) = some c
validate_lexical _ = none

unfoldable pub validate_embedding : Snapshot → Option EmbeddingConfiguration
unfolding embedding_is_valid
validate_embedding (embedding_snapshot c) = if embedding_is_valid c then some c else none
validate_embedding _ = none

unfoldable pub validate_reranking : Snapshot → Option RerankingConfiguration
unfolding reranking_is_valid
validate_reranking (reranking_snapshot c) = if reranking_is_valid c then some c else none
validate_reranking _ = none

unfoldable pub validate_generation : Snapshot → Option GenerationConfiguration
unfolding generation_is_valid
validate_generation (generation_snapshot c) = if generation_is_valid c then some c else none
validate_generation _ = none

unfoldable pub validate_retrieval : Snapshot → Option RetrievalConfiguration
unfolding retrieval_is_valid
validate_retrieval (retrieval_snapshot c) = if retrieval_is_valid c then some c else none
validate_retrieval _ = none

pub record ResolvedIngestionProfile : Type 0 where
  pub ingestion_profile_id : ℕ
  pub ner_profile_id : ℕ
  pub chunking_profile_id : ℕ
  pub lexical_profile_id : ℕ
  pub embedding_profile_id : ℕ
  pub ner : NerConfiguration
  pub chunking : ChunkingConfiguration
  pub embedding : EmbeddingConfiguration

pub record ResolvedQueryProfile : Type 0 where
  pub query_profile_id : ℕ
  pub lexical_profile_ids : List ℕ
  pub embedding_profile_ids : List ℕ
  pub embedding_configurations : List (ℕ × EmbeddingConfiguration)
  pub reranking : RerankingConfiguration
  pub generation : GenerationConfiguration
  pub retrieval : RetrievalConfiguration
