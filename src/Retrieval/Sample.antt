-- ===== src/Retrieval/Sample.antt =====
-- A tenant with one document in one department, indexed and with active profiles.
use document_insight.Prelude.{ℕ, false, none, some, [], ◌∷◌}
use document_insight.Chunker.Text.{code_points}
use document_insight.Configuration.Models.{
  Capability, of_capability, retrieval, RerankingConfiguration, GenerationConfiguration,
  EmbeddingConfiguration, ner_snapshot, chunking_snapshot, lexical_snapshot, embedding_snapshot,
  reranking_snapshot, generation_snapshot, retrieval_snapshot,
}
use document_insight.Configuration.Profiles
use document_insight.Configuration.Profiles.{Profiles, QueryProfile, validated}
use document_insight.Store.Extracted.{english}
use document_insight.Store.Generations.{GenerationStatus}
use document_insight.Store.Active
use document_insight.Store.System.{Database}

abbrev pub embedding : EmbeddingConfiguration
embedding = record {
  provider = "mistral";
  model = "embed";
  configuration_revision = "1";
  dimensions = 1;
  normalize = false;
  batch_size = 8;
}

abbrev pub reranking : RerankingConfiguration
reranking = record {
  provider = "mistral";
  model = "small";
  configuration_revision = "1";
  prompt_revision = "1";
  system_prompt = code_points "Rank.";
  response_schema_revision = "1";
  temperature = 0;
  max_output_tokens = 512;
}

abbrev pub generation : GenerationConfiguration
generation = record {
  provider = "mistral";
  model = "small";
  configuration_revision = "1";
  prompt_revision = "1";
  system_prompt = code_points "Answer.";
  correction_prompt = code_points "Cite.";
  response_schema_revision = "1";
  temperature = 0;
  max_output_tokens = 512;
}

abbrev pub profile_row : ℕ → Capability → ℕ → Profiles.CapabilityProfile
profile_row id capability snapshot_id = record {
  profile_id = id;
  capability = capability;
  configuration_snapshot_id = snapshot_id;
  status = validated;
  name = [];
}

abbrev pub query_profile : ℕ → QueryProfile
query_profile id = record {
  query_profile_id = id;
  lexical_profile_ids = 53 ∷ [];
  embedding_profile_ids = 54 ∷ [];
  reranker_profile_id = 55;
  generation_profile_id = 56;
  retrieval_snapshot_id = 67;
}

abbrev pub profiles : Profiles
profiles = record {
  ingestion_profiles =
      record {
        ingestion_profile_id = 50;
        ner_profile_id = 51;
        chunking_profile_id = 52;
        lexical_profile_id = 53;
        embedding_profile_id = 54;
      }
      ∷ [];
  query_profiles = query_profile 70 ∷ query_profile 71 ∷ [];
  capability_profiles =
      profile_row 51 Capability.ner 61
      ∷ profile_row 52 Capability.chunking 62
      ∷ profile_row 53 Capability.lexical 63
      ∷ profile_row 54 Capability.embedding 64
      ∷ profile_row 55 Capability.reranking 65
      ∷ profile_row 56 Capability.generation 66
      ∷ [];
  snapshots =
      record {
        snapshot_id = 61;
        capability = of_capability Capability.ner;
        fingerprint = 1;
        configuration = ner_snapshot (record {
          provider = "spacy";
          english_model = "en";
          croatian_model = "hr";
          model_revision = "1";
        });
      }
      ∷ record {
        snapshot_id = 62;
        capability = of_capability Capability.chunking;
        fingerprint = 2;
        configuration = chunking_snapshot (record {
          implementation = "page_window";
          implementation_revision = "1";
          max_chars = 800;
          overlap_chars = 100;
        });
      }
      ∷ record {
        snapshot_id = 63;
        capability = of_capability Capability.lexical;
        fingerprint = 3;
        configuration = lexical_snapshot (record {
          implementation = "postgres_fts";
          configuration = "simple";
          implementation_revision = "1";
        });
      }
      ∷ record {
        snapshot_id = 64;
        capability = of_capability Capability.embedding;
        fingerprint = 4;
        configuration = embedding_snapshot embedding;
      }
      ∷ record {
        snapshot_id = 65;
        capability = of_capability Capability.reranking;
        fingerprint = 5;
        configuration = reranking_snapshot reranking;
      }
      ∷ record {
        snapshot_id = 66;
        capability = of_capability Capability.generation;
        fingerprint = 6;
        configuration = generation_snapshot generation;
      }
      ∷ record {
        snapshot_id = 67;
        capability = retrieval;
        fingerprint = 7;
        configuration = retrieval_snapshot (record {
          lexical_candidate_limit = 10;
          vector_candidate_limit = 10;
          rerank_candidate_limit = 10;
          rrf_k = 60;
          entity_match_boost = 1;
          insufficient_evidence_threshold = 3;
          min_citation_score = 5;
        });
      }
      ∷ [];
  activations = [];
}

abbrev pub database : Database
database = record {
  documents =
      record {
        id = 10;
        tenant_id = 1;
        title = code_points "Report";
        created_by = 2;
        current_ready_version_id = some 20;
        created_at = 0;
      }
      ∷ [];
  departments = [];
  assignments = record { document_id = 10; department_id = 5; tenant_id = 1 } ∷ [];
  versions = [];
  jobs = [];
  extracted = [];
  entities = [];
  generations =
      record {
        id = 60;
        tenant_id = 1;
        document_version_id = 20;
        ingestion_profile_id = 50;
        status = GenerationStatus.ready;
        chunking_completed_at = some 1;
        lexical_indexed_at = some 1;
        embedding_completed_at = some 2;
        created_at = 0;
      }
      ∷ [];
  chunks =
      record {
        id = 30;
        tenant_id = 1;
        document_version_id = 20;
        index_generation_id = 60;
        ordinal = 0;
        text = code_points "Revenue rose.";
        start_offset = 0;
        end_offset = 13;
        page_number = 1;
        language = english;
      }
      ∷ [];
  embeddings = record { chunk_id = 30; embedding_profile_id = 54; embedding = 1 ∷ [] } ∷ [];
  profiles = profiles;
  active_profiles =
      record {
        scope = Active.platform;
        profile_kind = Active.query;
        ingestion_profile_id = none;
        query_profile_id = some 70;
        revision = 1;
      }
      ∷ record {
        scope = Active.platform;
        profile_kind = Active.ingestion;
        ingestion_profile_id = some 50;
        query_profile_id = none;
        revision = 1;
      }
      ∷ [];
}
