-- ===== src/Processing/Sample.antt =====
-- One queued job: a document of one line, and an outside world that answers.
use document_insight.Prelude.{
  ℕ, ◌≡◌, refl, true, false, Option, none, some, List, [], ◌∷◌, map, length-map, arith,
}
use document_insight.Chunker.Text.{Text, code_points}
use document_insight.Chunker.Window.{Chunker}
use document_insight.Configuration.Models.{
  Capability, of_capability, NerConfiguration, ChunkingConfiguration, EmbeddingConfiguration,
  ner_snapshot, chunking_snapshot, embedding_snapshot, ResolvedIngestionProfile,
}
use document_insight.Configuration.Profiles.{Profiles, validated}
use document_insight.Job.Model.{ProcessingJob, JobRow, JobStatus}
use document_insight.Store.Versions.{VersionRow, VersionStatus, pdf, ProcessingDocumentVersion}
use document_insight.Store.Extracted.{english, ExtractedRow, ParsedDocument}
use document_insight.Store.Generations.{GenerationRow, GenerationStatus, IndexGeneration}
use document_insight.Store.Chunks.{Vector}
use document_insight.Store.Entities.{NerResult}
use document_insight.Store.System.{Database, System, ok, err}
use document_insight.Processing.Failures.{embedding_error, Outside}
use document_insight.Processing.Stages.Parsing.{parse_original}
use document_insight.Processing.Finish.{Works}

abbrev pub line : Text
line = 65 ∷ 66 ∷ 67 ∷ []

abbrev pub document : ParsedDocument
document = record { text = line; page_count = 1; parser_name = "pypdf"; parser_version = "5" }

abbrev pub found : NerResult
found = record {
  language = english;
  provider_name = "spacy";
  model_name = "en_core_web_sm";
  entities = [];
}

abbrev pub unit_vector : Text → Vector
unit_vector t = 1 ∷ []

abbrev pub world : Outside
world = record {
  now = 500;
  fetch = λ key. ok line;
  parse_pdf = λ bytes. ok document;
  parse_image = λ bytes. err embedding_error;
  recognize = λ configuration text. ok found;
  create_embedder = λ configuration. ok tt;
  embed = λ configuration texts. ok (map unit_vector texts);
  new_id = λ ordinal. ordinal;
  queue_accepts = true;
  opens = true;
  records = true;
  jitter = 0;
}

abbrev pub ner : NerConfiguration
ner = record {
  provider = "spacy";
  english_model = "en_core_web_sm";
  croatian_model = "hr_core_news_sm";
  model_revision = "1";
}

abbrev pub chunking : ChunkingConfiguration
chunking = record {
  implementation = "page_window";
  implementation_revision = "1";
  max_chars = 1000;
  overlap_chars = 150;
}

abbrev pub embedding : EmbeddingConfiguration
embedding = record {
  provider = "local";
  model = "e5";
  configuration_revision = "1";
  dimensions = 384;
  normalize = true;
  batch_size = 32;
}

abbrev pub profile : ResolvedIngestionProfile
profile = record {
  ingestion_profile_id = 50;
  ner_profile_id = 51;
  chunking_profile_id = 52;
  lexical_profile_id = 53;
  embedding_profile_id = 54;
  ner = ner;
  chunking = chunking;
  embedding = embedding;
}

abbrev pub profiles : Profiles
profiles = record {
  ingestion_profiles =
      record {
        ingestion_profile_id = 50;
        ner_profile_id = 51;
        chunking_profile_id = 52;
        lexical_profile_id = 53;
        embedding_profile_id = 54;
      }
      ∷ [];
  query_profiles = [];
  capability_profiles =
      record {
        profile_id = 51;
        capability = Capability.ner;
        configuration_snapshot_id = 61;
        status = validated;
        name = code_points "ner";
      }
      ∷ record {
        profile_id = 52;
        capability = Capability.chunking;
        configuration_snapshot_id = 62;
        status = validated;
        name = code_points "chunking";
      }
      ∷ record {
        profile_id = 54;
        capability = Capability.embedding;
        configuration_snapshot_id = 64;
        status = validated;
        name = code_points "embedding";
      }
      ∷ [];
  snapshots =
      record {
        snapshot_id = 61;
        capability = of_capability Capability.ner;
        fingerprint = 71;
        configuration = ner_snapshot ner;
      }
      ∷ record {
        snapshot_id = 62;
        capability = of_capability Capability.chunking;
        fingerprint = 72;
        configuration = chunking_snapshot chunking;
      }
      ∷ record {
        snapshot_id = 64;
        capability = of_capability Capability.embedding;
        fingerprint = 74;
        configuration = embedding_snapshot embedding;
      }
      ∷ [];
  activations = [];
}

abbrev pub job_row : JobRow
job_row = record {
  id = 7;
  tenant_id = 1;
  document_version_id = 20;
  ingestion_profile_id = some 50;
  index_generation_id = some 60;
  idempotency_key = 30;
  correlation_id = 40;
  status = JobStatus.queued;
  attempt_count = 0;
  error_code = none;
  error_category = none;
  failure_reason = none;
  last_attempt_at = none;
  next_retry_at = none;
  created_by = 2;
  enqueued_at = some 100;
  started_at = none;
  finished_at = none;
  created_at = 100;
  updated_at = 100;
}

abbrev pub version_row : VersionRow
version_row = record {
  id = 20;
  document_id = 10;
  tenant_id = 1;
  version_number = 1;
  original_filename = [];
  object_key = record { tenant_id = 1; document_id = 10; version_id = 20; suffix = ".pdf" };
  media_type = pdf;
  size_bytes = 3;
  content_sha256 = 99;
  status = VersionStatus.queued;
  created_by = 2;
  created_at = 100;
}

-- the generation, with the times of its two checkpoints
abbrev pub generation_row : Option ℕ → Option ℕ → GenerationRow
generation_row chunked embedded = record {
  id = 60;
  tenant_id = 1;
  document_version_id = 20;
  ingestion_profile_id = 50;
  status = GenerationStatus.building;
  chunking_completed_at = chunked;
  lexical_indexed_at = chunked;
  embedding_completed_at = embedded;
  created_at = 100;
}

abbrev pub extracted_row : ExtractedRow
extracted_row = record {
  document_version_id = 20;
  tenant_id = 1;
  text = line;
  page_count = 1;
  parser_name = "pypdf";
  parser_version = "5";
  detected_language = some english;
  ner_provider = some "spacy";
  ner_model = some "en_core_web_sm";
  ner_completed_at = some 200;
}

abbrev pub database : List ExtractedRow → GenerationRow → Database
database extracted generation = record {
  documents = [];
  departments = [];
  assignments = [];
  versions = version_row ∷ [];
  jobs = job_row ∷ [];
  extracted = extracted;
  entities = [];
  generations = generation ∷ [];
  chunks = [];
  embeddings = [];
  profiles = profiles;
  active_profiles = [];
}

abbrev pub at_rest : Database → System
at_rest d = record { durable = d; working = d; in_transaction = false; queue = []; objects = [] }

abbrev pub fresh : System
fresh = at_rest (database [] (generation_row none none))

abbrev pub job : ProcessingJob
job = record {
  job_id = 7;
  tenant_id = 1;
  document_version_id = 20;
  correlation_id = 40;
  ingestion_profile_id = some 50;
  index_generation_id = some 60;
  attempt_count = 1;
}

abbrev pub version : ProcessingDocumentVersion
version = record {
  document_version_id = 20;
  tenant_id = 1;
  object_key = version_row.object_key;
  media_type = pdf;
}

abbrev pub generation : Option ℕ → Option ℕ → IndexGeneration
generation chunked embedded = record {
  index_generation_id = 60;
  ingestion_profile_id = 50;
  chunking_completed_at = chunked;
  embedding_completed_at = embedded;
}

abbrev pub chunker : Chunker
chunker = record { max_chars = 1000; overlap_chars = 150 }

pub world_parses : parse_original world version ≡ ok document
unfolding parse_original
world_parses = refl

abbrev pub works : Works world version profile chunker
works = record {
  parsed = document;
  parses = world_parses;
  entities = λ text. found;
  recognizes = λ text. refl;
  creates = refl;
  answers = λ texts. (map unit_vector texts, refl, length-map unit_vector texts);
  some_batch = omega arith;
  some_window = omega arith;
}
