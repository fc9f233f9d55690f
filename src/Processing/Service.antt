-- ===== src/Processing/Service.antt =====
-- `ProcessingService.process` (application/processing/service.py), and the run of it in a worker's
-- session (worker/ingestion.py).
use Prim.Native.String.{String}
use text.Mathlib.Text.{◌==◌ as str_eq}
use document_insight.Prelude.{ℕ, Bool, true, false, ◌&&◌, Option, none, some, ◌==◌, if◌then◌else◌}
use document_insight.Chunker.Text.{Text}
use document_insight.Chunker.Window.{Chunker, new_chunker}
use document_insight.Configuration.Models.{ResolvedIngestionProfile, ChunkingConfiguration}
use document_insight.Configuration.Resolver.{resolve}
use document_insight.Job.Model.{ProcessingJob}
use document_insight.Job.Repository
use document_insight.Store.Versions
use document_insight.Store.Versions.{ProcessingDocumentVersion}
use document_insight.Store.Extracted
use document_insight.Store.Extracted.{Language}
use document_insight.Store.Generations
use document_insight.Store.Generations.{IndexGeneration}
use document_insight.Store.System.{
  Database, System, Action, pure, raise, query, execute, try_catch, close_session, ◌>>=◌, ◌>>◌,
}
use document_insight.Processing.Failures.{Failure, database_error, class_name, Outside}
use document_insight.Processing.Retry.{
  classify_error, permanent_error, transient_error, record_permanent_failure,
}
use document_insight.Processing.Stages.Blocks.{begin, complete}
use document_insight.Processing.Stages.Parsing.{parse_stage}
use document_insight.Processing.Stages.Recognition.{ner_stage}
use document_insight.Processing.Stages.Chunking.{chunk_stage, assert_some}
use document_insight.Processing.Stages.Embedding.{embed_stage, retry_job}

-- `PageWindowDocumentChunkerFactory.create`; `none` is the `ValueError`
unfoldable pub create_chunker : ChunkingConfiguration → Option Chunker
create_chunker configuration =
    if str_eq configuration.implementation "page_window"
      && str_eq configuration.implementation_revision "1"
    then new_chunker configuration.max_chars configuration.overlap_chars
    else none

abbrev pub finish_version :
    Outside
    → ProcessingJob
    → ProcessingDocumentVersion
    → Option (Option ℕ)
    → Action Failure (Unit {0})
finish_version o job version none = pure tt
finish_version o job version (some ig_id) =
    assert_some ig_id >>= complete o job version.document_version_id

abbrev pub index_version :
    Outside
    → ProcessingJob
    → ProcessingDocumentVersion
    → IndexGeneration
    → ResolvedIngestionProfile
    → Chunker
    → Text
    → Option Language
    → Action Failure (Unit {0})
index_version o job version generation profile chunker text none = pure tt
index_version o job version generation profile chunker text (some language) = do
  ig_id ← chunk_stage o job version generation chunker text language
  next_ig_id ← embed_stage o job version generation profile ig_id
  finish_version o job version next_ig_id

abbrev pub enrich_version :
    Outside
    → ProcessingJob
    → ProcessingDocumentVersion
    → IndexGeneration
    → ResolvedIngestionProfile
    → Chunker
    → Bool
    → Option Text
    → Action Failure (Unit {0})
enrich_version o job version generation profile chunker ner_complete none = pure tt
enrich_version o job version generation profile chunker ner_complete (some text) = do
  language ← ner_stage o job version profile text ner_complete
  index_version o job version generation profile chunker text language

unfoldable pub process_version :
    Outside
    → ProcessingJob
    → ProcessingDocumentVersion
    → IndexGeneration
    → ResolvedIngestionProfile
    → Chunker
    → Option Text
    → Bool
    → Action Failure (Unit {0})
process_version o job version generation profile chunker extracted_text ner_complete =
    parse_stage o job version extracted_text
    >>= enrich_version o job version generation profile chunker ner_complete

-- What the first transaction finds of profile and generation.
pub data Resolution : Type 0 where
  missing : Resolution
  refused : String → Resolution
  resolved : IndexGeneration → ResolvedIngestionProfile → Chunker → Resolution

abbrev pub with_chunker : IndexGeneration → Option ResolvedIngestionProfile → Resolution
with_chunker generation none = refused "processing_profile_invalid"
with_chunker generation (some profile) = elim (create_chunker profile.chunking) [
  | none ↦ refused "processing_profile_invalid"
  | some chunker ↦ resolved generation profile chunker
]

abbrev pub with_generation : Database → ℕ → Option IndexGeneration → Resolution
with_generation d profile_id none = refused "index_generation_missing"
with_generation d profile_id (some generation) =
    if generation.ingestion_profile_id == profile_id
    then with_chunker generation (resolve d.profiles profile_id)
    else refused "index_generation_missing"

abbrev pub resolution_of : Database → ℕ → Option ℕ → Option ℕ → Resolution
resolution_of d tenant_id (some profile_id) (some generation_id) =
    with_generation d profile_id (Generations.get generation_id tenant_id d.generations)
resolution_of d tenant_id _ _ = missing

pub data Opened : Type 0 where
  not_claimed : Opened
  no_version : Opened
  opened : ProcessingJob → ProcessingDocumentVersion → Option Text → Bool → Resolution → Opened

abbrev pub open_version : ProcessingJob → Option ProcessingDocumentVersion → Database → Opened
open_version job none d = no_version
open_version job (some version) d =
    opened job version (Extracted.get_text version.document_version_id d.extracted)
      (Extracted.ner_is_complete version.document_version_id d.extracted)
      (resolution_of d version.tenant_id job.ingestion_profile_id job.index_generation_id)

abbrev pub open_claimed : Option ProcessingJob → Action Failure Opened
open_claimed none = pure not_claimed
open_claimed (some job) = do
  execute (λ d. record d { versions = Versions.mark_processing job.document_version_id d.versions })
  query (λ d.
      open_version job
        (Versions.get_for_processing job.document_version_id job.tenant_id d.versions) d)

abbrev pub claim_job : Outside → ℕ → Action Failure (Option ProcessingJob)
claim_job o job_id = do
  job ← query (λ d. (Repository.claim job_id o.now o.now d.jobs).0)
  execute (λ d. record d { jobs = (Repository.claim job_id o.now o.now d.jobs).1 })
  pure job

-- the end of the first transaction, which the database carries out or refuses
abbrev pub opened_if : Bool → Opened → Action Failure Opened
opened_if true x = pure x
opened_if false x = raise database_error

-- the first transaction of `process`
unfoldable pub open_job : Outside → ℕ → Action Failure Opened
open_job o job_id = begin (claim_job o job_id >>= open_claimed >>= opened_if o.opens)

-- the `except Exception` of `process`
unfoldable pub handle_failure : Outside → ProcessingJob → Failure → Action Failure (Unit {0})
unfolding record_permanent_failure classify_error retry_job
handle_failure o job error = elim (classify_error error) [
  | permanent_error ↦
      record_permanent_failure o job (class_name error) "permanent_processing_failure"
  | transient_error ↦ retry_job o job
]

unfoldable pub run_opened : Outside → Opened → Action Failure (Unit {0})
unfolding record_permanent_failure
run_opened o not_claimed = pure tt
run_opened o no_version = pure tt
run_opened o (opened job version text ner_complete missing) =
    record_permanent_failure o job "processing_profile_missing" "profile_or_generation_missing"
run_opened o (opened job version text ner_complete (refused error_code)) =
    record_permanent_failure o job error_code "profile_resolution_failed"
run_opened o (opened job version text ner_complete (resolved generation profile chunker)) =
    try_catch (process_version o job version generation profile chunker text ner_complete)
      (handle_failure o job)

unfoldable pub process : Outside → ℕ → Action Failure (Unit {0})
unfolding open_job run_opened
process o job_id = open_job o job_id >>= run_opened o

-- `worker.ingestion._process`: one session around the service, closed at the end
unfoldable pub run_worker : Outside → ℕ → System → System
unfolding process
run_worker o job_id s = close_session (process o job_id s).1
