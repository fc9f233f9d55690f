-- ===== src/Processing/Tests.antt =====
-- The worker at the queued job of Processing/Sample.antt.
use document_insight.Prelude.{
  ◌≡◌, ◌≤◌, ◌+◌, ◌*◌, ◌⊎◌, refl, inl, true, false, none, some, List, [], ◌∷◌, arith,
}
use document_insight.Chunker.Window.{new_chunker}
use document_insight.Configuration.Models.{
  validate_ner, validate_chunking, validate_embedding, chunking_is_valid,
}
use document_insight.Configuration.Resolver.{resolve, snapshot_for}
use document_insight.Job.Repository.{claim, to_processing_job}
use document_insight.Store.Versions
use document_insight.Store.Versions.{VersionRow, VersionStatus, pdf, ProcessingDocumentVersion}
use document_insight.Store.Extracted
use document_insight.Store.Extracted.{Language, english, ExtractedRow, ParsedDocument}
use document_insight.Store.Generations
use document_insight.Store.Generations.{GenerationRow, GenerationStatus, IndexGeneration}
use document_insight.Store.Chunks.{ChunkForEmbedding}
use document_insight.Store.System.{System, ok, err, close_session}
use document_insight.Processing.Failures.{storage_unavailable, database_error, assertion_error}
use document_insight.Processing.Retry.{default_config, base_delay, calculate_backoff}
use document_insight.Processing.Embedding.{embed_chunks-Answers, embedded_ids, ids}
use document_insight.Processing.Stages.Chunking.{save_chunks}
use document_insight.Processing.Stages.Embedding.{embed_chunks}
use document_insight.Processing.Service.{
  opened, missing, resolved, create_chunker, open_job, handle_failure, process, process_version,
  run_worker,
}
use document_insight.Processing.Durability.{
  handle_failure-durable, finished_generation_stuck, unresolved_not_failed,
}
use document_insight.Processing.Checkpoints.{save_chunks-save_chunks}
use document_insight.Processing.Success.{IsFinished}
use document_insight.Processing.Finish.{process_version-IsFinished}
use document_insight.Processing.Backoff.{calculate_backoff-within}
use document_insight.Processing.Returns.{process-returns}
use document_insight.Processing.Sample.{
  line, world, embedding, profile, job_row, generation_row, extracted_row, database, at_rest, fresh,
  job, version, generation, chunker, works,
}

process_version-IsFinished_example :
    let (r, s') =
      process_version world job version (generation none none) profile chunker none false fresh in
    (r ≡ ok tt) × IsFinished 7 20 60 s'.durable
process_version-IsFinished_example =
    process_version-IsFinished world job version (generation none none) profile chunker 60 refl
      works none false fresh refl (inl refl) (inl refl)

process-returns_example :
    ((process world 7 fresh).0 ≡ ok tt)
    ⊎ (((process world 7 fresh).0 ≡ err database_error)
        × ((world.opens ≡ false) ⊎ (world.records ≡ false)))
process-returns_example = process-returns world 7 fresh refl

handle_failure-durable_example :
    (close_session (handle_failure world job storage_unavailable fresh).1).durable ≡ fresh.durable
handle_failure-durable_example = handle_failure-durable world job storage_unavailable fresh

-- the database that a run leaves which dies between the last checkpoint and the completion
abbrev interrupted : System
interrupted = at_rest (database (extracted_row ∷ []) (generation_row (some 300) (some 400)))

interrupted_opens : open_job world 7 interrupted ≡ (
  ok (
      opened job version
        (some line)
        true
        (resolved (generation (some 300) (some 400)) profile chunker)),
  (open_job world 7 interrupted).1,
)
unfolding open_job claim to_processing_job Versions.mark_processing Versions.get_for_processing
    Extracted.get_text Extracted.ner_is_complete Generations.get resolve snapshot_for validate_ner
    validate_chunking validate_embedding chunking_is_valid create_chunker new_chunker
interrupted_opens = refl

interrupted_recognized :
    Extracted.get_ner_metadata 20 (open_job world 7 interrupted).1.durable.extracted ≡ some english
unfolding open_job claim to_processing_job Versions.mark_processing Versions.get_for_processing
    Extracted.get_ner_metadata
interrupted_recognized = refl

finished_generation_stuck_example :
    ((process_version world job version
        (generation (some 300) (some 400))
        profile
        chunker
        (some line)
        true
        (open_job world 7 interrupted).1).0
      ≡ err assertion_error)
    × ((run_worker world 7 interrupted).durable ≡ (open_job world 7 interrupted).1.durable)
finished_generation_stuck_example =
    finished_generation_stuck world 7 job version (generation (some 300) (some 400)) profile chunker
      line interrupted (open_job world 7 interrupted).1 interrupted_opens refl refl
      interrupted_recognized

-- a job that names a profile that is not stored
abbrev unresolvable : System
unresolvable = at_rest (record (database [] (generation_row none none)) {
  jobs = record job_row { ingestion_profile_id = none } ∷ [];
})

unresolvable_opens : open_job world 7 unresolvable ≡ (
  ok (opened (record job { ingestion_profile_id = none }) version none false missing),
  (open_job world 7 unresolvable).1,
)
unfolding open_job claim to_processing_job Versions.mark_processing Versions.get_for_processing
    Extracted.get_text Extracted.ner_is_complete
unresolvable_opens = refl

unresolved_not_failed_example :
    (run_worker world 7 unresolvable).durable ≡ (open_job world 7 unresolvable).1.durable
unresolved_not_failed_example =
    unresolved_not_failed world 7 (record job { ingestion_profile_id = none }) version none false ""
      missing unresolvable (open_job world 7 unresolvable).1 (inl refl) unresolvable_opens

save_chunks-save_chunks_example :
    let d' = save_chunks world version english 60 [] fresh.working in
    save_chunks world version english 60 [] d' ≡ d'
save_chunks-save_chunks_example =
    save_chunks-save_chunks world world version english english 60 [] [] fresh.working

line_exists : Extracted.exists 20 interrupted.working.extracted ≡ true
unfolding Extracted.exists
line_exists = refl

abbrev listed : List ChunkForEmbedding
listed = record { chunk_id = 0; text = line } ∷ record { chunk_id = 1; text = line } ∷ []

embed_chunks-Answers_example :
    (es : _) × (embed_chunks world embedding listed ≡ ok es) × (embedded_ids es ≡ ids listed)
embed_chunks-Answers_example =
    embed_chunks-Answers world embedding listed refl works.answers (omega arith)

within : 400 ≤ 2 * (base_delay default_config 3 * 25)
unfolding base_delay
within = omega arith

calculate_backoff-within_example :
    (calculate_backoff default_config 3 400
      ≤ base_delay default_config 3 * 100 + base_delay default_config 3 * 25)
    × (base_delay default_config 3 * 100
        ≤ calculate_backoff default_config 3 400 + base_delay default_config 3 * 25)
    × (base_delay default_config 3 ≤ 60)
calculate_backoff-within_example = calculate_backoff-within default_config 3 400 within
