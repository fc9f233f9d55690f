-- ===== src/Ingestion/Service.antt =====
-- `IngestionService.ingest` (application/ingestion/service.py).
use text.Mathlib.Text.{◌==◌ as str_eq}
use document_insight.Prelude.{
  ℕ, Bool, true, false, ◌&&◌, not, none, List, [], ◌∷◌, ◌++◌, ◌==◌, length, keep_if,
}
use document_insight.Job.Repository
use document_insight.Store.Versions.{MediaType, ObjectKey}
use document_insight.Store.System.{
  Database, StoredObject, QueueEntry, Result, ok, err, Action, pure, raise, outcome, try_catch,
  transact, ◌>>=◌, ◌>>◌,
}
use document_insight.Ingestion.Request.{
  IngestionError, database_error, invalid_request, object_storage_unavailable, queue_unavailable,
  IngestDocumentCommand, check_upload,
}
use document_insight.Ingestion.Settings.{IngestionService, IngestionResult}
use document_insight.Ingestion.Departments.{resolve_departments}
use document_insight.Ingestion.Registration.{target_id, object_key, original_filename, register}

abbrev pub same_key : ObjectKey → StoredObject → Bool
same_key key stored =
    (stored.key.tenant_id == key.tenant_id)
    && (stored.key.document_id == key.document_id)
    && (stored.key.version_id == key.version_id)
    && str_eq stored.key.suffix key.suffix

-- `put` replaces what the key held
abbrev pub put : Bool → ObjectKey → List ℕ → Action IngestionError (Unit {0})
put true key content s = (
  ok tt,
  record s {
    objects =
        keep_if (λ o. not (same_key key o)) s.objects
        ++ record { key = key; content = content } ∷ [];
  },
)
put false key content s = (err object_storage_unavailable, s)

abbrev pub delete : Bool → ObjectKey → Action IngestionError (Unit {0})
delete true key s = (ok tt, record s { objects = keep_if (λ o. not (same_key key o)) s.objects })
delete false key s = (err object_storage_unavailable, s)

abbrev pub enqueue : Bool → QueueEntry → Action IngestionError (Unit {0})
enqueue true entry s = (ok tt, record s { queue = s.queue ++ entry ∷ [] })
enqueue false entry s = (err queue_unavailable, s)

-- the metadata transaction, which takes the object back when it fails
unfoldable pub store_metadata :
    IngestionService → IngestDocumentCommand → MediaType → List ℕ → Action IngestionError ℕ
unfolding register
store_metadata service command media_type departments =
    try_catch
      (transact invalid_request (
        register service command media_type (original_filename command.filename media_type)
          departments))
      (λ error. delete service.deletes (object_key service command media_type) >> raise error)

-- what a transaction gives that the database carries out or refuses
abbrev pub given : {A : Type 0} → Bool → A → Database → Result IngestionError (A × Database)
given true a d = ok (a, d)
given false a d = err database_error

abbrev pub publish : IngestionService → IngestDocumentCommand → Action IngestionError (Unit {0})
publish service command =
    enqueue service.enqueues (record {
      job_id = service.job_id;
      correlation_id = command.correlation_id;
      not_before = none;
    })
    >> transact invalid_request (λ d.
      given service.marks tt (record d {
        jobs = Repository.mark_enqueued service.job_id service.now service.now d.jobs;
      }))

abbrev pub result_of : IngestionService → IngestDocumentCommand → MediaType → ℕ → IngestionResult
result_of service command media_type version_number = record {
  document_id = target_id service command;
  document_version_id = service.version_id;
  job_id = service.job_id;
  version_number = version_number;
  object_key = object_key service command media_type;
  media_type = media_type;
  size_bytes = length command.content;
  content_sha256 = service.sha256 command.content;
}

-- a transaction that only reads
abbrev pub keep_tables :
    {A : Type 0} → Bool → Database → Result IngestionError A → Result IngestionError (A × Database)
keep_tables reads d (err e) = elim reads [ true ↦ err e | false ↦ err database_error ]
keep_tables reads d (ok a) = given reads a d

unfoldable pub ingest :
    IngestionService → IngestDocumentCommand → Action IngestionError IngestionResult
unfolding check_upload resolve_departments store_metadata
ingest service command = do
  media_type ← outcome (check_upload service.max_upload_bytes command)
  departments ← transact invalid_request (λ d.
      keep_tables service.reads d
        (resolve_departments command.department_ids command.actor d command.document_id))
  put service.puts (object_key service command media_type) command.content
  version_number ← store_metadata service command media_type departments
  publish service command
  pure (result_of service command media_type version_number)
