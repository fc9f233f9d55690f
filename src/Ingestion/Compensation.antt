-- ===== src/Ingestion/Compensation.antt =====
-- What an upload that fails leaves behind.
use mathlib.Core.Path.{subst}
use document_insight.Prelude.{
  ℕ, ◌≡◌, ◌⊎◌, refl, ap, sym, ◌∙◌, inl, inr, true, false, none, [], ◌∷◌, ◌++◌, All,
}
use document_insight.Job.Model.{JobRow, Jobs}
use document_insight.Job.Repository
use document_insight.Job.Requeue.{recoverable}
use document_insight.Store.Versions.{MediaType}
use document_insight.Store.System.{System, Result, err}
use document_insight.Ingestion.Request.{
  IngestionError, queue_unavailable, database_error, IngestDocumentCommand,
}
use document_insight.Ingestion.Settings.{IngestionService, IngestionResult}
use document_insight.Ingestion.Service.{ingest, same_key}
use document_insight.Ingestion.Registration.{object_key}
use document_insight.Ingestion.Outcome.{
  Outcome, refused, unannounced, unmarked, stored, KeyIsFree, with_delivery, ingest-Outcome,
  Registered, registered,
}

-- the tables, the objects and the queue that a failed upload leaves
abbrev pub Untouched : System → System → Type 0
Untouched s s' = (s'.durable ≡ s.durable) × (s'.objects ≡ s.objects) × (s'.queue ≡ s.queue)

-- The job of the upload is stored, and every recovery query finds it.
abbrev pub Recoverable : ℕ → Jobs → Type 0
Recoverable job_id jobs =
    (job : JobRow) × (earlier : Jobs) × (jobs ≡ earlier ++ job ∷ [])
    × (job.id ≡ job_id)
    × ((now stale_before max_attempts : ℕ) → recoverable now stale_before max_attempts job ≡ true)

module _ (service : IngestionService) (command : IngestDocumentCommand) (s : System)
    (clean : s.durable ≡ s.working) (free : KeyIsFree service command s)
    (deletes : service.deletes ≡ true) where
  kept :
      (r : Registered service command s)
      → Recoverable service.job_id (registered service command s r).durable.jobs
  unfolding Repository.create Repository.new_row recoverable
  kept r = (_, r.placed.jobs, refl, refl, λ now stale_before max_attempts. refl)

  abbrev Compensated : IngestionError → System → Type 0
  Compensated e s' =
      Untouched s s'
      ⊎ ((e ≡ queue_unavailable)
          × (s'.queue ≡ s.queue)
          × Recoverable service.job_id s'.durable.jobs)
      ⊎ ((e ≡ database_error)
          × (s'.queue ≡ with_delivery service command s)
          × Recoverable service.job_id s'.durable.jobs)

  compensated :
      (x : Result IngestionError IngestionResult × System)
      → Outcome service command s x
      → (e : IngestionError) (s' : System) → x ≡ (err e, s')
      → Compensated e s'
  compensated _ (refused e0 s0 durable objects queue) e s' h = inl (
    ap (λ q. q.1.durable) (sym h) ∙ durable clean,
    ap (λ q. q.1.objects) (sym h) ∙ objects free deletes,
    ap (λ q. q.1.queue) (sym h) ∙ queue,
  )
  compensated _ (unannounced r) e s' h = inr (
      inl (
        cc h,
        ap (λ q. q.1.queue) (sym h),
        subst (λ q. Recoverable service.job_id q.1.durable.jobs) h (kept r),
      ))
  compensated _ (unmarked r) e s' h = inr (
      inr (
        cc h,
        ap (λ q. q.1.queue) (sym h),
        subst (λ q. Recoverable service.job_id q.1.durable.jobs) h (kept r),
      ))
  compensated _ (stored r) e s' h = cc

-- An upload that fails, outside a transaction, with no uncommitted writes, with nothing stored under
-- its new key and with an object store that lets go of what it took, leaves the database, the objects
-- and the queue as they were; or else the queue refused it, or took it and the database then refused
-- the mark of the publication, and in both cases its job is stored and every recovery query takes it
-- up.
pub ingest-compensates :
    (service : IngestionService) (command : IngestDocumentCommand) (s : System)
    → s.in_transaction ≡ false
    → s.durable ≡ s.working
    → ((m : MediaType) → All (λ o. same_key (object_key service command m) o ≡ false) s.objects)
    → service.deletes ≡ true
    → (e : IngestionError) (s' : System) → ingest service command s ≡ (err e, s')
    → ((s'.durable ≡ s.durable) × (s'.objects ≡ s.objects) × (s'.queue ≡ s.queue))
      ⊎ ((e ≡ queue_unavailable)
          × (s'.queue ≡ s.queue)
          × Recoverable service.job_id s'.durable.jobs)
      ⊎ ((e ≡ database_error)
          × (s'.queue
              ≡ s.queue
                ++ record {
                  job_id = service.job_id;
                  correlation_id = command.correlation_id;
                  not_before = none;
                }
                  ∷ [])
          × Recoverable service.job_id s'.durable.jobs)
ingest-compensates service command s idle clean free deletes e s' h =
    compensated service command s clean free deletes (ingest service command s)
      (ingest-Outcome service command s idle) e s' h
