-- ===== src/Recovery/Reconciler.antt =====
-- `ProcessingJobReconciler` (application/processing/reconciliation.py). Metrics and logs are left out.
use document_insight.Prelude.{
  ℕ, ◌+◌, ◌-◌, ◌*◌, Bool, Option, none, some, List, [], ◌∷◌, ◌++◌, length, if◌then◌else◌,
}
use document_insight.Job.Model.{RequeueJob}
use document_insight.Job.Repository.{mark_enqueued}
use document_insight.Job.Requeue.{
  fail_stale_exhausted, list_requeue_candidates, prepare_for_requeue,
}
use document_insight.Store.Versions.{Versions, mark_failed}
use document_insight.Store.System.{QueueEntry, Action, pure, query, execute, effect, ◌>>=◌, ◌>>◌}
use document_insight.Processing.Failures.{Failure}
use document_insight.Processing.Retry.{RetryConfig}
use document_insight.Processing.Stages.Blocks.{begin}

-- One pass: the time, the retry settings, the batch size, and which publications Redis takes.
pub record Pass : Type 0 where
  pub current_time : ℕ
  pub retry_config : RetryConfig
  pub batch_size : ℕ
  pub queue_accepts : ℕ → Bool

-- `ReconciliationResult`
pub record ReconciliationResult : Type 0 where
  pub requeued_count : ℕ
  pub exhausted_count : ℕ

-- A time counts hundredths of a second, and the clock starts long after the first ten minutes.
unfoldable pub stale_before : Pass → ℕ
stale_before p = p.current_time - p.retry_config.stale_threshold_minutes * 6000

unfoldable pub mark_all_failed : List ℕ → Versions → Versions
mark_all_failed [] versions = versions
mark_all_failed (id ∷ ids) versions = mark_all_failed ids (mark_failed id versions)

abbrev pub expire : Pass → Action Failure (List ℕ)
expire p = do
  exhausted ← query (λ d.
      (fail_stale_exhausted p.current_time (stale_before p) p.retry_config.max_attempts
        p.current_time d.jobs).0)
  execute (λ d. record d {
    jobs =
        (fail_stale_exhausted p.current_time (stale_before p) p.retry_config.max_attempts
          p.current_time d.jobs).1;
  })
  execute (λ d. record d { versions = mark_all_failed exhausted d.versions })
  pure exhausted

abbrev pub list_candidates : Pass → Action Failure (List RequeueJob)
list_candidates p = query (λ d.
    list_requeue_candidates p.current_time (stale_before p) p.retry_config.max_attempts p.batch_size
      d.jobs)

abbrev pub prepare : Pass → ℕ → Action Failure (Option RequeueJob)
prepare p job_id = do
  recovered ← query (λ d.
      (prepare_for_requeue job_id p.current_time (stale_before p) p.retry_config.max_attempts
        p.current_time d.jobs).0)
  execute (λ d. record d {
    jobs =
        (prepare_for_requeue job_id p.current_time (stale_before p) p.retry_config.max_attempts
          p.current_time d.jobs).1;
  })
  pure recovered

abbrev pub entry_of : RequeueJob → QueueEntry
entry_of job = record {
  job_id = job.job_id;
  correlation_id = job.correlation_id;
  not_before = none;
}

-- what the loop does with one candidate, counted
abbrev pub republish : Pass → Option RequeueJob → Action Failure ℕ
republish p none = pure 0
republish p (some job) =
    if p.queue_accepts job.job_id
    then (effect (λ s. record s { queue = s.queue ++ entry_of job ∷ [] })
        >> begin (
            execute (λ d. record d {
              jobs = mark_enqueued job.job_id p.current_time p.current_time d.jobs;
            }))
        >> pure 1)
    else pure 0

unfoldable pub recover_all : Pass → List RequeueJob → Action Failure ℕ
recover_all p [] = pure 0
recover_all p (candidate ∷ candidates) = do
  recovered ← begin (prepare p candidate.job_id)
  n ← republish p recovered
  m ← recover_all p candidates
  pure (n + m)

abbrev pub first_block : Pass → Action Failure (List ℕ × List RequeueJob)
first_block p = do
  exhausted ← expire p
  candidates ← list_candidates p
  pure (exhausted, candidates)

unfoldable pub reconcile : Pass → Action Failure ReconciliationResult
reconcile p = do
  found ← begin (first_block p)
  requeued ← recover_all p found.1
  pure (record { requeued_count = requeued; exhausted_count = length found.0 })
