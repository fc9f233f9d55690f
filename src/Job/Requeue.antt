-- ===== src/Job/Requeue.antt =====
-- The recovery queries of `SqlAlchemyJobRepository`: candidates, recovery claims, exhausted jobs.
use mathlib.Core.Option
use document_insight.Prelude.{
  ℕ, Bool, true, false, ◌&&◌, ◌||◌, Option, none, some, List, [], ◌∷◌, map, ◌==◌, ltb, leb, take,
  first_where, update_where, keep_if, if◌then◌else◌,
}
use document_insight.Job.Model.{
  queued, failed, is_queued, is_processing, is_failed, is_transient, permanent, JobRow, Jobs,
  RequeueJob,
}

abbrev pub is_none : Option ℕ → Bool
is_none none = true
is_none (some _) = false

-- `column <= bound`, which is not true of NULL
abbrev pub at_most : Option ℕ → ℕ → Bool
at_most none bound = false
at_most (some t) bound = leb t bound

-- the `recoverable` clause, which two queries share
unfoldable pub recoverable : ℕ → ℕ → ℕ → JobRow → Bool
recoverable now stale_before max_attempts job =
    (is_queued job.status
      && (is_none job.enqueued_at
          || at_most job.next_retry_at now
          || at_most job.enqueued_at stale_before))
    || (is_processing job.status
        && at_most job.started_at stale_before
        && ltb job.attempt_count max_attempts)
    || (is_failed job.status
        && is_transient job.error_category
        && ltb job.attempt_count max_attempts)

unfoldable pub to_requeue : JobRow → RequeueJob
to_requeue row = record {
  job_id = row.id;
  correlation_id = row.correlation_id;
  document_version_id = row.document_version_id;
}

-- `ORDER BY created_at`: SQL leaves the order of ties open, and this keeps the table's.
unfoldable pub insert_by_age : JobRow → Jobs → Jobs
insert_by_age job [] = job ∷ []
insert_by_age job (other ∷ jobs) =
    if leb job.created_at other.created_at
    then job ∷ other ∷ jobs
    else other ∷ insert_by_age job jobs

unfoldable pub order_by_age : Jobs → Jobs
order_by_age [] = []
order_by_age (job ∷ jobs) = insert_by_age job (order_by_age jobs)

unfoldable pub list_requeue_candidates : ℕ → ℕ → ℕ → ℕ → Jobs → List RequeueJob
unfolding recoverable to_requeue order_by_age insert_by_age
list_requeue_candidates now stale_before max_attempts limit jobs =
    map to_requeue
      (take limit (order_by_age (keep_if (recoverable now stale_before max_attempts) jobs)))

abbrev pub prepared : ℕ → JobRow → JobRow
prepared at job = record job {
  status = queued;
  enqueued_at = none;
  next_retry_at = none;
  finished_at = none;
  updated_at = at;
}

abbrev pub preparable : ℕ → ℕ → ℕ → ℕ → JobRow → Bool
preparable job_id now stale_before max_attempts job =
    (job.id == job_id) && recoverable now stale_before max_attempts job

unfoldable pub prepare_for_requeue : ℕ → ℕ → ℕ → ℕ → ℕ → Jobs → Option RequeueJob × Jobs
unfolding recoverable to_requeue
prepare_for_requeue job_id now stale_before max_attempts at jobs =
    let test = preparable job_id now stale_before max_attempts in
    (Option.map to_requeue (first_where test jobs), update_where test (prepared at) jobs)

-- the WHERE clause of `fail_stale_exhausted`
abbrev pub exhausted : ℕ → ℕ → JobRow → Bool
exhausted stale_before max_attempts job =
    is_processing job.status
    && at_most job.started_at stale_before
    && leb max_attempts job.attempt_count

abbrev pub failed_exhausted : ℕ → ℕ → JobRow → JobRow
failed_exhausted now at job = record job {
  status = failed;
  error_code = some "max_attempts_reached";
  error_category = some permanent;
  failure_reason = some "stale_processing_exhausted";
  finished_at = some now;
  updated_at = at;
}

abbrev pub version_of : JobRow → ℕ
version_of job = job.document_version_id

-- the document versions of the jobs that are failed, and the table
unfoldable pub fail_stale_exhausted : ℕ → ℕ → ℕ → ℕ → Jobs → List ℕ × Jobs
fail_stale_exhausted now stale_before max_attempts at jobs =
    let test = exhausted stale_before max_attempts in
    (map version_of (keep_if test jobs), update_where test (failed_exhausted now at) jobs)
