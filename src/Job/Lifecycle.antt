-- ===== src/Job/Lifecycle.antt =====
-- The ledger under every operation of the program, as a step relation: what holds of each row that
-- the program can reach, and that no open job is ever out of reach of recovery.
use Prim.Native.String.{String}
use document_insight.Prelude.{
  ℕ, ◌≤◌, ◌≡◌, ◌≢◌, ◌⊎◌, true, false, ◌||◌, Option, none, some, [], ◌∷◌, arith, All, All-imp,
  All-update_where, All-append,
}
use document_insight.Job.Model.{
  JobStatus, queued, processing, ready, failed, cancelled, permanent, transient, JobRow, Jobs,
  CreateJob,
}
use document_insight.Job.Repository.{
  create, new_row, mark_enqueued, claim, claimable, claimed, has_id, fail, mark_ready, retry,
}
use document_insight.Job.Requeue.{
  prepare_for_requeue, preparable, prepared, recoverable, fail_stale_exhausted, exhausted,
  failed_exhausted,
}

-- One repository call, with the categories that the services pass: `fail` is called with
-- `permanent` (or its default, the same) and `retry` with `transient`.
pub data Step : Jobs → Jobs → Type 0 where
  created : (c : CreateJob) (now : ℕ) (jobs : Jobs) → Step jobs (create c now jobs)
  enqueued : (job_id t at : ℕ) (jobs : Jobs) → Step jobs (mark_enqueued job_id t at jobs)
  taken : (job_id t at : ℕ) (jobs : Jobs) → Step jobs (claim job_id t at jobs).1
  gave_up :
      (job_id : ℕ) (code : String) (t : ℕ) (reason : Option String) (at : ℕ) (jobs : Jobs)
      → Step jobs (fail job_id code t permanent reason at jobs)
  finished : (job_id t at : ℕ) (jobs : Jobs) → Step jobs (mark_ready job_id t at jobs)
  put_back :
      (job_id attempts next_retry_at now at : ℕ) (jobs : Jobs)
      → Step jobs (retry job_id attempts next_retry_at transient now at jobs)
  recovered :
      (job_id now stale_before max_attempts at : ℕ) (jobs : Jobs)
      → Step jobs (prepare_for_requeue job_id now stale_before max_attempts at jobs).1
  expired :
      (now stale_before max_attempts at : ℕ) (jobs : Jobs)
      → Step jobs (fail_stale_exhausted now stale_before max_attempts at jobs).1

pub data Reach : Jobs → Type 0 where
  empty : Reach []
  next : {jobs jobs' : Jobs} → Reach jobs → Step jobs jobs' → Reach jobs'

pub record IsSound (job : JobRow) : Type 0 where
  pub failed_for_good : job.status ≡ failed → job.error_category ≡ some permanent
  pub started : job.status ≡ processing → job.started_at ≢ none
  pub no_timer : job.status ≡ processing → job.next_retry_at ≡ none
  pub not_cancelled : job.status ≢ cancelled
  pub clean : job.status ≡ ready → job.error_code ≡ none

Step-IsSound : {jobs jobs' : Jobs} → Step jobs jobs' → All IsSound jobs → All IsSound jobs'
unfolding create new_row mark_enqueued claim fail mark_ready retry prepare_for_requeue
    fail_stale_exhausted
Step-IsSound (created c now jobs) h =
    All-append IsSound jobs (new_row c now ∷ []) h (ground arith, tt)
Step-IsSound (enqueued job_id t at jobs) h =
    All-update_where IsSound (has_id job_id) _ (λ job e s. ground arith) jobs h
Step-IsSound (taken job_id t at jobs) h =
    All-update_where IsSound (claimable job_id) (claimed t at) (λ job e s. ground arith) jobs h
Step-IsSound (gave_up job_id code t reason at jobs) h =
    All-update_where IsSound (has_id job_id) _ (λ job e s. ground arith) jobs h
Step-IsSound (finished job_id t at jobs) h =
    All-update_where IsSound (has_id job_id) _ (λ job e s. ground arith) jobs h
Step-IsSound (put_back job_id attempts next_retry_at now at jobs) h =
    All-update_where IsSound (has_id job_id) _ (λ job e s. ground arith) jobs h
Step-IsSound (recovered job_id now stale_before max_attempts at jobs) h =
    All-update_where IsSound (preparable job_id now stale_before max_attempts) (prepared at)
      (λ job e s. ground arith) jobs h
Step-IsSound (expired now stale_before max_attempts at jobs) h =
    All-update_where IsSound (exhausted stale_before max_attempts) (failed_exhausted now at)
      (λ job e s. ground arith) jobs h

-- In every reachable ledger a failed job has a permanent category, a job in processing has a start
-- time and no retry timer, a ready job has no error, and no job is cancelled.
pub Reach-IsSound : {jobs : Jobs} → Reach jobs → All IsSound jobs
Reach-IsSound empty = tt
Reach-IsSound (next r s) = Step-IsSound s (Reach-IsSound r)

-- Recovery never takes up a failed job, although its query has a branch for them: in a reachable
-- ledger no row passes it, whatever the times and the retry budget.
pub Reach-failed_closed :
    {jobs : Jobs}
    → Reach jobs
    → (now stale_before max_attempts : ℕ)
    → All (λ job. job.status ≡ failed → recoverable now stale_before max_attempts job ≡ false) jobs
unfolding recoverable
Reach-failed_closed {jobs} r now stale_before max_attempts =
    All-imp IsSound
      (λ job. job.status ≡ failed → recoverable now stale_before max_attempts job ≡ false)
      (λ job s e. ground (arith, s.failed_for_good e)) jobs (Reach-IsSound r)

-- The time at which an open job was last published or claimed.
abbrev pub last_seen : JobStatus → Option ℕ → Option ℕ → ℕ
last_seen queued (some t) _ = t
last_seen processing _ (some t) = t
last_seen _ _ _ = 0

-- No open job is lost: in a reachable ledger each queued or processing job passes one of the two
-- recovery queries as soon as the staleness bound has reached the time when it was last published
-- or claimed, whatever the retry budget; it is requeued, or failed for good.
pub Reach-open_recovered :
    {jobs : Jobs}
    → Reach jobs
    → (now stale_before max_attempts : ℕ)
    → All
        (λ job.
          (job.status ≡ queued) ⊎ (job.status ≡ processing)
          → last_seen job.status job.enqueued_at job.started_at ≤ stale_before
          → (recoverable now stale_before max_attempts job
              || exhausted stale_before max_attempts job)
            ≡ true)
        jobs
unfolding recoverable
Reach-open_recovered {jobs} r now stale_before max_attempts =
    All-imp IsSound _ (λ job s open_job seen. ground (arith, s.started)) jobs (Reach-IsSound r)
