-- ===== src/Processing/Retry.antt =====
-- `RetryConfig` and `RetryCoordinator` (application/processing/retry.py). A duration is counted in
-- hundredths of a second; the multiplier is a whole number and the jitter factor a percentage, as
-- the defaults (2.0 and 0.25) are.
use Prim.Native.String.{String}
use document_insight.Prelude.{
  ℕ, ◌+◌, ◌-◌, ◌*◌, ◌^◌, Bool, true, false, Option, some, [], ◌∷◌, ◌++◌, min, ltb, if◌then◌else◌,
}
use document_insight.Job.Model.{ProcessingJob, permanent, transient}
use document_insight.Job.Repository
use document_insight.Processing.Failures.{
  Failure, parsing_error, unsupported_media_type, database_error, Outside,
}
use document_insight.Store.System.{
  System, QueueEntry, Database, Action, raise, execute, effect, ◌>>◌,
}

pub record RetryConfig : Type 0 where
  pub max_attempts : ℕ
  pub base_backoff_seconds : ℕ
  pub max_backoff_seconds : ℕ
  pub backoff_multiplier : ℕ
  pub jitter_percent : ℕ
  pub stale_threshold_minutes : ℕ

abbrev pub default_config : RetryConfig
default_config = record {
  max_attempts = 5;
  base_backoff_seconds = 2;
  max_backoff_seconds = 60;
  backoff_multiplier = 2;
  jitter_percent = 25;
  stale_threshold_minutes = 10;
}

-- the delay in seconds before the jitter
unfoldable pub base_delay : RetryConfig → ℕ → ℕ
base_delay c attempt =
    min c.max_backoff_seconds (c.base_backoff_seconds * c.backoff_multiplier ^ attempt)

-- `random.uniform(-range, range)` is `draw - range` for a `draw` from 0 to `2 * range`; the
-- subtraction that stops at 0 is the `max(0, …)` of the source.
unfoldable pub calculate_backoff : RetryConfig → ℕ → ℕ → ℕ
unfolding base_delay
calculate_backoff c attempt draw =
    let base = base_delay c attempt in
    let jitter_range = base * c.jitter_percent in base * 100 + draw - jitter_range

unfoldable pub is_retryable : RetryConfig → ℕ → Bool
is_retryable c attempt_count = ltb attempt_count c.max_attempts

pub data Category : Type 0 where
  permanent_error transient_error : Category

unfoldable pub classify_error : Failure → Category
classify_error parsing_error = permanent_error
classify_error unsupported_media_type = permanent_error
classify_error _ = transient_error

-- `re_enqueue_for_retry`: a refusal is logged and swallowed
abbrev pub re_enqueue : Bool → QueueEntry → System → System
re_enqueue true entry s = record s { queue = s.queue ++ entry ∷ [] }
re_enqueue false entry s = s

abbrev pub put_back : Outside → ProcessingJob → ℕ → ℕ → Database → Database
put_back o job attempt_count next_retry_at d = record d {
  jobs = Repository.retry job.job_id attempt_count next_retry_at transient o.now o.now d.jobs;
}

abbrev pub give_up : Outside → ProcessingJob → String → Option String → Database → Database
give_up o job error_code reason d = record d {
  jobs = Repository.fail job.job_id error_code o.now permanent reason o.now d.jobs;
}

abbrev pub retry_at : RetryConfig → Outside → ℕ → ℕ
retry_at c o attempt_count = o.now + calculate_backoff c attempt_count o.jitter

-- a handler's write, which the database carries out or refuses
abbrev pub write_if : Bool → (Database → Database) → Action Failure (Unit {0})
write_if true f = execute f
write_if false f = raise database_error

-- The writes stand in no `begin()` block.
unfoldable pub record_transient_failure :
    RetryConfig → Outside → ProcessingJob → ℕ → Action Failure (Unit {0})
unfolding is_retryable calculate_backoff
record_transient_failure c o job attempt_count =
    if is_retryable c attempt_count
    then (write_if o.records (put_back o job (attempt_count + 1) (retry_at c o attempt_count))
        >> effect (
            re_enqueue o.queue_accepts (record {
              job_id = job.job_id;
              correlation_id = job.correlation_id;
              not_before = some (retry_at c o attempt_count);
            })))
    else write_if o.records (give_up o job "max_attempts_reached" (some "max_attempts_reached"))

unfoldable pub record_permanent_failure :
    Outside → ProcessingJob → String → String → Action Failure (Unit {0})
record_permanent_failure o job error_code reason =
    write_if o.records (give_up o job error_code (some reason))
