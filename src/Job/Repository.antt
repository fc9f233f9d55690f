-- ===== src/Job/Repository.antt =====
-- `SqlAlchemyJobRepository` (infrastructure/job/repository.py), but for the requeue queries. Each
-- UPDATE takes the time `at` at which `updated_at` is set (its `onupdate`).
use Prim.Native.String.{String}
use mathlib.Core.Option
use document_insight.Prelude.{
  ℕ, ◌+◌, Bool, ◌&&◌, Option, none, some, [], ◌∷◌, ◌++◌, ◌==◌, first_where, update_where,
}
use document_insight.Job.Model.{
  queued, processing, ready, failed, is_queued, ErrorCategory, JobRow, Jobs, CreateJob, JobRecord,
  ProcessingJob,
}

-- `JobModel(…)` with the column defaults
unfoldable pub new_row : CreateJob → ℕ → JobRow
new_row command now = record {
  id = command.job_id;
  tenant_id = command.tenant_id;
  document_version_id = command.document_version_id;
  ingestion_profile_id = some command.ingestion_profile_id;
  index_generation_id = some command.index_generation_id;
  idempotency_key = command.idempotency_key;
  correlation_id = command.correlation_id;
  status = queued;
  attempt_count = 0;
  error_code = none;
  error_category = none;
  failure_reason = none;
  last_attempt_at = none;
  next_retry_at = none;
  created_by = command.created_by;
  enqueued_at = none;
  started_at = none;
  finished_at = none;
  created_at = now;
  updated_at = now;
}

unfoldable pub create : CreateJob → ℕ → Jobs → Jobs
unfolding new_row
create command now jobs = jobs ++ new_row command now ∷ []

unfoldable pub to_record : JobRow → JobRecord
to_record job = record {
  job_id = job.id;
  tenant_id = job.tenant_id;
  document_version_id = job.document_version_id;
  status = job.status;
  attempt_count = job.attempt_count;
  created_at = job.created_at;
  updated_at = job.updated_at;
  error_code = job.error_code;
  error_category = none;
  failure_reason = none;
  last_attempt_at = none;
  next_retry_at = none;
}

unfoldable pub get : ℕ → ℕ → Jobs → Option JobRecord
unfolding to_record
get job_id tenant_id jobs =
    Option.map to_record
      (first_where (λ job. (job.id == job_id) && (job.tenant_id == tenant_id)) jobs)

abbrev pub has_id : ℕ → JobRow → Bool
has_id job_id job = job.id == job_id

unfoldable pub mark_enqueued : ℕ → ℕ → ℕ → Jobs → Jobs
mark_enqueued job_id enqueued_at at =
    update_where (has_id job_id)
      (λ job. record job { enqueued_at = some enqueued_at; updated_at = at })

-- the WHERE clause of `claim`
abbrev pub claimable : ℕ → JobRow → Bool
claimable job_id job = (job.id == job_id) && is_queued job.status

abbrev pub claimed : ℕ → ℕ → JobRow → JobRow
claimed started_at at job = record job {
  status = processing;
  started_at = some started_at;
  next_retry_at = none;
  attempt_count = job.attempt_count + 1;
  updated_at = at;
}

unfoldable pub to_processing_job : JobRow → ProcessingJob
to_processing_job row = record {
  job_id = row.id;
  tenant_id = row.tenant_id;
  document_version_id = row.document_version_id;
  correlation_id = row.correlation_id;
  ingestion_profile_id = row.ingestion_profile_id;
  index_generation_id = row.index_generation_id;
  attempt_count = row.attempt_count;
}

-- `RETURNING` gives the row as the update leaves it; an id is a primary key.
unfoldable pub claim : ℕ → ℕ → ℕ → Jobs → Option ProcessingJob × Jobs
unfolding to_processing_job
claim job_id started_at at jobs = (
  Option.map (λ row. to_processing_job (claimed started_at at row))
      (first_where (claimable job_id) jobs),
  update_where (claimable job_id) (claimed started_at at) jobs,
)

unfoldable pub fail : ℕ → String → ℕ → ErrorCategory → Option String → ℕ → Jobs → Jobs
fail job_id error_code finished_at error_category failure_reason at =
    update_where (has_id job_id) (λ job. record job {
      status = failed;
      error_code = some error_code;
      finished_at = some finished_at;
      error_category = some error_category;
      failure_reason = failure_reason;
      updated_at = at;
    })

unfoldable pub mark_ready : ℕ → ℕ → ℕ → Jobs → Jobs
mark_ready job_id finished_at at = update_where (has_id job_id) (λ job. record job {
  status = ready;
  error_code = none;
  finished_at = some finished_at;
  updated_at = at;
})

-- `now` is the time that `retry` reads for `last_attempt_at`.
unfoldable pub retry : ℕ → ℕ → ℕ → ErrorCategory → ℕ → ℕ → Jobs → Jobs
retry job_id attempt_count next_retry_at error_category now at =
    update_where (has_id job_id) (λ job. record job {
      status = queued;
      attempt_count = attempt_count;
      error_category = some error_category;
      next_retry_at = some next_retry_at;
      last_attempt_at = some now;
      updated_at = at;
    })
