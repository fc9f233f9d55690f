-- ===== src/Job/Model.antt =====
-- A row of `processing_jobs` (infrastructure/job/model.py) and what the repository hands out
-- (application/jobs/models.py). UUIDs are numbers that are only compared, a `datetime` is a number
-- of hundredths of a second, and NULL is `none`.
use Prim.Native.String.{String}
use document_insight.Prelude.{ℕ, Bool, true, false, Option, some, List}

pub data JobStatus : Type 0 where
  queued processing ready failed cancelled : JobStatus

abbrev pub is_queued : JobStatus → Bool
is_queued queued = true
is_queued _ = false

abbrev pub is_processing : JobStatus → Bool
is_processing processing = true
is_processing _ = false

abbrev pub is_failed : JobStatus → Bool
is_failed failed = true
is_failed _ = false

-- the four values of the check constraint on `error_category`
pub data ErrorCategory : Type 0 where
  transient permanent timeout configuration : ErrorCategory

-- `error_category == "transient"`, which is not true of NULL
abbrev pub is_transient : Option ErrorCategory → Bool
is_transient (some transient) = true
is_transient _ = false

pub record JobRow : Type 0 where
  pub id : ℕ
  pub tenant_id : ℕ
  pub document_version_id : ℕ
  pub ingestion_profile_id : Option ℕ
  pub index_generation_id : Option ℕ
  pub idempotency_key : ℕ
  pub correlation_id : ℕ
  pub status : JobStatus
  pub attempt_count : ℕ
  pub error_code : Option String
  pub error_category : Option ErrorCategory
  pub failure_reason : Option String
  pub last_attempt_at : Option ℕ
  pub next_retry_at : Option ℕ
  pub created_by : ℕ
  pub enqueued_at : Option ℕ
  pub started_at : Option ℕ
  pub finished_at : Option ℕ
  pub created_at : ℕ
  pub updated_at : ℕ

abbrev pub Jobs : Type 0
Jobs = List JobRow

pub record CreateJob : Type 0 where
  pub job_id : ℕ
  pub tenant_id : ℕ
  pub document_version_id : ℕ
  pub idempotency_key : ℕ
  pub correlation_id : ℕ
  pub created_by : ℕ
  pub ingestion_profile_id : ℕ
  pub index_generation_id : ℕ

pub record JobRecord : Type 0 where
  pub job_id : ℕ
  pub tenant_id : ℕ
  pub document_version_id : ℕ
  pub status : JobStatus
  pub attempt_count : ℕ
  pub created_at : ℕ
  pub updated_at : ℕ
  pub error_code : Option String
  pub error_category : Option ErrorCategory
  pub failure_reason : Option String
  pub last_attempt_at : Option ℕ
  pub next_retry_at : Option ℕ

pub record ProcessingJob : Type 0 where
  pub job_id : ℕ
  pub tenant_id : ℕ
  pub document_version_id : ℕ
  pub correlation_id : ℕ
  pub ingestion_profile_id : Option ℕ
  pub index_generation_id : Option ℕ
  pub attempt_count : ℕ

pub record RequeueJob : Type 0 where
  pub job_id : ℕ
  pub correlation_id : ℕ
  pub document_version_id : ℕ
