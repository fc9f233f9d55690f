-- ===== src/Library/JobView.antt =====
-- `JobService.get_job` (application/jobs/service.py).
use Prim.Native.String.{String}
use document_insight.Prelude.{ℕ, ◌||◌, Option, none, some, if◌then◌else◌}
use document_insight.Access.{AuthorizationContext, is_tenant_admin, intersects}
use document_insight.Job.Model.{JobStatus, JobRecord}
use document_insight.Job.Repository
use document_insight.Store.Versions
use document_insight.Store.Documents.{list_department_ids}
use document_insight.Store.System.{Database}

-- `Job` (application/jobs/models.py)
pub record Job : Type 0 where
  pub job_id : ℕ
  pub document_id : ℕ
  pub document_version_id : ℕ
  pub status : JobStatus
  pub attempt_count : ℕ
  pub created_at : ℕ
  pub updated_at : ℕ
  pub error_code : Option String

abbrev pub job_of : JobRecord → ℕ → Job
job_of job document_id = record {
  job_id = job.job_id;
  document_id = document_id;
  document_version_id = job.document_version_id;
  status = job.status;
  attempt_count = job.attempt_count;
  created_at = job.created_at;
  updated_at = job.updated_at;
  error_code = job.error_code;
}

-- the check of the document, and the answer
unfoldable pub view_job : JobRecord → Option ℕ → AuthorizationContext → Database → Option Job
view_job job none actor d = none
view_job job (some document_id) actor d =
    if is_tenant_admin actor.role
      || intersects (list_department_ids document_id actor.tenant_id d.assignments)
          actor.department_ids
    then some (job_of job document_id)
    else none

-- `none` is `JobNotFoundError`.
unfoldable pub get_job : ℕ → AuthorizationContext → Database → Option Job
unfolding view_job
get_job job_id actor d = elim (Repository.get job_id actor.tenant_id d.jobs) [
  | none ↦ none
  | some job ↦
      view_job job (Versions.get_document_id job.document_version_id actor.tenant_id d.versions)
        actor d
]
