-- ===== src/Processing/Stages/Blocks.antt =====
-- `_fail` and `_complete` of `ProcessingService` (application/processing/service.py).
use Prim.Native.String.{String}
use document_insight.Prelude.{ℕ, none}
use document_insight.Job.Model.{ProcessingJob, permanent}
use document_insight.Job.Repository
use document_insight.Store.Versions
use document_insight.Store.Versions.{MediaType, pdf, png, jpeg, ProcessingDocumentVersion}
use document_insight.Store.Generations
use document_insight.Store.Generations.{IndexGeneration}
use document_insight.Store.System.{Action, execute, atomically, ◌>>◌}
use document_insight.Processing.Failures.{Failure, invalid_request, Outside}

abbrev pub begin : {A : Type 0} → Action Failure A → Action Failure A
begin = atomically invalid_request

-- `_fail`: the job with the default category, and the version, in one transaction
unfoldable pub fail_stage : Outside → ProcessingJob → ℕ → String → Action Failure (Unit {0})
fail_stage o job version_id error_code = begin (
    execute (λ d. record d {
      jobs = Repository.fail job.job_id error_code o.now permanent none o.now d.jobs;
    })
    >> execute (λ d. record d { versions = Versions.mark_failed version_id d.versions }))

-- `_complete`
unfoldable pub complete : Outside → ProcessingJob → ℕ → ℕ → Action Failure (Unit {0})
complete o job version_id index_generation_id = begin (
    execute (λ d. record d { versions = Versions.mark_ready version_id d.versions })
    >> execute
        (λ d. record d { generations = Generations.mark_ready index_generation_id d.generations })
    >> execute (λ d. record d { jobs = Repository.mark_ready job.job_id o.now o.now d.jobs }))
