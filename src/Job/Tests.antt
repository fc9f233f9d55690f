-- ===== src/Job/Tests.antt =====
-- The job ledger at concrete rows.
use document_insight.Prelude.{◌≡◌, refl, none, [], ◌∷◌, ◌||◌, ◌⊎◌, ◌≤◌, true, false, All}
use document_insight.Job.Model.{queued, processing, failed, Jobs, CreateJob}
use document_insight.Job.Repository.{create, claim}
use document_insight.Job.Requeue.{fail_stale_exhausted, recoverable, exhausted}
use document_insight.Job.Claims.{claim-claim}
use document_insight.Job.Lifecycle.{
  created, taken, Reach, empty, next, IsSound, Reach-IsSound, Reach-failed_closed,
  Reach-open_recovered, last_seen,
}

abbrev command : CreateJob
command = record {
  job_id = 7;
  tenant_id = 1;
  document_version_id = 20;
  idempotency_key = 30;
  correlation_id = 40;
  created_by = 2;
  ingestion_profile_id = 50;
  index_generation_id = 60;
}

abbrev published : Jobs
published = create command 100 []

abbrev running : Jobs
running = (claim 7 110 110 published).1

abbrev running_Reach : Reach running
running_Reach = next (next empty (created command 100 [])) (taken 7 110 110 published)

claim-claim_example : claim 7 120 120 running ≡ (none, running)
claim-claim_example = claim-claim 7 110 120 110 120 published

-- The running job of one attempt is past a budget of one.
exhausted_test : (fail_stale_exhausted 900 300 1 900 running).0 ≡ 20 ∷ []
unfolding fail_stale_exhausted claim create
exhausted_test = refl

Reach-IsSound_example : All IsSound running
Reach-IsSound_example = Reach-IsSound running_Reach

Reach-failed_closed_example :
    All (λ job. job.status ≡ failed → recoverable 900 300 5 job ≡ false) running
Reach-failed_closed_example = Reach-failed_closed running_Reach 900 300 5

Reach-open_recovered_example :
    All
      (λ job.
        (job.status ≡ queued) ⊎ (job.status ≡ processing)
        → last_seen job.status job.enqueued_at job.started_at ≤ 300
        → (recoverable 900 300 5 job || exhausted 300 5 job) ≡ true)
      running
Reach-open_recovered_example = Reach-open_recovered running_Reach 900 300 5
