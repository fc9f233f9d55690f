-- ===== src/Recovery/Tests.antt =====
-- A recovery pass over one job that was never published and one that ran out of attempts.
use document_insight.Prelude.{◌≡◌, refl, true, false, none, some, [], ◌∷◌, map, length, arith}
use document_insight.Job.Model.{JobStatus, JobRow}
use document_insight.Configuration.Profiles.{no_profiles}
use document_insight.Store.System.{Database, System, ok}
use document_insight.Processing.Retry.{default_config}
use document_insight.Job.Requeue.{
  fail_stale_exhausted, list_requeue_candidates, recoverable, order_by_age, insert_by_age,
  to_requeue,
}
use document_insight.Recovery.Reconciler.{
  stale_before, Pass, ReconciliationResult, reconcile, entry_of,
}
use document_insight.Recovery.Completeness.{reconcile_complete, listed, expired}

abbrev unpublished : JobRow
unpublished = record {
  id = 7;
  tenant_id = 1;
  document_version_id = 20;
  ingestion_profile_id = some 50;
  index_generation_id = some 60;
  idempotency_key = 30;
  correlation_id = 40;
  status = JobStatus.queued;
  attempt_count = 0;
  error_code = none;
  error_category = none;
  failure_reason = none;
  last_attempt_at = none;
  next_retry_at = none;
  created_by = 2;
  enqueued_at = none;
  started_at = none;
  finished_at = none;
  created_at = 100;
  updated_at = 100;
}

abbrev worn_out : JobRow
worn_out = record unpublished {
  id = 8;
  document_version_id = 21;
  status = JobStatus.processing;
  attempt_count = 5;
  enqueued_at = some 200;
  started_at = some 200;
}

abbrev database : Database
database = record {
  documents = [];
  departments = [];
  assignments = [];
  versions = [];
  jobs = worn_out ∷ unpublished ∷ [];
  extracted = [];
  entities = [];
  generations = [];
  chunks = [];
  embeddings = [];
  profiles = no_profiles;
  active_profiles = [];
}

abbrev at_rest : System
at_rest = record {
  durable = database;
  working = database;
  in_transaction = false;
  queue = [];
  objects = [];
}

abbrev pass : Pass
pass = record {
  current_time = 100000;
  retry_config = default_config;
  batch_size = 100;
  queue_accepts = λ id. true;
}

reconcile_complete_example :
    (result : ReconciliationResult) × (s' : System) × (reconcile pass at_rest ≡ (ok result, s'))
    × (result.exhausted_count ≡ length (expired pass at_rest.working.jobs))
    × (result.requeued_count ≡ length (listed pass at_rest.working.jobs))
    × (s'.queue ≡ map entry_of (listed pass at_rest.working.jobs))
    × (s'.in_transaction ≡ false)
reconcile_complete_example =
    reconcile_complete pass at_rest (λ id. refl) refl ((ground arith, tt), (tt, tt))

-- The pass publishes the first job and fails the second.
reconcile_test :
    (listed pass at_rest.working.jobs
      ≡ record { job_id = 7; correlation_id = 40; document_version_id = 20 } ∷ [])
    × (expired pass at_rest.working.jobs ≡ 21 ∷ [])
unfolding fail_stale_exhausted list_requeue_candidates recoverable order_by_age insert_by_age
    to_requeue stale_before
reconcile_test = (refl, refl)
