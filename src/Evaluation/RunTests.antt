-- ===== src/Evaluation/RunTests.antt =====
-- The table of evaluation runs at concrete rows.
use document_insight.Prelude.{ℕ, ◌≡◌, ◌≢◌, refl, Bool, true, false, none, some, [], ◌∷◌, ◌-◌, All}
use document_insight.Codec.Json.{end}
use document_insight.Evaluation.RunTable.{
  pending, running, completed, RunRow, Runs, create_run, claim_pending, list_pending_ids,
  update_run_status, fail_stale_running, touch_heartbeat, is_before, repair, publish_pending,
}
use document_insight.Evaluation.RunLifecycle.{
  IsLaunched, launched, claimed, finished, Steps, stay, next,
}
use document_insight.Evaluation.RunHistory.{Evolves, Steps-Evolves}
use document_insight.Evaluation.RunRecovery.{repair_complete}

abbrev run_with : ℕ → RunRow
run_with run_id = record {
  id = run_id;
  suite_revision_id = 2;
  corpus_manifest = end;
  baseline_profile_ids = 10 ∷ [];
  candidate_profile_ids = 11 ∷ [];
  config_fingerprints = [];
  read_cohorts = [];
  candidate_component_profiles = none;
  evaluator_version = "1";
  k_values = 5 ∷ [];
  requester_id = 3;
  evaluation_mode = "query";
  status = pending;
  started_at = none;
  completed_at = none;
  error_message = none;
  comparison_valid = true;
  enqueued_at = none;
  heartbeat_at = none;
}

abbrev one_run : Runs
one_run = create_run (run_with 7) []

abbrev two_runs : Runs
two_runs = create_run (run_with 8) one_run

abbrev one_taken : Runs
one_taken = (claim_pending 7 1000 two_runs).1

abbrev run_with-IsLaunched : (run_id : ℕ) → IsLaunched (run_with run_id)
run_with-IsLaunched run_id = record {
  is_pending = refl;
  not_started = refl;
  not_completed = refl;
  no_error = refl;
  not_enqueued = refl;
  no_heartbeat = refl;
}

abbrev launched_all : Steps [] two_runs
launched_all =
    next (next stay (launched (run_with 7) [] (run_with-IsLaunched 7)))
      (launched (run_with 8) one_run (run_with-IsLaunched 8))

abbrev taken_one : Steps [] one_taken
taken_one = next launched_all (claimed 7 1000 two_runs)

abbrev takes_all : ℕ → Bool
takes_all run_id = true

Steps-Evolves_example :
    Evolves two_runs (update_run_status 7 completed none (some 3000) none one_taken)
Steps-Evolves_example =
    Steps-Evolves (next (next stay (claimed 7 1000 two_runs)) (finished 7 3000 one_taken))

repair_complete_example :
    let after = repair takes_all 900000 one_taken in
    (after.0 ≡ list_pending_ids one_taken)
    × All (λ run. run.status ≡ pending → run.enqueued_at ≡ some 900000) after.1
    × All
        (λ run.
          run.status ≡ running
          → (run.heartbeat_at ≢ none) × (is_before run.heartbeat_at (900000 - 720000) ≡ false))
        after.1
repair_complete_example = repair_complete takes_all 900000 one_taken (λ run_id. refl) taken_one

-- The first claim gets the run.
claim_test : (claim_pending 7 1000 two_runs).0 ≡ true
unfolding claim_pending create_run
claim_test = refl

-- The run of which nothing was heard for more than two hours is failed, the other published.
repair_test : (repair takes_all 900000 one_taken).0 ≡ 8 ∷ []
unfolding repair publish_pending list_pending_ids claim_pending create_run
repair_test = refl

stale_test : (fail_stale_running 180000 900000 one_taken).0 ≡ 7 ∷ []
unfolding fail_stale_running claim_pending create_run
stale_test = refl

-- A sign of life in time keeps it.
heartbeat_test : (fail_stale_running 180000 900000 (touch_heartbeat 7 200000 one_taken)).0 ≡ []
unfolding fail_stale_running touch_heartbeat claim_pending create_run
heartbeat_test = refl
