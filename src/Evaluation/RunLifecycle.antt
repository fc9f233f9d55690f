-- ===== src/Evaluation/RunLifecycle.antt =====
-- The table of evaluation runs under every call that the services make: claims, and what a row can
-- become (application/evaluation/service.py, runner.py, worker/evaluation_reconciler.py).
use Prim.Native.String.{String}
use document_insight.Prelude.{
  ℕ, ◌≡◌, ◌≢◌, true, false, none, some, [], ◌∷◌, arith, All, All-update_where, All-append,
}
use document_insight.Evaluation.RunTable.{
  pending, running, completed, failed, is_final, RunRow, Runs, create_run, pending_with,
  running_with, started, claim_pending, mark_enqueued, touch_heartbeat, is_stale, stopped,
  fail_stale_running, updatable, update_run_status,
}

-- what `launch_run` gives a new row
pub record IsLaunched (run : RunRow) : Type 0 where
  pub is_pending : run.status ≡ pending
  pub not_started : run.started_at ≡ none
  pub not_completed : run.completed_at ≡ none
  pub no_error : run.error_message ≡ none
  pub not_enqueued : run.enqueued_at ≡ none
  pub no_heartbeat : run.heartbeat_at ≡ none

-- One call of the table, with the arguments that the service, the runner and the reconciler pass.
pub data Step : Runs → Runs → Type 0 where
  launched : (run : RunRow) (runs : Runs) → IsLaunched run → Step runs (create_run run runs)
  claimed : (run_id now : ℕ) (runs : Runs) → Step runs (claim_pending run_id now runs).1
  enqueued : (run_id now : ℕ) (runs : Runs) → Step runs (mark_enqueued run_id now runs)
  beaten : (run_id now : ℕ) (runs : Runs) → Step runs (touch_heartbeat run_id now runs)
  expired :
      (stale_before now : ℕ) (runs : Runs) → Step runs (fail_stale_running stale_before now runs).1
  finished :
      (run_id now : ℕ) (runs : Runs)
      → Step runs (update_run_status run_id completed none (some now) none runs)
  broken :
      (run_id now : ℕ) (message : String) (runs : Runs)
      → Step runs (update_run_status run_id failed none (some now) (some message) runs)

-- any number of calls
pub data Steps : Runs → Runs → Type 0 where
  stay : {runs : Runs} → Steps runs runs
  next : {runs runs' runs'' : Runs} → Steps runs runs' → Step runs' runs'' → Steps runs runs''

pub record IsTimed (run : RunRow) : Type 0 where
  pub idle : run.status ≡ pending → (run.started_at ≡ none) × (run.heartbeat_at ≡ none)
  pub alive : run.status ≡ running → (run.started_at ≢ none) × (run.heartbeat_at ≢ none)
  pub unfinished :
      is_final run.status ≡ false → (run.completed_at ≡ none) × (run.error_message ≡ none)
  pub ended : is_final run.status ≡ true → run.completed_at ≢ none
  pub successful : run.status ≡ completed → run.error_message ≡ none
  pub unsuccessful : run.status ≡ failed → run.error_message ≢ none

Step-IsTimed : {runs runs' : Runs} → Step runs runs' → All IsTimed runs → All IsTimed runs'
unfolding create_run claim_pending mark_enqueued touch_heartbeat fail_stale_running
    update_run_status
Step-IsTimed (launched run runs new) h =
    All-append IsTimed runs (run ∷ []) h (ground (arith, new), tt)
Step-IsTimed (claimed run_id now runs) h =
    All-update_where IsTimed (pending_with run_id) (started now) (λ run e s. ground arith) runs h
Step-IsTimed (enqueued run_id now runs) h =
    All-update_where IsTimed (pending_with run_id) _ (λ run e s. ground arith) runs h
Step-IsTimed (beaten run_id now runs) h =
    All-update_where IsTimed (running_with run_id) _ (λ run e s. ground arith) runs h
Step-IsTimed (expired stale_before now runs) h =
    All-update_where IsTimed (is_stale stale_before) (stopped now) (λ run e s. ground arith) runs h
Step-IsTimed (finished run_id now runs) h =
    All-update_where IsTimed (updatable run_id completed) _ (λ run e s. ground arith) runs h
Step-IsTimed (broken run_id now message runs) h =
    All-update_where IsTimed (updatable run_id failed) _ (λ run e s. ground arith) runs h

pub Steps-keep : {runs runs' : Runs} → Steps runs runs' → All IsTimed runs → All IsTimed runs'
Steps-keep stay h = h
Steps-keep (next r s) h = Step-IsTimed s (Steps-keep r h)

-- In every table that the calls can make of an empty one: a pending run has neither a start nor a
-- heartbeat, a running one has both, neither has an end or an error, a finished run has an end, a
-- completed one no error and a failed one an error.
pub Steps-IsTimed : {runs : Runs} → Steps [] runs → All IsTimed runs
Steps-IsTimed r = Steps-keep r tt
