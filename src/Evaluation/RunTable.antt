-- ===== src/Evaluation/RunTable.antt =====
-- The table of evaluation runs (infrastructure/evaluation_run/model.py, repository.py), and what
-- one turn of worker/evaluation_reconciler.py makes of it. The corpus manifest is its JSON, and
-- of the other JSON columns a dictionary is the list of its entries; a time's ISO form is the time.
use Prim.Native.String.{String}
use document_insight.Prelude.{
  ℕ, ◌-◌, Bool, true, false, not, order_by, ◌&&◌, Option, none, some, List, [], ◌∷◌, ◌++◌, ◌==◌,
  ltb, map, keep_if, count_if, first_where, update_where, if◌then◌else◌,
}
use document_insight.Codec.Json.{Fields}

pub data RunStatus : Type 0 where
  pending running completed failed : RunStatus

abbrev pub is_pending : RunStatus → Bool
is_pending pending = true
is_pending _ = false

abbrev pub is_running : RunStatus → Bool
is_running running = true
is_running _ = false

-- `status in (RunStatus.COMPLETED, RunStatus.FAILED)`
abbrev pub is_final : RunStatus → Bool
is_final completed = true
is_final failed = true
is_final _ = false

abbrev same_status : RunStatus → RunStatus → Bool
same_status pending pending = true
same_status running running = true
same_status completed completed = true
same_status failed failed = true
same_status _ _ = false

-- a row, and the record that the repository reads it as, but for the results of its cases, which
-- the repository leaves empty
pub record RunRow : Type 0 where
  pub id : ℕ
  pub suite_revision_id : ℕ
  pub corpus_manifest : Fields
  pub baseline_profile_ids : List ℕ
  pub candidate_profile_ids : List ℕ
  pub config_fingerprints : List (String × String)
  pub read_cohorts : List (String × List ℕ)
  pub candidate_component_profiles : Option (List (String × ℕ))
  pub evaluator_version : String
  pub k_values : List ℕ
  pub requester_id : ℕ
  pub evaluation_mode : String
  pub status : RunStatus
  pub started_at : Option ℕ
  pub completed_at : Option ℕ
  pub error_message : Option String
  pub comparison_valid : Bool
  pub enqueued_at : Option ℕ
  pub heartbeat_at : Option ℕ

abbrev pub Runs : Type 0
Runs = List RunRow

unfoldable pub create_run : RunRow → Runs → Runs
create_run run runs = runs ++ run ∷ []

unfoldable pub get_run : ℕ → Runs → Option RunRow
get_run run_id = first_where (λ run. run.id == run_id)

abbrev pub pending_with : ℕ → RunRow → Bool
pending_with run_id run = (run.id == run_id) && is_pending run.status

abbrev pub running_with : ℕ → RunRow → Bool
running_with run_id run = (run.id == run_id) && is_running run.status

abbrev pub started : ℕ → RunRow → RunRow
started started_at run = record run {
  status = running;
  started_at = some started_at;
  heartbeat_at = some started_at;
}

-- The result is whether the UPDATE counted one row.
unfoldable pub claim_pending : ℕ → ℕ → Runs → Bool × Runs
claim_pending run_id started_at runs = (
  count_if (pending_with run_id) runs == 1,
  update_where (pending_with run_id) (started started_at) runs,
)

unfoldable pub list_pending_ids : Runs → List ℕ
list_pending_ids runs = map (λ run. run.id) (keep_if (λ run. is_pending run.status) runs)

unfoldable pub mark_enqueued : ℕ → ℕ → Runs → Runs
mark_enqueued run_id enqueued_at =
    update_where (pending_with run_id) (λ run. record run { enqueued_at = some enqueued_at })

unfoldable pub touch_heartbeat : ℕ → ℕ → Runs → Runs
touch_heartbeat run_id at =
    update_where (running_with run_id) (λ run. record run { heartbeat_at = some at })

-- `heartbeat_at < stale_before`, false for NULL
abbrev pub is_before : Option ℕ → ℕ → Bool
is_before none bound = false
is_before (some at) bound = ltb at bound

abbrev pub is_stale : ℕ → RunRow → Bool
is_stale stale_before run = is_running run.status && is_before run.heartbeat_at stale_before

abbrev pub stopped : ℕ → RunRow → RunRow
stopped at run = record run {
  status = failed;
  completed_at = some at;
  error_message = some "Evaluation worker stopped before completion";
}

unfoldable pub fail_stale_running : ℕ → ℕ → Runs → List ℕ × Runs
fail_stale_running stale_before at runs = (
  map (λ run. run.id) (keep_if (is_stale stale_before) runs),
  update_where (is_stale stale_before) (stopped at) runs,
)

abbrev pub given_or {ℓ} : {A : Type ℓ} → Option A → Option A → Option A
given_or none old = old
given_or (some new) old = some new

-- the WHERE clause of `update_run_status`
abbrev pub updatable : ℕ → RunStatus → RunRow → Bool
updatable run_id status run =
    (run.id == run_id) && (if is_final status then is_running run.status else true)

unfoldable pub update_run_status : ℕ → RunStatus → Option ℕ → Option ℕ → Option String → Runs → Runs
update_run_status run_id status started_at completed_at error_message =
    update_where (updatable run_id status) (λ run. record run {
      status = status;
      started_at = given_or started_at run.started_at;
      completed_at = given_or completed_at run.completed_at;
      error_message = given_or error_message run.error_message;
    })

abbrev pub passes_filters : Option ℕ → Option RunStatus → RunRow → Bool
passes_filters suite status run = of_suite suite && with_status status
  where
    of_suite : Option ℕ → Bool
    of_suite none = true
    of_suite (some suite_revision_id) = run.suite_revision_id == suite_revision_id

    with_status : Option RunStatus → Bool
    with_status none = true
    with_status (some s) = same_status run.status s

-- in descending order, with NULL first
abbrev pub comes_after : Option ℕ → Option ℕ → Bool
comes_after none _ = false
comes_after (some _) none = true
comes_after (some a) (some b) = ltb a b

unfoldable pub list_runs : Option ℕ → Option RunStatus → Runs → Runs
unfolding order_by
list_runs suite_revision_id status runs =
    order_by (λ run other. not (comes_after run.started_at other.started_at))
      (keep_if (passes_filters suite_revision_id status) runs)

-- The loop over the pending runs, which a refused publication ends: the ids that the queue took,
-- and the table. Each mark is a transaction of its own.
unfoldable pub publish_pending : (ℕ → Bool) → ℕ → List ℕ → Runs → List ℕ × Runs
unfolding mark_enqueued
publish_pending accepts now [] runs = ([], runs)
publish_pending accepts now (id ∷ ids) runs =
    let later = publish_pending accepts now ids (mark_enqueued id now runs) in
    if accepts id then (id ∷ later.0, later.1) else ([], runs)

-- One turn: two hours are 720000 hundredths of a second.
unfoldable pub repair : (ℕ → Bool) → ℕ → Runs → List ℕ × Runs
unfolding publish_pending list_pending_ids fail_stale_running
repair accepts now runs =
    let published = publish_pending accepts now (list_pending_ids runs) runs in
    (published.0, (fail_stale_running (now - 720000) now published.1).1)
