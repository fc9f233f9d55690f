-- ===== src/Evaluation/RunHistory.antt =====
-- How the rows of the run table develop, call by call: what is fixed at the launch, the order of the
-- states, and the end (infrastructure/evaluation_run/repository.py).
use document_insight.Prelude.{
  ℕ, ◌≤◌, ◌≡◌, ◌≢◌, ◌⊎◌, refl, sym, ◌∙◌, ap, Bool, none, true, [], ◌∷◌, ◌++◌, arith, update_where,
  Bool-cases, inl, inr,
}
use document_insight.Evaluation.RunTable.{
  RunStatus, pending, running, completed, failed, is_final, RunRow, Runs, create_run, pending_with,
  running_with, started, claim_pending, mark_enqueued, touch_heartbeat, is_stale, stopped,
  fail_stale_running, updatable, update_run_status,
}
use document_insight.Evaluation.RunLifecycle.{
  Step, launched, claimed, enqueued, beaten, expired, finished, broken, Steps, stay, next,
}

abbrev pub progress : RunStatus → ℕ
progress pending = 0
progress running = 1
progress completed = 2
progress failed = 2

-- A later state of the same run.
pub record Follows (old new : RunRow) : Type 0 where
  pub same_id : new.id ≡ old.id
  pub same_suite : new.suite_revision_id ≡ old.suite_revision_id
  pub same_corpus : new.corpus_manifest ≡ old.corpus_manifest
  pub same_baseline : new.baseline_profile_ids ≡ old.baseline_profile_ids
  pub same_candidate : new.candidate_profile_ids ≡ old.candidate_profile_ids
  pub same_fingerprints : new.config_fingerprints ≡ old.config_fingerprints
  pub same_cohorts : new.read_cohorts ≡ old.read_cohorts
  pub same_k_values : new.k_values ≡ old.k_values
  pub same_components : new.candidate_component_profiles ≡ old.candidate_component_profiles
  pub same_evaluator : new.evaluator_version ≡ old.evaluator_version
  pub same_requester : new.requester_id ≡ old.requester_id
  pub same_mode : new.evaluation_mode ≡ old.evaluation_mode
  pub same_validity : new.comparison_valid ≡ old.comparison_valid
  pub forward : progress old.status ≤ progress new.status
  -- A run that has left the pending state was started, and the time of its start stays.
  pub begun : old.status ≡ pending → 1 ≤ progress new.status → new.started_at ≢ none
  pub kept : 1 ≤ progress old.status → new.started_at ≡ old.started_at
  pub final : is_final old.status ≡ true → new ≡ old

-- Each row of the first table is at the same place in the second, in a later state.
abbrev pub Evolves : Runs → Runs → Type 0
Evolves [] new = Unit
Evolves (run ∷ runs) [] = ⊥
Evolves (run ∷ runs) (run' ∷ runs') = Follows run run' × Evolves runs runs'

Follows-refl : (run : RunRow) → Follows run run
Follows-refl run = record {
  same_id = refl;
  same_suite = refl;
  same_corpus = refl;
  same_baseline = refl;
  same_candidate = refl;
  same_fingerprints = refl;
  same_cohorts = refl;
  same_k_values = refl;
  same_components = refl;
  same_evaluator = refl;
  same_requester = refl;
  same_mode = refl;
  same_validity = refl;
  forward = omega arith;
  begun = λ e left. absurd (ground arith);
  kept = λ h. refl;
  final = λ e. refl;
}

status_cases : (status : RunStatus) → (status ≡ pending) ⊎ (1 ≤ progress status)
status_cases pending = inl refl
status_cases running = inr (omega arith)
status_cases completed = inr (omega arith)
status_cases failed = inr (omega arith)

started_by :
    {a b c : RunRow}
    → Follows a b
    → Follows b c
    → (b.status ≡ pending) ⊎ (1 ≤ progress b.status)
    → a.status ≡ pending
    → 1 ≤ progress c.status
    → c.started_at ≢ none
started_by f g (inl idle) e left = g.begun idle left
started_by f g (inr away) e left = λ h. f.begun e away (sym (g.kept away) ∙ h)

Follows-trans : (a b c : RunRow) → Follows a b → Follows b c → Follows a c
Follows-trans a b c f g = record {
  same_id = g.same_id ∙ f.same_id;
  same_suite = g.same_suite ∙ f.same_suite;
  same_corpus = g.same_corpus ∙ f.same_corpus;
  same_baseline = g.same_baseline ∙ f.same_baseline;
  same_candidate = g.same_candidate ∙ f.same_candidate;
  same_fingerprints = g.same_fingerprints ∙ f.same_fingerprints;
  same_cohorts = g.same_cohorts ∙ f.same_cohorts;
  same_k_values = g.same_k_values ∙ f.same_k_values;
  same_components = g.same_components ∙ f.same_components;
  same_evaluator = g.same_evaluator ∙ f.same_evaluator;
  same_requester = g.same_requester ∙ f.same_requester;
  same_mode = g.same_mode ∙ f.same_mode;
  same_validity = g.same_validity ∙ f.same_validity;
  forward = omega (arith, f.forward, g.forward);
  begun = λ e left. started_by f g (status_cases b.status) e left;
  kept = λ h. g.kept (omega (arith, h, f.forward)) ∙ f.kept h;
  final = λ e. g.final (ap (λ run. is_final run.status) (f.final e) ∙ e) ∙ f.final e;
}

Evolves-trans : (a b c : Runs) → Evolves a b → Evolves b c → Evolves a c
Evolves-trans [] b c f g = tt
Evolves-trans (x ∷ a) [] c f g = elim f [ ]
Evolves-trans (x ∷ a) (y ∷ b) [] f g = elim g [ ]
Evolves-trans (x ∷ a) (y ∷ b) (z ∷ c) f g =
    (Follows-trans x y z f.0 g.0, Evolves-trans a b c f.1 g.1)

Evolves-append : (runs more : Runs) → Evolves runs (runs ++ more)
Evolves-append [] more = tt
Evolves-append (run ∷ runs) more = (Follows-refl run, Evolves-append runs more)

Evolves-refl : (runs : Runs) → Evolves runs runs
Evolves-refl [] = tt
Evolves-refl (run ∷ runs) = (Follows-refl run, Evolves-refl runs)

Evolves-update_where :
    (test : RunRow → Bool) (change : RunRow → RunRow)
    → ((run : RunRow) → test run ≡ true → Follows run (change run))
    → (runs : Runs) → Evolves runs (update_where test change runs)
Evolves-update_where test change later [] = tt
Evolves-update_where test change later (run ∷ runs) = elim (Bool-cases (test run)) [
  | inl e ↦ rw e (later run e, Evolves-update_where test change later runs)
  | inr e ↦ rw e (Follows-refl run, Evolves-update_where test change later runs)
]

Step-Evolves : {runs runs' : Runs} → Step runs runs' → Evolves runs runs'
unfolding create_run claim_pending mark_enqueued touch_heartbeat fail_stale_running
    update_run_status
Step-Evolves (launched run runs new) = Evolves-append runs (run ∷ [])
Step-Evolves (claimed run_id now runs) =
    Evolves-update_where (pending_with run_id) (started now) (λ run e. ground arith) runs
Step-Evolves (enqueued run_id now runs) =
    Evolves-update_where (pending_with run_id) _ (λ run e. ground arith) runs
Step-Evolves (beaten run_id now runs) =
    Evolves-update_where (running_with run_id) _ (λ run e. ground arith) runs
Step-Evolves (expired stale_before now runs) =
    Evolves-update_where (is_stale stale_before) (stopped now) (λ run e. ground arith) runs
Step-Evolves (finished run_id now runs) =
    Evolves-update_where (updatable run_id completed) _ (λ run e. ground arith) runs
Step-Evolves (broken run_id now message runs) =
    Evolves-update_where (updatable run_id failed) _ (λ run e. ground arith) runs

-- Whatever calls are made of a table, each of its runs stays in it at its place, with all that its
-- launch fixed; its state never moves back in the order pending, running, completed or failed. A run
-- that was pending and is so no more has the time of its start, as a claim gives it, and this time
-- stays from there on. A completed or failed row never changes again.
pub Steps-Evolves : {runs runs' : Runs} → Steps runs runs' → Evolves runs runs'
Steps-Evolves {runs} stay = Evolves-refl runs
Steps-Evolves {runs} (next {runs' = middle} {runs'' = last} r s) =
    Evolves-trans runs middle last (Steps-Evolves r) (Step-Evolves s)
