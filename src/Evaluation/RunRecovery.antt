-- ===== src/Evaluation/RunRecovery.antt =====
-- Claims of evaluation runs, and one turn of the evaluation reconciler
-- (infrastructure/evaluation_run/repository.py, worker/evaluation_reconciler.py).
use mathlib.Core.Path.{subst}
use document_insight.Prelude.{
  ℕ, ◌-◌, ◌≡◌, ◌≢◌, ◌⊎◌, refl, ap, sym, Bool, true, false, ◌||◌, List, [], ◌∷◌, ◌==◌, ==_refl, some,
  none, arith, any, count_if, first_where, update_where, update_where-none, first_where-update_none,
  All, All-imp, Bool-cases, inl, inr, if◌then◌else◌,
}
use document_insight.Evaluation.RunTable.{
  pending, running, is_pending, RunRow, Runs, pending_with, started, claim_pending,
  list_pending_ids, mark_enqueued, is_before, is_stale, stopped, fail_stale_running,
  publish_pending, repair,
}
use document_insight.Evaluation.RunLifecycle.{
  Steps, stay, next, enqueued, expired, IsTimed, Steps-keep,
}

count_if-none :
    {A : Type 0} (test : A → Bool) (xs : List A) → first_where test xs ≡ none → count_if test xs ≡ 0
count_if-none test [] e = refl
count_if-none test (x ∷ xs) e = elim (Bool-cases (test x)) [
  | inl t ↦ cc (t, e)
  | inr t ↦ rw t (count_if-none test xs (rw t at e))
]

-- A run is claimed once: a claim that follows a claim of the same run is refused and changes
-- nothing, so that a second delivery of the run does not execute it again.
pub claim_pending-again :
    (run_id now later : ℕ) (runs : Runs)
    → claim_pending run_id later (claim_pending run_id now runs).1
      ≡ (false, (claim_pending run_id now runs).1)
unfolding claim_pending
claim_pending-again run_id now later runs =
    let claimed = update_where (pending_with run_id) (started now) runs in
    let gone =
      first_where-update_none (pending_with run_id) (pending_with run_id) (started now)
        (λ run. ground arith) runs in
    rw (
      count_if-none (pending_with run_id) claimed gone,
      update_where-none (pending_with run_id) (started later) claimed gone,
    )

All-updated :
    (P Q : RunRow → Type 0) (test : RunRow → Bool) (change : RunRow → RunRow)
    → ((run : RunRow) → P run → Q (if test run then change run else run))
    → (runs : Runs) → All P runs
    → All Q (update_where test change runs)
All-updated P Q test change gives [] h = tt
All-updated P Q test change gives (run ∷ runs) h =
    (gives run h.0, All-updated P Q test change gives runs h.1)

-- A pending run is marked as published, or among those still to be.
abbrev Due : ℕ → List ℕ → RunRow → Type 0
Due now ids run =
    run.status ≡ pending → (run.enqueued_at ≡ some now) ⊎ (any (λ id. id == run.id) ids ≡ true)

publish_pending-Steps :
    (accepts : ℕ → Bool) (now : ℕ) (ids : List ℕ) {start runs : Runs}
    → Steps start runs
    → Steps start (publish_pending accepts now ids runs).1
unfolding publish_pending
publish_pending-Steps accepts now [] r = r
publish_pending-Steps accepts now (id ∷ ids) {start} {runs} r = elim (Bool-cases (accepts id)) [
  | inl e ↦ rw e (publish_pending-Steps accepts now ids (next r (enqueued id now runs)))
  | inr e ↦ rw e r
]

-- A turn is a sequence of the table's calls.
pub repair-Steps :
    (accepts : ℕ → Bool) (now : ℕ) (runs : Runs) → Steps runs (repair accepts now runs).1
unfolding repair
repair-Steps accepts now runs =
    next (publish_pending-Steps accepts now (list_pending_ids runs) stay)
      (expired (now - 720000) now _)

publish_pending_complete :
    (accepts : ℕ → Bool) (now : ℕ)
    → ((id : ℕ) → accepts id ≡ true)
    → (ids : List ℕ) (runs : Runs) → All (Due now ids) runs
    → ((publish_pending accepts now ids runs).0 ≡ ids)
      × All (Due now []) (publish_pending accepts now ids runs).1
unfolding publish_pending mark_enqueued
publish_pending_complete accepts now takes [] runs h = (refl, h)
publish_pending_complete accepts now takes (id ∷ ids) runs h =
    let rest = publish_pending_complete accepts now takes ids (mark_enqueued id now runs) (
      All-updated (Due now (id ∷ ids)) (Due now ids) (pending_with id) _
        (λ run due. ground (arith, due)) runs h) in
    rw (takes id) (ap (λ xs. id ∷ xs) rest.0, rest.1)

or_true : (b : Bool) → (b || true) ≡ true
or_true true = refl
or_true false = refl

list_pending_ids-pending :
    (run : RunRow) (runs : Runs)
    → is_pending run.status ≡ true
    → list_pending_ids (run ∷ runs) ≡ run.id ∷ list_pending_ids runs
unfolding list_pending_ids
list_pending_ids-pending run runs e = rw e

list_pending_ids-other :
    (run : RunRow) (runs : Runs)
    → is_pending run.status ≡ false
    → list_pending_ids (run ∷ runs) ≡ list_pending_ids runs
unfolding list_pending_ids
list_pending_ids-other run runs e = rw e

Due-cons : (now id : ℕ) (ids : List ℕ) (run : RunRow) → Due now ids run → Due now (id ∷ ids) run
Due-cons now id ids run due p = elim (due p) [
  | inl q ↦ inl q
  | inr m ↦ inr (rw m (or_true (id == run.id)))
]

list_pending_ids-Due : (now : ℕ) (runs : Runs) → All (Due now (list_pending_ids runs)) runs
list_pending_ids-Due now [] = tt
list_pending_ids-Due now (run ∷ runs) =
    let ids = list_pending_ids runs in
    let rest = list_pending_ids-Due now runs in
    elim (Bool-cases (is_pending run.status)) [
      | inl e ↦
          subst (λ all. All (Due now all) (run ∷ runs)) (sym (list_pending_ids-pending run runs e))
            (
              λ p. inr (rw (==_refl run.id)),
              All-imp (Due now ids) (Due now (run.id ∷ ids)) (Due-cons now run.id ids) runs rest,
            )
      | inr e ↦
          subst (λ all. All (Due now all) (run ∷ runs)) (sym (list_pending_ids-other run runs e))
            (λ p. ground (arith, e, p), rest)
    ]

-- One turn over a table that the calls have made, when the queue takes every run: it publishes each
-- pending run in the order of the table, then each pending run is marked as published at the time of the
-- turn, and each run still in the running state has shown a sign of life in the two hours before.
pub repair_complete :
    (accepts : ℕ → Bool) (now : ℕ) (runs : Runs)
    → ((id : ℕ) → accepts id ≡ true)
    → Steps [] runs
    → ((repair accepts now runs).0 ≡ list_pending_ids runs)
      × All (λ run. run.status ≡ pending → run.enqueued_at ≡ some now) (repair accepts now runs).1
      × All
          (λ run.
            run.status ≡ running
            → (run.heartbeat_at ≢ none) × (is_before run.heartbeat_at (now - 720000) ≡ false))
          (repair accepts now runs).1
unfolding repair fail_stale_running
repair_complete accepts now runs takes r =
    let ids = list_pending_ids runs in
    let done =
      publish_pending_complete accepts now takes ids runs (list_pending_ids-Due now runs) in
    let timed = Steps-keep (publish_pending-Steps accepts now ids r) tt in
    (
      done.0,
      All-updated (Due now []) _ (is_stale (now - 720000)) (stopped now)
          (λ run due. ground (arith, due)) _ done.1,
      All-updated IsTimed _ (is_stale (now - 720000)) (stopped now)
          (λ run t. ground (arith, t.alive)) _ timed,
    )
