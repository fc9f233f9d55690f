-- ===== src/Processing/Returns.antt =====
-- How `ProcessingService.process` ends: in a return or in an exception of the database.
use mathlib.Core.Path.{subst}
use document_insight.Prelude.{
  ℕ, ◌≡◌, ◌⊎◌, refl, sym, ap, inl, inr, Bool, true, false, Option, none, some, Bool-cases,
}
use document_insight.Job.Model.{ProcessingJob}
use document_insight.Job.Repository
use document_insight.Store.System.{
  Database, System, Result, ok, err, handle, end_block, bind_result,
}
use document_insight.Processing.Failures.{Failure, database_error, Outside}
use document_insight.Processing.Retry.{
  write_if, RetryConfig, default_config, record_transient_failure, record_permanent_failure,
  is_retryable, classify_error,
}
use document_insight.Processing.Stages.Embedding.{retry_job}
use document_insight.Processing.Service.{
  Opened, claim_job, opened, opened_if, not_claimed, no_version, missing, refused, resolved,
  open_job, open_claimed, run_opened, handle_failure, process, process_version,
}

-- The run returned, or the exception is the database's.
abbrev pub Returns : Outside → Result Failure (Unit {0}) → Type 0
Returns o r = (r ≡ ok tt) ⊎ ((r ≡ err database_error) × ((o.opens ≡ false) ⊎ (o.records ≡ false)))

write_if-Returns :
    (o : Outside) (f : Database → Database) (s : System) → Returns o (write_if o.records f s).0
write_if-Returns o f s = elim (Bool-cases o.records) [
  | inl t ↦ inl (rw t refl)
  | inr down ↦ inr (rw down refl, inr down)
]

transient-Returns :
    (c : RetryConfig) (o : Outside) (job : ProcessingJob) (n : ℕ) (s : System)
    → Returns o (record_transient_failure c o job n s).0
unfolding record_transient_failure
transient-Returns c o job n s = elim (Bool-cases (is_retryable c n)) [
  | inl e ↦ elim (Bool-cases o.records) [
    | inl t ↦ inl (rw (e, t) refl)
    | inr down ↦ inr (rw (e, down) refl, inr down)
  ]
  | inr e ↦ rw e (write_if-Returns o _ s)
]

handle_failure-Returns :
    (o : Outside) (job : ProcessingJob) (error : Failure) (s : System)
    → Returns o (handle_failure o job error s).0
unfolding handle_failure record_permanent_failure classify_error retry_job
handle_failure-Returns o job Failure.parsing_error s = write_if-Returns o _ s
handle_failure-Returns o job Failure.unsupported_media_type s = write_if-Returns o _ s
handle_failure-Returns o job _ s = transient-Returns default_config o job _ _

handled-Returns :
    (o : Outside) (job : ProcessingJob) (r : Result Failure (Unit {0}) × System)
    → Returns o (handle r (handle_failure o job)).0
handled-Returns o job (ok tt, s) = inl refl
handled-Returns o job (err e, s) = handle_failure-Returns o job e s

run_opened-Returns : (o : Outside) (x : Opened) (s : System) → Returns o (run_opened o x s).0
unfolding run_opened record_permanent_failure
run_opened-Returns o not_claimed s = inl refl
run_opened-Returns o no_version s = inl refl
run_opened-Returns o (opened job version text ner_complete missing) s = write_if-Returns o _ s
run_opened-Returns o (opened job version text ner_complete (refused code)) s =
    write_if-Returns o _ s
run_opened-Returns o (opened job version text ner_complete (resolved g p c)) s =
    handled-Returns o job (process_version o job version g p c text ner_complete s)

committed-Returns :
    (o : Outside) (x : Option ProcessingJob) (s : System)
    → o.opens ≡ true
    → Returns o
        (bind_result
          (end_block (bind_result (open_claimed x s) (opened_if o.opens)))
          (run_opened o)).0
committed-Returns o x s opens =
    let (y, s', e) = committed x in
    subst
      (λ opens.
        Returns o
          (bind_result (end_block (bind_result (open_claimed x s) (opened_if opens)))
            (run_opened o)).0)
      (sym opens) (rw e (run_opened-Returns o y s'))
  where
    committed :
        (x : Option ProcessingJob)
        → (y : Opened) × (s' : System) × (end_block
              (bind_result (open_claimed x s) (opened_if true))
            ≡ (ok y, s'))
    committed none = (_, _, refl)
    committed (some job) = (_, _, refl)

refused-raises :
    (opens : Bool) (x : Option ProcessingJob) (s : System)
    → opens ≡ false
    → (end_block (bind_result (open_claimed x s) (opened_if opens))).0 ≡ err database_error
refused-raises opens none s down = rw down refl
refused-raises opens (some job) s down = rw down refl

raised-Returns :
    (o : Outside) (r : Result Failure Opened × System)
    → o.opens ≡ false
    → r.0 ≡ err database_error
    → Returns o (bind_result r (run_opened o)).0
raised-Returns o (ok x, s) down e = cc
raised-Returns o (err x, s) down e = inr (ap again e, inl down)
  where
    again : Result Failure Opened → Result Failure (Unit {0})
    again (ok x) = ok tt
    again (err x) = err x

-- A run that starts outside a transaction returns, whatever the job, the tables and the outside
-- world. The one exception that leaves it is the database's, and then the database has refused the
-- run's first transaction or a statement of its failure handlers.
pub process-returns :
    (o : Outside) (job_id : ℕ) (s : System)
    → s.in_transaction ≡ false
    → ((process o job_id s).0 ≡ ok tt)
      ⊎ (((process o job_id s).0 ≡ err database_error) × ((o.opens ≡ false) ⊎ (o.records ≡ false)))
unfolding process open_job
process-returns o job_id s idle =
    let claimed = (claim_job o job_id (record s { in_transaction = true })).1 in
    let job = (Repository.claim job_id o.now o.now s.working.jobs).0 in
    elim (Bool-cases o.opens) [
      | inl opens ↦ rw idle (committed-Returns o job claimed opens)
      | inr down ↦ rw idle (raised-Returns o _ down (refused-raises o.opens job claimed down))
    ]
