-- ===== src/Job/Claims.antt =====
-- Claims on the ledger: who may take a job, and that taking it excludes everybody else.
use Prim.Native.String.{String}
use mathlib.Core.Option
use document_insight.Prelude.{
  ℕ, ◌≡◌, inl, inr, false, Option, none, some, [], arith, if◌then◌else◌, update_where, Bool-cases,
  first_where-update_none, update_where-none, keep_if-none, map,
}
use document_insight.Job.Model.{failed, permanent, JobRow, Jobs}
use document_insight.Job.Repository.{claim, claimable, claimed, has_id, fail, to_processing_job}
use document_insight.Job.Requeue.{
  prepare_for_requeue, preparable, prepared, recoverable, fail_stale_exhausted, exhausted,
  failed_exhausted, to_requeue, version_of,
}

claimed_not_claimable :
    (job_id started_at at : ℕ) (job : JobRow)
    → claimable job_id (if claimable job_id job then claimed started_at at job else job) ≡ false
claimed_not_claimable job_id started_at at job = ground arith

-- However often a job is claimed, at most the first claim gets it: a claim that follows one gets
-- nothing and changes nothing.
pub claim-claim :
    (job_id t t' at at' : ℕ) (jobs : Jobs)
    → let jobs' = (claim job_id t at jobs).1 in claim job_id t' at' jobs' ≡ (none, jobs')
unfolding claim
claim-claim job_id t t' at at' jobs =
    let gone =
      first_where-update_none (claimable job_id) (claimable job_id) (claimed t at)
        (claimed_not_claimable job_id t at) jobs in
    λ i. (
      Option.map (λ row. to_processing_job (claimed t' at' row)) (gone i),
      update_where-none (claimable job_id) (claimed t' at')
          (update_where (claimable job_id) (claimed t at) jobs) gone i,
    )

-- What `fail` leaves of a row with a permanent category.
abbrev failed_row : String → ℕ → Option String → ℕ → JobRow → JobRow
failed_row code finished_at reason at job = record job {
  status = failed;
  error_code = some code;
  finished_at = some finished_at;
  error_category = some permanent;
  failure_reason = reason;
  updated_at = at;
}

module _ (job_id finished_at at : ℕ) (code : String) (reason : Option String) where
  failed_not_claimable :
      (job : JobRow)
      → claimable job_id
          (if has_id job_id job then failed_row code finished_at reason at job else job)
        ≡ false
  failed_not_claimable job = ground arith

  failed_not_preparable :
      (now stale_before max_attempts : ℕ) (job : JobRow)
      → preparable job_id now stale_before max_attempts
          (if has_id job_id job then failed_row code finished_at reason at job else job)
        ≡ false
  unfolding recoverable
  failed_not_preparable now stale_before max_attempts job = ground arith

  -- A permanent failure is final: the failed job can be neither claimed by a worker nor taken up by
  -- recovery, at any time and with any retry budget, and trying changes nothing.
  pub claim-fail :
      (jobs : Jobs) (t t' now stale_before max_attempts : ℕ)
      → let jobs' = fail job_id code finished_at permanent reason at jobs in
        (claim job_id t t' jobs' ≡ (none, jobs'))
        × (prepare_for_requeue job_id now stale_before max_attempts t' jobs' ≡ (none, jobs'))
  unfolding claim fail prepare_for_requeue
  claim-fail jobs t t' now stale_before max_attempts =
      let change = failed_row code finished_at reason at in
      let jobs' = update_where (has_id job_id) change jobs in
      let closed = preparable job_id now stale_before max_attempts in
      let unclaimed =
        first_where-update_none (claimable job_id) (has_id job_id) change failed_not_claimable
          jobs in
      let unprepared =
        first_where-update_none closed (has_id job_id) change
          (failed_not_preparable now stale_before max_attempts) jobs in
      (
        (λ i. (
          Option.map (λ row. to_processing_job (claimed t t' row)) (unclaimed i),
          update_where-none (claimable job_id) (claimed t t') jobs' unclaimed i,
        )),
        (λ i. (
          Option.map to_requeue (unprepared i),
          update_where-none closed (prepared t') jobs' unprepared i,
        )),
      )

exhausted_once :
    (now at stale_before max_attempts : ℕ) (job : JobRow)
    → exhausted stale_before max_attempts
        (if exhausted stale_before max_attempts job then failed_exhausted now at job else job)
      ≡ false
exhausted_once now at stale_before max_attempts job =
    elim (Bool-cases (exhausted stale_before max_attempts job)) [ inl e ↦ rw e | inr e ↦ rw e e ]

-- After `fail_stale_exhausted` no stale worker has used up its attempts: a second pass over the
-- same bounds finds no version to fail and changes nothing.
pub fail_stale_exhausted_twice :
    (now at now' at' stale_before max_attempts : ℕ) (jobs : Jobs)
    → let jobs' = (fail_stale_exhausted now stale_before max_attempts at jobs).1 in
      fail_stale_exhausted now' stale_before max_attempts at' jobs' ≡ ([], jobs')
unfolding fail_stale_exhausted
fail_stale_exhausted_twice now at now' at' stale_before max_attempts jobs =
    let test = exhausted stale_before max_attempts in
    let jobs' = update_where test (failed_exhausted now at) jobs in
    let gone =
      first_where-update_none test test (failed_exhausted now at)
        (exhausted_once now at stale_before max_attempts) jobs in
    λ i. (
      map version_of (keep_if-none test jobs' gone i),
      update_where-none test (failed_exhausted now' at') jobs' gone i,
    )
