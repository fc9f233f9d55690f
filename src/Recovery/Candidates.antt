-- ===== src/Recovery/Candidates.antt =====
-- The candidates of a recovery pass: each can be taken up by its id, and stays so while others are.
use document_insight.Prelude.{
  ℕ, ◌≡◌, ◌≢◌, ◌==◌, refl, ◌∙◌, Bool, true, false, some, [], ◌∷◌, inl, inr, arith, Bool-cases, All,
  All-imp, All-and, All-kept, All-take, first_where, first_where-other, update_where, keep_if, take,
  ==_refl,
}
use document_insight.Job.Model.{JobRow, Jobs}
use document_insight.Job.Repository.{mark_enqueued, has_id}
use document_insight.Job.Requeue.{
  recoverable, preparable, prepared, prepare_for_requeue, order_by_age,
}
use document_insight.Recovery.Reconciler.{Pass, stale_before}
use document_insight.Recovery.Distinct.{
  Distinct, All-order, Distinct-kept, Distinct-order, Distinct-take,
}

abbrev pub passes : Pass → JobRow → Bool
passes p = recoverable p.current_time (stale_before p) p.retry_config.max_attempts

abbrev pub preparing : Pass → ℕ → JobRow → Bool
preparing p id = preparable id p.current_time (stale_before p) p.retry_config.max_attempts

-- Recovery can take up the row by its id.
abbrev pub Findable : Pass → Jobs → JobRow → Type 0
Findable p jobs job = first_where (preparing p job.id) jobs ≡ some job

-- the table behind the recovery and the publication of one job
abbrev pub republished : Pass → ℕ → Jobs → Jobs
republished p id jobs =
    mark_enqueued id p.current_time p.current_time
      (prepare_for_requeue id p.current_time (stale_before p) p.retry_config.max_attempts
        p.current_time jobs).1

pub republished-Findable :
    (p : Pass) (id : ℕ) (jobs : Jobs) (job : JobRow)
    → job.id ≢ id
    → Findable p jobs job
    → Findable p (republished p id jobs) job
unfolding mark_enqueued prepare_for_requeue
republished-Findable p id jobs job other found =
    first_where-other (preparing p job.id) (has_id id) _ (λ y e. ground (arith, other))
      (λ y e. ground (arith, other)) (update_where (preparing p id) (prepared p.current_time) jobs)
    ∙ first_where-other (preparing p job.id) (preparing p id) (prepared p.current_time)
        (λ y e. ground (arith, other)) (λ y e. ground (arith, other)) jobs
    ∙ found

Findable-head :
    (p : Pass) (job : JobRow) (jobs : Jobs) → passes p job ≡ true → Findable p (job ∷ jobs) job
Findable-head p job jobs e = rw (==_refl job.id, e) refl

Findable-tail :
    (p : Pass) (job : JobRow) (jobs : Jobs) (other : JobRow)
    → Findable p jobs other × (other.id ≢ job.id)
    → Findable p (job ∷ jobs) other
Findable-tail p job jobs other (found, apart) =
    let differ : (job.id == other.id) ≡ false = ground (arith, apart) in rw differ found

Findable-rows :
    (p : Pass) (job : JobRow) (jobs rows : Jobs)
    → All (Findable p jobs) rows
    → All (λ o. o.id ≢ job.id) rows
    → All (Findable p (job ∷ jobs)) rows
Findable-rows p job jobs rows found apart =
    All-imp (λ o. Findable p jobs o × (o.id ≢ job.id)) (Findable p (job ∷ jobs))
      (Findable-tail p job jobs) rows
      (All-and (Findable p jobs) (λ o. o.id ≢ job.id) rows found apart)

Findable-kept :
    (p : Pass) (jobs : Jobs) → Distinct jobs → All (Findable p jobs) (keep_if (passes p) jobs)
Findable-kept p [] h = tt
Findable-kept p (job ∷ jobs) h =
    let tail =
      Findable-rows p job jobs (keep_if (passes p) jobs) (Findable-kept p jobs h.1)
        (All-kept (λ o. o.id ≢ job.id) (passes p) jobs h.0) in
    elim (Bool-cases (passes p job)) [
      | inl e ↦ rw e (Findable-head p job jobs e, tail)
      | inr e ↦ rw e tail
    ]

-- The candidates of a pass, as rows: each can be taken up by its id, and no id comes twice.
unfoldable pub candidate_rows : Pass → Jobs → Jobs
candidate_rows p jobs = take p.batch_size (order_by_age (keep_if (passes p) jobs))

pub candidate_rows-Findable :
    (p : Pass) (jobs : Jobs) → Distinct jobs → All (Findable p jobs) (candidate_rows p jobs)
unfolding candidate_rows
candidate_rows-Findable p jobs h =
    All-take (Findable p jobs) p.batch_size (order_by_age (keep_if (passes p) jobs))
      (All-order (Findable p jobs) (keep_if (passes p) jobs) (Findable-kept p jobs h))

pub candidate_rows-Distinct :
    (p : Pass) (jobs : Jobs) → Distinct jobs → Distinct (candidate_rows p jobs)
unfolding candidate_rows
candidate_rows-Distinct p jobs h =
    Distinct-take p.batch_size (order_by_age (keep_if (passes p) jobs))
      (Distinct-order (keep_if (passes p) jobs) (Distinct-kept (passes p) jobs h))
