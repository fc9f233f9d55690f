-- ===== src/Recovery/Completeness.antt =====
-- What one recovery pass publishes.
use mathlib.Core.List.{append-nil, append_assoc}
use document_insight.Prelude.{
  ℕ, suc, ◌+◌, ◌≡◌, ◌≢◌, refl, sym, ◌∙◌, ap, true, false, List, [], ◌∷◌, ◌++◌, map, arith, length,
  length-map, All, All-imp, All-and,
}
use document_insight.Job.Model.{JobRow, Jobs, RequeueJob}
use document_insight.Job.Requeue.{
  prepare_for_requeue, to_requeue, fail_stale_exhausted, list_requeue_candidates, exhausted,
  failed_exhausted,
}
use document_insight.Store.System.{System, QueueEntry, ok}
use document_insight.Recovery.Reconciler.{
  Pass, ReconciliationResult, stale_before, recover_all, reconcile, entry_of, first_block,
}
use document_insight.Recovery.Distinct.{Distinct, Distinct-update}
use document_insight.Recovery.Candidates.{
  Findable, republished, republished-Findable, candidate_rows, candidate_rows-Findable,
  candidate_rows-Distinct,
}

-- the state behind the recovery and the publication of one job
abbrev after_one : Pass → JobRow → System → System
after_one p job s =
    let d = record s.working { jobs = republished p job.id s.working.jobs } in
    record s {
      durable = d;
      working = d;
      in_transaction = false;
      queue = s.queue ++ entry_of (to_requeue job) ∷ [];
    }

abbrev Accepts : Pass → Type 0
Accepts p = (id : ℕ) → p.queue_accepts id ≡ true

one_add : (n : ℕ) → 1 + n ≡ suc n
one_add n = omega arith

recover_all-step :
    (p : Pass)
    → Accepts p
    → (job : JobRow) (candidates : List RequeueJob) (s : System) → s.in_transaction ≡ false
    → Findable p s.working.jobs job
    → (n : ℕ) (s' : System) → recover_all p candidates (after_one p job s) ≡ (ok n, s')
    → recover_all p (to_requeue job ∷ candidates) s ≡ (ok (suc n), s')
unfolding recover_all prepare_for_requeue to_requeue
recover_all-step p accepts job candidates s idle found n s' rest =
    rw idle (rw found (rw (accepts job.id) (rw rest (ap (λ k. (ok k, s')) (one_add n)))))

-- the queue with the deliveries of the candidates behind it
abbrev delivered : System → List RequeueJob → List QueueEntry
delivered s candidates = s.queue ++ map entry_of candidates

recover_all-Findable :
    (p : Pass)
    → Accepts p
    → (rows : Jobs) (s : System) → s.in_transaction ≡ false
    → Distinct rows
    → All (Findable p s.working.jobs) rows
    → (s' : System) × (recover_all p (map to_requeue rows) s ≡ (ok (length rows), s'))
      × (s'.queue ≡ delivered s (map to_requeue rows))
      × (s'.in_transaction ≡ false)
unfolding recover_all
recover_all-Findable p accepts [] s idle distinct found = (s, refl, sym (append-nil s.queue), idle)
recover_all-Findable p accepts (job ∷ rows) s idle distinct found =
    let still =
      All-imp (λ o. Findable p s.working.jobs o × (o.id ≢ job.id))
        (Findable p (republished p job.id s.working.jobs))
        (λ o h. republished-Findable p job.id s.working.jobs o h.1 h.0) rows
        (All-and (Findable p s.working.jobs) (λ o. o.id ≢ job.id) rows found.1 distinct.0) in
    let (s', e, queue, idle') =
      recover_all-Findable p accepts rows (after_one p job s) refl distinct.1 still in
    (
      s',
      recover_all-step p accepts job (map to_requeue rows) s idle found.0 (length rows) s' e,
      queue
          ∙ append_assoc s.queue (entry_of (to_requeue job) ∷ [])
              (map entry_of (map to_requeue rows)),
      idle',
    )

-- the jobs behind the expiry of a pass, and the candidates that it then lists
abbrev pub surviving : Pass → Jobs → Jobs
surviving p jobs =
    (fail_stale_exhausted p.current_time (stale_before p) p.retry_config.max_attempts p.current_time
      jobs).1

-- the versions of the jobs that the pass fails for good
abbrev pub expired : Pass → Jobs → List ℕ
expired p jobs =
    (fail_stale_exhausted p.current_time (stale_before p) p.retry_config.max_attempts p.current_time
      jobs).0

abbrev pub listed : Pass → Jobs → List RequeueJob
listed p jobs =
    list_requeue_candidates p.current_time (stale_before p) p.retry_config.max_attempts p.batch_size
      (surviving p jobs)

surviving-Distinct : (p : Pass) (jobs : Jobs) → Distinct jobs → Distinct (surviving p jobs)
unfolding fail_stale_exhausted
surviving-Distinct p jobs h =
    Distinct-update (exhausted (stale_before p) p.retry_config.max_attempts)
      (failed_exhausted p.current_time p.current_time) (λ job. refl) jobs h

-- A recovery pass whose queue takes every delivery, over a table whose ids are distinct and outside
-- any transaction, returns: it publishes each candidate that its query lists exactly once and in
-- their order, counts them and the jobs that it fails for good, and leaves no transaction open.
pub reconcile_complete :
    (p : Pass) (s : System)
    → ((id : ℕ) → p.queue_accepts id ≡ true)
    → s.in_transaction ≡ false
    → Distinct s.working.jobs
    → (result : ReconciliationResult) × (s' : System) × (reconcile p s ≡ (ok result, s'))
      × (result.exhausted_count ≡ length (expired p s.working.jobs))
      × (result.requeued_count ≡ length (listed p s.working.jobs))
      × (s'.queue ≡ s.queue ++ map entry_of (listed p s.working.jobs))
      × (s'.in_transaction ≡ false)
unfolding reconcile list_requeue_candidates candidate_rows recover_all
reconcile_complete p s accepts idle distinct =
    let jobs = surviving p s.working.jobs in
    let apart = surviving-Distinct p s.working.jobs distinct in
    let s1 = (first_block p s).1 in
    let (s', e, queue, idle') =
      recover_all-Findable p accepts (candidate_rows p jobs)
        (record s1 { durable = s1.working; in_transaction = false }) refl
        (candidate_rows-Distinct p jobs apart) (candidate_rows-Findable p jobs apart) in
    (
      record {
        requeued_count = length (candidate_rows p jobs);
        exhausted_count = length (expired p s.working.jobs);
      },
      s',
      rw idle (rw e refl),
      refl,
      sym (length-map to_requeue (candidate_rows p jobs)),
      queue,
      idle',
    )
