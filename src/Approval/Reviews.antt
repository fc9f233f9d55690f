-- ===== src/Approval/Reviews.antt =====
-- An activation rests on a reviewed evaluation
-- (application/configuration/approval.py).
use document_insight.Prelude.{
  ℕ, ◌≡◌, refl, Bool, true, false, ◌&&◌, Option, none, some, List, arith, All, All-kept, All-In, In,
  any, any-All, All-and, All-keep_if, order_by-All,
}
use document_insight.Chunker.Text.{Text}
use document_insight.Store.Active.{platform, ProfileKind, ingestion, query, ActiveProfile, get}
use document_insight.Store.System.{System, ok}
use document_insight.Evaluation.RunTable.{RunStatus, RunRow, Runs, list_runs, passes_filters}
use document_insight.Evaluation.GateReview.{GateReviewRow, is_completed_run}
use document_insight.Approval.Evidence.{
  ApprovalService, compares_queries, compares_ingestions, is_approved, require_approved_evaluation,
  require_approved_ingestion_evaluation,
}
use document_insight.Approval.Checks.{reviewed, require_review}
use document_insight.Approval.Resolution.{guard-true}
use document_insight.Approval.Service.{activate}
use document_insight.Approval.Activation.{activate-Switched}

-- A completed run of the table that passes the test and was approved.
abbrev pub Approved : Runs → Option (List GateReviewRow) → (RunRow → Bool) → Type 0
Approved runs reviews compares =
    (run : RunRow) × (given : List GateReviewRow) × In run runs
    × (reviews ≡ some given)
    × (is_completed_run run ≡ true)
    × (compares run ≡ true)
    × (is_approved given run ≡ true)

completed_filter :
    (run : RunRow)
    → passes_filters none (some RunStatus.completed) run ≡ true
    → is_completed_run run ≡ true
completed_filter run e = by_status run.status e
  where
    with_status : RunStatus → RunRow
    with_status status = record run { status = status }

    by_status :
        (status : RunStatus)
        → passes_filters none (some RunStatus.completed) (with_status status) ≡ true
        → is_completed_run (with_status status) ≡ true
    by_status RunStatus.completed e = refl
    by_status RunStatus.pending e = cc
    by_status RunStatus.running e = cc
    by_status RunStatus.failed e = cc

completed-All :
    (runs : Runs)
    → All
        (λ run. In run runs × (is_completed_run run ≡ true))
        (list_runs none (some RunStatus.completed) runs)
unfolding list_runs
completed-All runs =
    order_by-All (λ run. In run runs × (is_completed_run run ≡ true)) _ _
      (All-and (λ run. In run runs) (λ run. is_completed_run run ≡ true) _
        (All-kept (λ run. In run runs) _ runs (All-In runs))
        (All-keep_if (λ run. is_completed_run run ≡ true) _ completed_filter runs))

any-Approved :
    (runs : Runs) (reviews : List GateReviewRow) (compares : RunRow → Bool)
    → any
        (λ run. compares run && is_approved reviews run)
        (list_runs none (some RunStatus.completed) runs)
      ≡ true
    → Approved runs (some reviews) compares
any-Approved runs reviews compares e =
    let (run, (member, finished), passes) = any-All _ _ _ (completed-All runs) e in
    (run, reviews, member, refl, finished, ground (arith, passes), ground (arith, passes))

-- What the review of an activation amounts to, where the service reads the evaluation's tables.
abbrev pub Rests : ApprovalService → ProfileKind → ℕ → ℕ → Option ActiveProfile → Runs → Type 0
Rests service query profile_id current_id active_query runs =
    Approved runs service.evaluation_reviews (compares_queries profile_id current_id)
Rests service ingestion profile_id current_id none runs = Unit
Rests service ingestion profile_id current_id (some active) runs =
    (tenant_id : ℕ) × (service.evaluation_tenant_id ≡ some tenant_id)
    × Approved runs service.evaluation_reviews
        (compares_ingestions tenant_id profile_id current_id active.profile_id)

query-Approved :
    (reviews : Option (List GateReviewRow)) (runs : Runs) (candidate_id baseline_id : ℕ)
    {u : Unit {0}}
    → require_approved_evaluation reviews runs candidate_id baseline_id ≡ some u
    → Approved runs reviews (compares_queries candidate_id baseline_id)
unfolding require_approved_evaluation
query-Approved none runs candidate_id baseline_id e = cc
query-Approved (some reviews) runs candidate_id baseline_id e =
    any-Approved runs reviews (compares_queries candidate_id baseline_id) (guard-true _ e)

ingestion-Approved :
    (reviews : Option (List GateReviewRow)) (tenant : Option ℕ) (runs : Runs)
    (candidate_id baseline_id query_id : ℕ) {u : Unit {0}}
    → require_approved_ingestion_evaluation reviews tenant runs candidate_id baseline_id query_id
      ≡ some u
    → (tenant_id : ℕ) × (tenant ≡ some tenant_id)
      × Approved runs reviews (compares_ingestions tenant_id candidate_id baseline_id query_id)
unfolding require_approved_ingestion_evaluation
ingestion-Approved none tenant runs candidate_id baseline_id query_id e = cc
ingestion-Approved (some reviews) none runs candidate_id baseline_id query_id e = cc
ingestion-Approved (some reviews) (some tenant_id) runs candidate_id baseline_id query_id e = (
  tenant_id,
  refl,
  any-Approved runs reviews (compares_ingestions tenant_id candidate_id baseline_id query_id)
      (guard-true _ e),
)

reviewed-Rests :
    (service : ApprovalService) (runs : Runs) (kind : ProfileKind) (profile_id : ℕ)
    (current : ActiveProfile) (active_query : Option ActiveProfile) {u : Unit {0}}
    → reviewed service runs kind profile_id current active_query ≡ some u
    → Rests service kind profile_id current.profile_id active_query runs
reviewed-Rests service runs query profile_id current active_query e =
    query-Approved service.evaluation_reviews runs profile_id current.profile_id e
reviewed-Rests service runs ingestion profile_id current none e = tt
reviewed-Rests service runs ingestion profile_id current (some active) e =
    ingestion-Approved service.evaluation_reviews service.evaluation_tenant_id runs profile_id
      current.profile_id active.profile_id e

require_review-Rests :
    (service : ApprovalService) (runs : Runs) (kind : ProfileKind) (profile_id : ℕ)
    (current : ActiveProfile) (active_query : Option ActiveProfile)
    → service.evaluation_runs ≡ some runs
    → require_review service kind profile_id current active_query ≡ some tt
    → Rests service kind profile_id current.profile_id active_query runs
unfolding require_review
require_review-Rests service runs kind profile_id current active_query enabled e =
    reviewed-Rests service runs kind profile_id current active_query (rw enabled at e)

-- Where the service reads the evaluation's tables, an activation that succeeds outside a
-- transaction rests on a completed run with a valid comparison that an operator approved: of the
-- new query profile with the one before, or, under the active query profile, of the new ingestion
-- profile with the one before in the configured test tenant.
pub activate-Rests :
    (service : ApprovalService) (kind : ProfileKind) (profile_id expected_revision actor_id : ℕ)
    (reason : Text) (runs : Runs) (s s' : System) (revision : ℕ)
    → s.in_transaction ≡ false
    → service.evaluation_runs ≡ some runs
    → activate service kind profile_id expected_revision actor_id reason s ≡ (ok revision, s')
    → (current : ActiveProfile) × (get platform kind s.working.active_profiles ≡ some current)
      × Rests service kind profile_id current.profile_id
          (get platform query s.working.active_profiles)
          runs
activate-Rests service kind profile_id expected_revision actor_id reason runs s s' revision idle
      enabled e =
    let (current, switch) =
      activate-Switched service kind profile_id expected_revision actor_id reason s s' revision idle
        e in
    (
      current,
      switch.pointer,
      require_review-Rests service runs kind profile_id current _ enabled switch.review,
    )
