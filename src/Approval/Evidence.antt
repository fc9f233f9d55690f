-- ===== src/Approval/Evidence.antt =====
-- The approved evaluation that an activation needs: `_require_approved_evaluation` and
-- `_require_approved_ingestion_evaluation` of application/configuration/approval.py.
use package.text.Mathlib.Text.{◌==◌ as str_eq}
use document_insight.Prelude.{ℕ, Bool, false, ◌&&◌, ◌==◌, Option, none, some, List, [], ◌∷◌, any}
use document_insight.Chunker.Text.{Text, code_points}
use document_insight.Store.Entities.{same_text}
use document_insight.Codec.Uuid.{uuid_text}
use document_insight.Codec.Json.{Value, text, get, is_true}
use document_insight.Configuration.Models.{Snapshot}
use document_insight.Evaluation.Manifest.{EvaluationCorpusManifest, from_json}
use document_insight.Evaluation.RunTable.{RunStatus, RunRow, Runs, list_runs}
use document_insight.Evaluation.GateReview.{GateReviewRow, get_for_run}
use document_insight.Approval.Validation.{guard}

-- The service's settings, and the evaluation's tables if it was given their repositories. The
-- digest of a configuration's JSON is a library's.
pub record ApprovalService : Type 0 where
  pub mistral_available : Bool
  pub evaluation_runs : Option Runs
  pub evaluation_tenant_id : Option ℕ
  pub evaluation_reviews : Option (List GateReviewRow)
  pub fingerprint : Snapshot → ℕ

abbrev is_single : ℕ → List ℕ → Bool
is_single id [] = false
is_single id (other ∷ []) = other == id
is_single id (other ∷ another ∷ others) = false

abbrev names : Value → Text → Bool
names (text s) t = same_text s t
names _ t = false

abbrev approves : Option GateReviewRow → Bool
approves none = false
approves (some review) = str_eq review.decision "approve"

abbrev pub is_approved : List GateReviewRow → RunRow → Bool
is_approved reviews run = approves (get_for_run run.id reviews)

abbrev pub evaluation_tenant : RunRow → Value
evaluation_tenant run = get (code_points "evaluation_tenant_id") run.corpus_manifest

-- the comparison of two query profiles in a test tenant
abbrev pub compares_queries : ℕ → ℕ → RunRow → Bool
compares_queries candidate_id baseline_id run =
    str_eq run.evaluation_mode "query"
    && is_single candidate_id run.candidate_profile_ids
    && is_single baseline_id run.baseline_profile_ids
    && run.comparison_valid
    && is_true (evaluation_tenant run)

abbrev pub is_id : ℕ → Option ℕ → Bool
is_id id none = false
is_id id (some other) = other == id

abbrev pub names_profiles : ℕ → ℕ → ℕ → Option EvaluationCorpusManifest → Bool
names_profiles candidate_id baseline_id query_id none = false
names_profiles candidate_id baseline_id query_id (some manifest) =
    is_id baseline_id manifest.baseline_ingestion_profile_id
    && is_id candidate_id manifest.candidate_ingestion_profile_id
    && (manifest.baseline_query_profile_id == query_id)
    && (manifest.candidate_query_profile_id == query_id)

-- the comparison of two ingestion profiles in the test tenant, under the active query profile
abbrev pub compares_ingestions : ℕ → ℕ → ℕ → ℕ → RunRow → Bool
compares_ingestions tenant_id candidate_id baseline_id query_id run =
    str_eq run.evaluation_mode "ingestion"
    && run.comparison_valid
    && names (evaluation_tenant run) (uuid_text tenant_id)
    && names_profiles candidate_id baseline_id query_id (from_json run.corpus_manifest)

unfoldable pub require_approved_evaluation :
    Option (List GateReviewRow) → Runs → ℕ → ℕ → Option (Unit {0})
unfolding list_runs get_for_run get same_text
require_approved_evaluation none runs candidate_id baseline_id = none
require_approved_evaluation (some reviews) runs candidate_id baseline_id = guard (
    any (λ run. compares_queries candidate_id baseline_id run && is_approved reviews run)
      (list_runs none (some RunStatus.completed) runs))

unfoldable pub require_approved_ingestion_evaluation :
    Option (List GateReviewRow) → Option ℕ → Runs → ℕ → ℕ → ℕ → Option (Unit {0})
unfolding list_runs get_for_run from_json get same_text
require_approved_ingestion_evaluation none tenant runs candidate_id baseline_id query_id = none
require_approved_ingestion_evaluation (some reviews) none runs candidate_id baseline_id query_id =
    none
require_approved_ingestion_evaluation (some reviews) (some tenant_id) runs candidate_id baseline_id
      query_id =
    guard (
      any
        (λ run.
          compares_ingestions tenant_id candidate_id baseline_id query_id run
          && is_approved reviews run)
        (list_runs none (some RunStatus.completed) runs))
