-- ===== src/Evaluation/GateReview.antt =====
-- The gate review of a finished run and of the quality of its answers
-- (application/evaluation/service.py, infrastructure/evaluation_gate_review/repository.py,
-- infrastructure/evaluation_case_result/repository.py).
use Prim.Native.String.{String}
use text.Mathlib.Text.{◌==◌ as str_eq}
use document_insight.Prelude.{
  ℕ, Bool, true, false, not, ◌&&◌, ◌||◌, Option, none, some, List, [], ◌∷◌, ◌++◌, ◌==◌, ltb, leb,
  length, any, all, keep_if, first_where, update_where, if◌then◌else◌,
}
use document_insight.Chunker.Text.{Text, strip}
use document_insight.Store.System.{Result, ok, err}
use document_insight.Evaluation.RunTable.{RunStatus, RunRow, Runs, get_run}

pub data CaseResultStatus : Type 0 where
  pending passed failed skipped error completed : CaseResultStatus

-- `trace` is what the run recorded of the query: its ranks, citations, answer and times.
pub record CaseResultRow : Type 0 where
  pub id : ℕ
  pub run_id : ℕ
  pub case_id : ℕ
  pub variant : String
  pub status : CaseResultStatus
  pub trace : String
  pub answer_quality_score : Option ℕ
  pub answer_quality_note : Option Text

pub record GateReviewRow : Type 0 where
  pub id : ℕ
  pub run_id : ℕ
  pub operator_id : ℕ
  pub decision : String
  pub reason : Text
  pub reviewed_run_id : ℕ
  pub threshold_revision : String
  pub created_at : ℕ

-- a suite revision with the ids of its cases
pub record SuiteRow : Type 0 where
  pub id : ℕ
  pub case_ids : List ℕ

pub record EvaluationTables : Type 0 where
  pub runs : Runs
  pub suites : List SuiteRow
  pub case_results : List CaseResultRow
  pub reviews : List GateReviewRow

pub data EvaluationFailure : Type 0 where
  gate_review_error : String → EvaluationFailure
  evaluation_error : String → EvaluationFailure

-- `list_for_run`; the order does not matter to the reviews, an id being a primary key
unfoldable pub list_for_run : ℕ → List CaseResultRow → List CaseResultRow
list_for_run run_id = keep_if (λ row. row.run_id == run_id)

abbrev is_unscored : Option ℕ → Bool
is_unscored none = true
is_unscored (some score) = false

unfoldable pub set_answer_quality : ℕ → ℕ → Text → List CaseResultRow → List CaseResultRow
set_answer_quality result_id score note =
    update_where (λ row. (row.id == result_id) && is_unscored row.answer_quality_score)
      (λ row. record row { answer_quality_score = some score; answer_quality_note = some note })

unfoldable pub get_for_run : ℕ → List GateReviewRow → Option GateReviewRow
get_for_run run_id = first_where (λ review. review.run_id == run_id)

abbrev pub is_completed_run : RunRow → Bool
is_completed_run run = of_status run.status
  where
    of_status : RunStatus → Bool
    of_status RunStatus.completed = true
    of_status _ = false

abbrev is_completed_case : CaseResultStatus → Bool
is_completed_case CaseResultStatus.completed = true
is_completed_case _ = false

-- `(case_id, variant) in variants`
abbrev pub has_finished : List CaseResultRow → String → ℕ → Bool
has_finished results variant case_id =
    any
      (λ row.
        is_completed_case row.status && (row.case_id == case_id) && str_eq row.variant variant)
      results

abbrev pub is_reviewed_candidate : CaseResultRow → Bool
is_reviewed_candidate row =
    not (str_eq row.variant "candidate" && is_unscored row.answer_quality_score)

-- every case for both variants, of a suite that is there
abbrev pub covers_suite : Option SuiteRow → List CaseResultRow → Bool
covers_suite none results = false
covers_suite (some suite) results =
    all (λ id. has_finished results "baseline" id && has_finished results "candidate" id)
      suite.case_ids

abbrev pub suite_of : RunRow → List SuiteRow → Option SuiteRow
suite_of run = first_where (λ suite. suite.id == run.suite_revision_id)

abbrev pub exists {ℓ} : {A : Type ℓ} → Option A → Bool
exists none = false
exists (some x) = true

-- why a run cannot be reviewed
unfoldable pub refusal : ℕ → ℕ → String → Option RunRow → EvaluationTables → Option String
unfolding list_for_run get_for_run
refusal run_id reviewed_run_id decision none d = some "Run not found"
refusal run_id reviewed_run_id decision (some run) d =
    if not (is_completed_run run && run.comparison_valid)
    then some "Can only review completed runs"
    else if not (run.id == reviewed_run_id)
    then some "Review must name the exact evaluated run"
    else if exists (get_for_run run_id d.reviews)
    then some "This run already has a gate decision"
    else if not (covers_suite (suite_of run d.suites) (list_for_run run.id d.case_results))
    then some "Every case must finish for baseline and candidate"
    else if str_eq decision "approve"
        && not (all is_reviewed_candidate (list_for_run run.id d.case_results))
    then some "Review the quality of every candidate answer first"
    else none

abbrev pub is_empty : Text → Bool
is_empty [] = true
is_empty (c ∷ cs) = false

abbrev pub decide_review :
    GateReviewRow → Option String → EvaluationTables → Result EvaluationFailure ℕ × EvaluationTables
decide_review review (some message) d = (err (gate_review_error message), d)
decide_review review none d = (ok review.id, record d { reviews = d.reviews ++ review ∷ [] })

-- `review_id` and `now` are what `uuid4()` and the clock give.
unfoldable pub create_gate_review :
    (review_id now run_id operator_id : ℕ)
    → String
    → Text
    → ℕ
    → EvaluationTables
    → Result EvaluationFailure ℕ × EvaluationTables
unfolding refusal get_run
create_gate_review review_id now run_id operator_id decision reason reviewed_run_id d =
    if not (str_eq decision "approve" || str_eq decision "reject")
    then (err (gate_review_error "Decision must be 'approve' or 'reject'"), d)
    else if is_empty (strip reason) || ltb 1000 (length reason)
    then (err (gate_review_error "Reason must be 1-1000 characters"), d)
    else decide_review
        (record {
          id = review_id;
          run_id = run_id;
          operator_id = operator_id;
          decision = decision;
          reason = strip reason;
          reviewed_run_id = reviewed_run_id;
          threshold_revision = "1";
          created_at = now;
        })
        (refusal run_id reviewed_run_id decision (get_run run_id d.runs) d) d

-- `0.0 <= score <= 1.0` on the bits of a double: the patterns up to that of 1.0, and -0.0
abbrev is_unit_score : ℕ → Bool
is_unit_score score = leb score 4607182418800017408 || (score == 9223372036854775808)

abbrev is_reviewable : Option RunRow → Bool
is_reviewable none = false
is_reviewable (some run) = is_completed_run run

abbrev is_open : Option CaseResultRow → Bool
is_open none = false
is_open (some row) = is_unscored row.answer_quality_score

unfoldable pub review_answer_quality :
    (run_id result_id score : ℕ)
    → Text
    → EvaluationTables
    → Result EvaluationFailure (Unit {0}) × EvaluationTables
unfolding get_run get_for_run list_for_run set_answer_quality
review_answer_quality run_id result_id score note d =
    if not (is_unit_score score) || ltb 2000 (length (strip note))
    then (err (evaluation_error "Quality score must be 0-1 and note at most 2000 characters"), d)
    else if not (is_reviewable (get_run run_id d.runs))
    then (err (evaluation_error "Only completed runs can receive quality reviews"), d)
    else if exists (get_for_run run_id d.reviews)
    then (err (evaluation_error "A gate decision has already been recorded"), d)
    else if not
        (is_open (first_where (λ row. row.id == result_id) (list_for_run run_id d.case_results)))
    then (err (evaluation_error "Case result is unavailable or already reviewed"), d)
    else (
      ok tt,
      record d { case_results = set_answer_quality result_id score (strip note) d.case_results },
    )
