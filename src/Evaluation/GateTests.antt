-- ===== src/Evaluation/GateTests.antt =====
-- The gate review at concrete tables.
use Prim.Native.String.{String}
use document_insight.Prelude.{ℕ, ◌≡◌, refl, true, Option, none, some, [], ◌∷◌}
use document_insight.Chunker.Text.{Text, code_points, strip, lstrip, rstrip, is_space}
use document_insight.Store.System.{ok}
use document_insight.Evaluation.RunTable
use document_insight.Codec.Json.{end}
use document_insight.Evaluation.RunTable.{RunRow, get_run}
use document_insight.Evaluation.GateReview.{
  CaseResultRow, CaseResultStatus, EvaluationTables, list_for_run, get_for_run, set_answer_quality,
  refusal, create_gate_review, review_answer_quality,
}
use document_insight.Evaluation.GateDecision.{
  IsReviewable, IsDecided, create_gate_review-Justified, Refused, create_gate_review-closes,
}

abbrev finished_run : RunRow
finished_run = record {
  id = 7;
  suite_revision_id = 2;
  corpus_manifest = end;
  baseline_profile_ids = 10 ∷ [];
  candidate_profile_ids = 11 ∷ [];
  config_fingerprints = [];
  read_cohorts = [];
  candidate_component_profiles = none;
  evaluator_version = "1";
  k_values = 5 ∷ [];
  requester_id = 3;
  evaluation_mode = "query";
  status = RunTable.RunStatus.completed;
  started_at = some 1000;
  completed_at = some 2000;
  error_message = none;
  comparison_valid = true;
  enqueued_at = some 900;
  heartbeat_at = some 1900;
}

abbrev result_with : ℕ → String → Option ℕ → CaseResultRow
result_with result_id variant score = record {
  id = result_id;
  run_id = 7;
  case_id = 50;
  variant = variant;
  status = CaseResultStatus.completed;
  trace = "";
  answer_quality_score = score;
  answer_quality_note = none;
}

abbrev tables_with : Option ℕ → EvaluationTables
tables_with score = record {
  runs = finished_run ∷ [];
  suites = record { id = 2; case_ids = 50 ∷ [] } ∷ [];
  case_results = result_with 70 "baseline" none ∷ result_with 71 "candidate" score ∷ [];
  reviews = [];
}

abbrev scored_tables : EvaluationTables
scored_tables = tables_with (some 0)

abbrev reason : Text
reason = code_points "better"

abbrev decided_tables : EvaluationTables
decided_tables = record scored_tables {
  reviews =
      record {
        id = 90;
        run_id = 7;
        operator_id = 4;
        decision = "approve";
        reason = reason;
        reviewed_run_id = 7;
        threshold_revision = "1";
        created_at = 3000;
      }
      ∷ [];
}

approved : create_gate_review 90 3000 7 4 "approve" reason 7 scored_tables ≡ (ok 90, decided_tables)
unfolding create_gate_review refusal get_run get_for_run list_for_run strip lstrip rstrip is_space
approved = refl

create_gate_review-Justified_example :
    ((run : RunRow) × IsReviewable scored_tables 7 7 "approve" run)
    × IsDecided scored_tables decided_tables 7 7 "approve"
create_gate_review-Justified_example =
    create_gate_review-Justified 90 3000 7 4 "approve" reason 7 scored_tables approved

create_gate_review-closes_example :
    ((review_id now operator_id : ℕ) (decision : String) (text : Text) (reviewed_run_id : ℕ)
      → Refused decided_tables (
          create_gate_review review_id now 7 operator_id decision text reviewed_run_id
            decided_tables))
    × ((result_id score : ℕ) (note : Text)
        → Refused decided_tables (review_answer_quality 7 result_id score note decided_tables))
create_gate_review-closes_example =
    create_gate_review-closes 90 3000 7 4 "approve" reason 7 scored_tables approved

-- Without a score of the candidate's answer the approval is refused.
unscored_test :
    refusal 7 7 "approve" (some finished_run) (tables_with none)
    ≡ some "Review the quality of every candidate answer first"
unfolding refusal get_for_run list_for_run
unscored_test = refl

-- The score is stored once.
score_test : (review_answer_quality 7 71 0 [] (tables_with none)).0 ≡ ok tt
unfolding review_answer_quality get_run get_for_run list_for_run set_answer_quality strip lstrip
    rstrip is_space
score_test = refl
