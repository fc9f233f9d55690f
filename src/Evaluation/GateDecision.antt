-- ===== src/Evaluation/GateDecision.antt =====
-- What a gate decision rests on, and what it closes (application/evaluation/service.py).
use Prim.Native.String.{String}
use text.Mathlib.Text.{◌==◌ as str_eq}
use document_insight.Prelude.{
  ℕ, ◌≡◌, inl, inr, refl, ap, sym, Bool, true, false, ◌||◌, Option, none, some, List, [], ◌∷◌, ◌++◌,
  ◌==◌, all, first_where, Bool-cases, Option-cases, arith, ltb, length,
}
use document_insight.Chunker.Text.{Text, strip}
use document_insight.Store.System.{Result, ok, err}
use document_insight.Evaluation.RunTable.{RunRow, get_run}
use document_insight.Evaluation.GateReview.{
  GateReviewRow, EvaluationTables, EvaluationFailure, list_for_run, get_for_run, is_completed_run,
  covers_suite, suite_of, is_reviewed_candidate, refusal, decide_review, create_gate_review,
  review_answer_quality, is_empty, exists,
}

-- What stands behind a decision on a run.
pub record IsReviewable (d : EvaluationTables) (run_id reviewed_run_id : ℕ) (decision : String)
    (run : RunRow) : Type 0 where
  pub found : get_run run_id d.runs ≡ some run
  pub finished : is_completed_run run ≡ true
  pub comparable : run.comparison_valid ≡ true
  pub exact : run.id ≡ reviewed_run_id
  pub first : get_for_run run_id d.reviews ≡ none
  pub complete : covers_suite (suite_of run d.suites) (list_for_run run.id d.case_results) ≡ true
  pub scored :
      str_eq decision "approve" ≡ true
      → all is_reviewed_candidate (list_for_run run.id d.case_results) ≡ true

refusal-none :
    (run_id reviewed_run_id : ℕ) (decision : String) (d : EvaluationTables) (run : RunRow)
    → get_run run_id d.runs ≡ some run
    → refusal run_id reviewed_run_id decision (some run) d ≡ none
    → IsReviewable d run_id reviewed_run_id decision run
unfolding refusal list_for_run get_for_run
refusal-none run_id reviewed_run_id decision d run found e = ground (arith, e, found)

refusal-missing :
    (run_id reviewed_run_id : ℕ) (decision : String) (d : EvaluationTables)
    → refusal run_id reviewed_run_id decision none d ≡ some "Run not found"
unfolding refusal
refusal-missing run_id reviewed_run_id decision d = refl

decide_review-Justified :
    (review : GateReviewRow) (run_id reviewed_run_id : ℕ) (decision : String)
    (found : Option RunRow) (d : EvaluationTables) {id : ℕ} {d' : EvaluationTables}
    → get_run run_id d.runs ≡ found
    → decide_review review (refusal run_id reviewed_run_id decision found d) d ≡ (ok id, d')
    → ((run : RunRow) × IsReviewable d run_id reviewed_run_id decision run)
      × (d' ≡ record d { reviews = d.reviews ++ review ∷ [] })
decide_review-Justified review run_id reviewed_run_id decision none d f e =
    cc (rw (refusal-missing run_id reviewed_run_id decision d) at e)
decide_review-Justified review run_id reviewed_run_id decision (some run) d f e =
    elim (Option-cases (refusal run_id reviewed_run_id decision (some run) d)) [
      | inl q ↦ (
        (run, refusal-none run_id reviewed_run_id decision d run f q),
        sym (ap (λ r. r.1) (rw q at e)),
      )
      | inr (m, q) ↦ cc (rw q at e)
    ]

-- What a decision that is taken leaves: one more review, of this run, and nothing else.
pub record IsDecided (d d' : EvaluationTables) (run_id reviewed_run_id : ℕ) (decision : String)
    : Type 0 where
  pub review : GateReviewRow
  pub of_run : review.run_id ≡ run_id
  pub names : review.reviewed_run_id ≡ reviewed_run_id
  pub decides : review.decision ≡ decision
  pub appended : d' ≡ record d { reviews = d.reviews ++ review ∷ [] }

-- A gate decision is taken only on a run that is there, completed and comparable, that the decision
-- names, that has no decision yet, of which each case of the suite finished for both variants, and,
-- if it is approved, of which every candidate answer has a quality score. It adds one review with the
-- decision and changes nothing else.
pub create_gate_review-Justified :
    (review_id now run_id operator_id : ℕ) (decision : String) (reason : Text) (reviewed_run_id : ℕ)
    (d : EvaluationTables) {id : ℕ} {d' : EvaluationTables}
    → create_gate_review review_id now run_id operator_id decision reason reviewed_run_id d
      ≡ (ok id, d')
    → ((run : RunRow) × IsReviewable d run_id reviewed_run_id decision run)
      × IsDecided d d' run_id reviewed_run_id decision
unfolding create_gate_review
create_gate_review-Justified review_id now run_id operator_id decision reason reviewed_run_id d e =
    elim (Bool-cases (str_eq decision "approve" || str_eq decision "reject")) [
      | inr g ↦ cc (rw g at e)
      | inl g ↦ elim (Bool-cases (is_empty (strip reason) || ltb 1000 (length reason))) [
        | inl h ↦ cc (rw (g, h) at e)
        | inr h ↦
            let done =
              decide_review-Justified _ run_id reviewed_run_id decision (get_run run_id d.runs) d
                refl (rw (g, h) at e) in
            (
              done.0,
              record { review = _; of_run = refl; names = refl; decides = refl; appended = done.1 },
            )
      ]
    ]

first_where-append :
    {A : Type 0} (test : A → Bool) (xs : List A) (x : A)
    → test x ≡ true
    → exists (first_where test (xs ++ x ∷ [])) ≡ true
first_where-append test [] x e = rw e
first_where-append test (y ∷ xs) x e = elim (Bool-cases (test y)) [
  | inl t ↦ rw t
  | inr t ↦ rw t (first_where-append test xs x e)
]

abbrev is_refused : {A : Type 0} → Result EvaluationFailure A → Bool
is_refused (ok a) = false
is_refused (err failure) = true

-- The call fails and leaves the tables as they are.
abbrev pub Refused :
    {A : Type 0} → EvaluationTables → Result EvaluationFailure A × EvaluationTables → Type 0
Refused d result = (is_refused result.0 ≡ true) × (result.1 ≡ d)

decide_review-Refused :
    (review : GateReviewRow) (run_id reviewed_run_id : ℕ) (decision : String)
    (found : Option RunRow) (d : EvaluationTables)
    → get_run run_id d.runs ≡ found
    → exists (get_for_run run_id d.reviews) ≡ true
    → Refused d (decide_review review (refusal run_id reviewed_run_id decision found d) d)
decide_review-Refused review run_id reviewed_run_id decision none d f decided =
    rw (refusal-missing run_id reviewed_run_id decision d) (refl, refl)
decide_review-Refused review run_id reviewed_run_id decision (some run) d f decided =
    elim (Option-cases (refusal run_id reviewed_run_id decision (some run) d)) [
      | inl q ↦ cc (rw (refusal-none run_id reviewed_run_id decision d run f q).first at decided)
      | inr (m, q) ↦ rw q (refl, refl)
    ]

decided_refuses :
    (review_id now run_id operator_id : ℕ) (decision : String) (reason : Text) (reviewed_run_id : ℕ)
    (d : EvaluationTables)
    → exists (get_for_run run_id d.reviews) ≡ true
    → Refused d
        (create_gate_review review_id now run_id operator_id decision reason reviewed_run_id d)
unfolding create_gate_review
decided_refuses review_id now run_id operator_id decision reason reviewed_run_id d decided =
    elim (Bool-cases (str_eq decision "approve" || str_eq decision "reject")) [
      | inr g ↦ rw g (refl, refl)
      | inl g ↦ elim (Bool-cases (is_empty (strip reason) || ltb 1000 (length reason))) [
        | inl h ↦ rw (g, h) (refl, refl)
        | inr h ↦
            rw (g, h)
              (decide_review-Refused _ run_id reviewed_run_id decision (get_run run_id d.runs) d
                refl decided)
      ]
    ]

closed_refuses :
    (run_id result_id score : ℕ) (note : Text) (d : EvaluationTables)
    → exists (get_for_run run_id d.reviews) ≡ true
    → Refused d (review_answer_quality run_id result_id score note d)
unfolding review_answer_quality
closed_refuses run_id result_id score note d decided = ground (arith, decided)

after_decision :
    (d d' : EvaluationTables) (run_id : ℕ) (review : GateReviewRow)
    → review.run_id ≡ run_id
    → d' ≡ record d { reviews = d.reviews ++ review ∷ [] }
    → exists (get_for_run run_id d'.reviews) ≡ true
unfolding get_for_run
after_decision d d' run_id review of_run appended =
    rw (appended) (
      first_where-append (λ other. other.run_id == run_id) d.reviews review
        (ground (arith, of_run)))

-- A gate decision closes its run: after it every further decision on the run and every score for one
-- of its answers is refused, and the tables stay as they are.
pub create_gate_review-closes :
    (review_id now run_id operator_id : ℕ) (decision : String) (reason : Text) (reviewed_run_id : ℕ)
    (d : EvaluationTables) {id : ℕ} {d' : EvaluationTables}
    → create_gate_review review_id now run_id operator_id decision reason reviewed_run_id d
      ≡ (ok id, d')
    → ((review_id' now' operator_id' : ℕ) (decision' : String) (reason' : Text)
          (reviewed_run_id' : ℕ)
        → Refused d' (
            create_gate_review review_id' now' run_id operator_id' decision' reason'
              reviewed_run_id' d'))
      × ((result_id score : ℕ) (note : Text)
          → Refused d' (review_answer_quality run_id result_id score note d'))
create_gate_review-closes review_id now run_id operator_id decision reason reviewed_run_id d {d'}
      e =
    let done =
      (create_gate_review-Justified review_id now run_id operator_id decision reason reviewed_run_id
        d e).1 in
    let decided = after_decision d d' run_id done.review done.of_run done.appended in
    (
      λ review_id' now' operator_id' decision' reason' reviewed_run_id'.
          decided_refuses review_id' now' run_id operator_id' decision' reason' reviewed_run_id' d'
            decided,
      λ result_id score note. closed_refuses run_id result_id score note d' decided,
    )
