-- ===== src/Approval/Tests.antt =====
-- Activations at the sample's tables.
use mathlib.Core.Path.{subst}
use document_insight.Prelude.{◌≡◌, refl, sym, true, false, none, some, [], ◌∷◌, order_by, insert_by}
use document_insight.Chunker.Text.{Text, code_points, strip, lstrip, rstrip, is_space}
use document_insight.Codec.Json.{text, get, field, end}
use document_insight.Store.Entities.{same_text}
use document_insight.Configuration.Models.{
  validate_ner, validate_chunking, validate_lexical, validate_embedding, validate_reranking,
  validate_generation, validate_retrieval, chunking_is_valid, embedding_is_valid,
  reranking_is_valid, generation_is_valid, retrieval_is_valid,
}
use document_insight.Configuration.Profiles.{
  IngestionProfile, QueryProfile, get_query, get_ingestion, get_capability, get_snapshot,
  create_activation,
}
use document_insight.Store.Documents.{contains}
use document_insight.Store.Generations.{referenced_ingestion_profile_ids}
use document_insight.Store.Active
use document_insight.Store.Active.{platform, query, ingestion, same_scope, ActiveProfile}
use document_insight.Store.System.{Database, System, ok}
use document_insight.Evaluation.RunTable.{RunStatus, RunRow, list_runs}
use document_insight.Evaluation.GateReview.{GateReviewRow, get_for_run}
use document_insight.Retrieval.Sample.{query_profile, database}
use document_insight.Approval.Validation.{
  is_accepted, is_runnable, validate_configuration, require_validated, require_ingestion,
  require_all, require_query, require_ingestions, require_cohorts, has_cohorts,
}
use document_insight.Approval.Evidence.{ApprovalService, require_approved_evaluation}
use document_insight.Approval.Checks.{require_review, require_bundle}
use document_insight.Approval.Service.{switch_pointer, switch_profile, activate_profile, activate}
use document_insight.Approval.Requirements.{some-injective}
use document_insight.Approval.Cohorts.{IsCovered, activate-IsCovered}
use document_insight.Approval.Reviews.{Rests, activate-Rests}
use document_insight.Approval.Installation.{audit, Installed, activate-Installed}

abbrev compared : RunRow
compared = record {
  id = 7;
  suite_revision_id = 2;
  corpus_manifest = field (code_points "evaluation_tenant_id") (text (code_points "t")) end;
  baseline_profile_ids = 70 ∷ [];
  candidate_profile_ids = 71 ∷ [];
  config_fingerprints = [];
  read_cohorts = [];
  candidate_component_profiles = none;
  evaluator_version = "1";
  k_values = 5 ∷ [];
  requester_id = 2;
  evaluation_mode = "query";
  status = RunStatus.completed;
  started_at = some 1;
  completed_at = some 2;
  error_message = none;
  comparison_valid = true;
  enqueued_at = some 0;
  heartbeat_at = some 2;
}

abbrev approval : GateReviewRow
approval = record {
  id = 9;
  run_id = 7;
  operator_id = 2;
  decision = "approve";
  reason = code_points "Better.";
  reviewed_run_id = 7;
  threshold_revision = "1";
  created_at = 3;
}

abbrev service : ApprovalService
service = record {
  mistral_available = true;
  evaluation_runs = some (compared ∷ []);
  evaluation_tenant_id = some 3;
  evaluation_reviews = some (approval ∷ []);
  fingerprint = λ snapshot. 0;
}

abbrev before : System
before = record {
  durable = database;
  working = database;
  in_transaction = false;
  queue = [];
  objects = [];
}

abbrev platform_query : ActiveProfile
platform_query = record { profile_id = 70; revision = 1 }

abbrev why : Text
why = code_points "Better."

abbrev switched : Database
switched = record database {
  active_profiles =
      record {
        scope = platform;
        profile_kind = query;
        ingestion_profile_id = none;
        query_profile_id = some 71;
        revision = 2;
      }
      ∷ record {
        scope = platform;
        profile_kind = ingestion;
        ingestion_profile_id = some 50;
        query_profile_id = none;
        revision = 1;
      }
      ∷ [];
  profiles = record database.profiles { activations = audit query platform_query 71 2 why ∷ [] };
}

abbrev after : System
after = record before { durable = switched; working = switched }

activated : activate service query 71 1 2 why before ≡ (ok 2, after)
unfolding activate activate_profile switch_profile switch_pointer require_review require_bundle
    require_approved_evaluation require_query require_ingestions require_ingestion require_all
    require_validated require_cohorts validate_configuration is_accepted is_runnable get_query
    get_ingestion get_capability get_snapshot validate_ner validate_chunking validate_lexical
    validate_embedding validate_reranking validate_generation validate_retrieval chunking_is_valid
    embedding_is_valid reranking_is_valid generation_is_valid retrieval_is_valid contains
    referenced_ingestion_profile_ids Active.get Active.activate create_activation list_runs
    get_for_run get same_text same_scope order_by insert_by strip rstrip lstrip is_space
activated = refl

reads_both :
    (active : ActiveProfile) (target : QueryProfile) (bundle : IngestionProfile)
    → Active.get platform query database.active_profiles ≡ some active
    → get_query active.profile_id database.profiles ≡ some target
    → get_ingestion 50 database.profiles ≡ some bundle
    → has_cohorts target bundle ≡ true
unfolding get_query get_ingestion Active.get same_scope contains
reads_both active target bundle reads found there =
    let found' : some (query_profile 70) ≡ some target =
      subst (λ a. get_query a.profile_id database.profiles ≡ some target)
        (sym (some-injective reads)) found in
    subst (λ q. has_cohorts q bundle ≡ true) (some-injective found')
      (subst (λ b. has_cohorts (query_profile 70) b ≡ true) (some-injective there) refl)

covered : IsCovered database
unfolding Active.get same_scope referenced_ingestion_profile_ids
covered active target reads found =
    let within : (bundle : IngestionProfile)
        → get_ingestion 50 database.profiles ≡ some bundle
        → has_cohorts target bundle ≡ true =
      λ bundle there. reads_both active target bundle reads found there in
    (within, (within, tt))

activate-IsCovered_example : IsCovered switched
activate-IsCovered_example =
    activate-IsCovered service query 71 1 2 why before after 2 refl covered activated

activate-Rests_example :
    (current : ActiveProfile) × (Active.get platform query database.active_profiles ≡ some current)
    × Rests service query 71 current.profile_id
        (Active.get platform query database.active_profiles)
        (compared ∷ [])
activate-Rests_example =
    activate-Rests service query 71 1 2 why (compared ∷ []) before after 2 refl refl activated

activate-Installed_example :
    (current : ActiveProfile) × Installed query 71 1 2 why current database 2 switched
activate-Installed_example =
    activate-Installed service query 71 1 2 why before after 2 refl activated
