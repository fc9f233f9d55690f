-- ===== src/Ingestion/Tests.antt =====
-- Uploads of a three-page scan by an editor, to a tenant with one document.
use document_insight.Prelude.{
  ℕ, ◌≡◌, ◌≢◌, ◌⊎◌, refl, true, false, Option, none, some, List, [], ◌∷◌, arith,
}
use document_insight.Access.{
  AuthorizationContext, UserRole, intersects, is_subset, is_viewer, unique, unique_after,
}
use document_insight.Chunker.Text.{code_points}
use document_insight.Configuration.Profiles.{no_profiles}
use document_insight.Store.Versions.{
  VersionRow, VersionStatus, pdf, next_version_number, max_version_number,
}
use document_insight.Store.Documents
use document_insight.Store.Active.{platform, ingestion, get_ingestion_profile_id, same_scope}
use document_insight.Store.System.{Database, System, ok, err}
use document_insight.Ingestion.Request.{
  IngestDocumentCommand, queue_unavailable, database_error, check_upload, detect_media_type,
  detect_from, startswith, declares, base_name, last_component,
}
use document_insight.Ingestion.Settings.{IngestionService, IngestionResult}
use document_insight.Ingestion.Service.{ingest, store_metadata, result_of}
use document_insight.Ingestion.Departments.{
  resolve_departments, authorize_existing_document, new_departments,
}
use document_insight.Ingestion.Registration.{choose_profile, place, register}
use document_insight.Ingestion.Compensation.{ingest-compensates, Recoverable}
use document_insight.Ingestion.Numbering.{ingest-AllBelow, AllBelow}
use document_insight.Ingestion.Authorization.{ingest-MayExtend, ingest-assigned, MayUpload}

abbrev editor : AuthorizationContext
editor = record { user_id = 2; tenant_id = 1; department_ids = 5 ∷ []; role = UserRole.editor }

abbrev command : Option ℕ → IngestDocumentCommand
command target = record {
  content = 37 ∷ 80 ∷ 68 ∷ 70 ∷ 45 ∷ 49 ∷ [];
  filename = code_points "reports/q1.pdf";
  declared_content_type = some "application/pdf";
  document_id = target;
  department_ids = [];
  actor = editor;
  correlation_id = 40;
}

abbrev service : IngestionService
service = record {
  max_upload_bytes = 1000;
  evaluation_tenant_id = none;
  now = 500;
  new_document_id = 11;
  version_id = 21;
  index_generation_id = 61;
  job_id = 8;
  idempotency_key = 31;
  sha256 = λ content. 99;
  puts = true;
  deletes = true;
  enqueues = true;
  reads = true;
  commits = true;
  marks = true;
}

abbrev unmarked : IngestionService
unmarked = record service { marks = false }

abbrev unqueued : IngestionService
unqueued = record service { enqueues = false }

abbrev version_one : VersionRow
version_one = record {
  id = 20;
  document_id = 10;
  tenant_id = 1;
  version_number = 1;
  original_filename = [];
  object_key = record { tenant_id = 1; document_id = 10; version_id = 20; suffix = ".pdf" };
  media_type = pdf;
  size_bytes = 3;
  content_sha256 = 98;
  status = VersionStatus.ready;
  created_by = 2;
  created_at = 100;
}

abbrev database : Database
database = record {
  documents =
      record {
        id = 10;
        tenant_id = 1;
        title = [];
        created_by = 2;
        current_ready_version_id = none;
        created_at = 100;
      }
      ∷ [];
  departments = record { id = 5; tenant_id = 1; name = "Finance" } ∷ [];
  assignments = record { document_id = 10; department_id = 5; tenant_id = 1 } ∷ [];
  versions = version_one ∷ [];
  jobs = [];
  extracted = [];
  entities = [];
  generations = [];
  chunks = [];
  embeddings = [];
  profiles = no_profiles;
  active_profiles =
      record {
        scope = platform;
        profile_kind = ingestion;
        ingestion_profile_id = some 50;
        query_profile_id = none;
        revision = 1;
      }
      ∷ [];
}

abbrev at_rest : System
at_rest = record {
  durable = database;
  working = database;
  in_transaction = false;
  queue = [];
  objects = [];
}

-- the new version of the old document, and the new document
abbrev second : IngestionResult
second = result_of service (command (some 10)) pdf 2

abbrev first : IngestionResult
first = result_of service (command none) pdf 1

second_stored :
    ingest service (command (some 10)) at_rest
    ≡ (ok second, (ingest service (command (some 10)) at_rest).1)
unfolding ingest check_upload detect_media_type detect_from startswith declares resolve_departments
    authorize_existing_document Documents.exists Documents.list_department_ids Documents.contains
    intersects store_metadata register choose_profile get_ingestion_profile_id same_scope place
    Documents.lock next_version_number max_version_number
second_stored = refl

first_stored :
    ingest service (command none) at_rest ≡ (ok first, (ingest service (command none) at_rest).1)
unfolding ingest check_upload detect_media_type detect_from startswith declares resolve_departments
    new_departments unique unique_after is_subset Documents.contains store_metadata register
    choose_profile get_ingestion_profile_id same_scope place
first_stored = refl

unqueued_fails :
    ingest unqueued (command none) at_rest
    ≡ (err queue_unavailable, (ingest unqueued (command none) at_rest).1)
unfolding ingest check_upload detect_media_type detect_from startswith declares resolve_departments
    new_departments unique unique_after is_subset Documents.contains store_metadata register
    choose_profile get_ingestion_profile_id same_scope place
unqueued_fails = refl

unmarked_fails :
    ingest unmarked (command none) at_rest
    ≡ (err database_error, (ingest unmarked (command none) at_rest).1)
unfolding ingest check_upload detect_media_type detect_from startswith declares resolve_departments
    new_departments unique unique_after is_subset Documents.contains store_metadata register
    choose_profile get_ingestion_profile_id same_scope place
unmarked_fails = refl

ingest-compensates_example :
    let s' = (ingest unmarked (command none) at_rest).1 in
    ((s'.durable ≡ database) × (s'.objects ≡ []) × (s'.queue ≡ []))
    ⊎ ((database_error ≡ queue_unavailable) × (s'.queue ≡ []) × Recoverable 8 s'.durable.jobs)
    ⊎ ((database_error ≡ database_error)
        × (s'.queue ≡ record { job_id = 8; correlation_id = 40; not_before = none } ∷ [])
        × Recoverable 8 s'.durable.jobs)
ingest-compensates_example =
    ingest-compensates unmarked (command none) at_rest refl refl (λ m. tt) refl database_error
      (ingest unmarked (command none) at_rest).1 unmarked_fails

ingest-AllBelow_example :
    (row : VersionRow) × ((ingest service (command (some 10)) at_rest).1.durable.versions
      ≡ version_one ∷ row ∷ [])
    × (row.document_id ≡ 10)
    × (row.version_number ≡ 2)
    × (row.tenant_id ≡ 1)
    × AllBelow 10 2 (version_one ∷ [])
ingest-AllBelow_example =
    ingest-AllBelow service (command (some 10)) at_rest refl ((λ e. ground arith), tt) second
      (ingest service (command (some 10)) at_rest).1 second_stored

ingest-MayExtend_example : (is_viewer UserRole.editor ≡ false) × MayUpload editor (some 10) database
ingest-MayExtend_example =
    ingest-MayExtend service (command (some 10)) at_rest refl second
      (ingest service (command (some 10)) at_rest).1 second_stored

ingest-assigned_example :
    (departments : List ℕ) × ((ingest service (command none) at_rest).1.durable.assignments
      ≡ Documents.add_many 11 1 departments database.assignments)
    × (is_subset departments (5 ∷ []) ≡ true)
    × (departments ≢ [])
ingest-assigned_example =
    ingest-assigned service (command none) at_rest refl first
      (ingest service (command none) at_rest).1 first_stored refl refl

base_name_test : base_name (code_points "reports/q1.pdf/.") ≡ code_points "q1.pdf"
unfolding base_name last_component
base_name_test = refl
