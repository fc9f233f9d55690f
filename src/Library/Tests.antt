-- ===== src/Library/Tests.antt =====
-- Activation of a ready version by an administrator, and the job view of a member.
use document_insight.Prelude.{
  ◌≤◌, All, map, length, order_by, insert_by, ◌≡◌, refl, true, false, some, none, [], ◌∷◌,
}
use document_insight.Access.{AuthorizationContext, UserRole, is_tenant_admin, intersects}
use document_insight.Job.Model.{JobStatus}
use document_insight.Job.Repository
use document_insight.Configuration.Profiles.{no_profiles}
use document_insight.Store.Versions.{VersionStatus, get_for_activation, get_document_id, pdf}
use document_insight.Store.Documents
use document_insight.Store.Versions
use document_insight.Store.Documents.{list_department_ids, list_for_tenant, list_by_ids, contains}
use document_insight.Query.Evidence.{authorized_departments}
use document_insight.Library.Listing.{
  LibraryDocument, list_documents, list_visible, is_visible, shown,
}
use document_insight.Library.Shelf.{IsShelved, list_documents-IsShelved}
use document_insight.Store.System.{Database, System, ok}
use document_insight.Library.JobView.{Job, get_job, view_job}
use document_insight.Library.Activation.{activate_version, select_version, check_candidate}
use document_insight.Library.Visibility.{get_job-Shown, Shown}
use document_insight.Library.Pointers.{
  PointersReady, Activated, activate_version-Activated, activate_version-PointersReady,
}

abbrev admin : AuthorizationContext
admin = record { user_id = 1; tenant_id = 1; department_ids = []; role = UserRole.tenant_admin }

abbrev member : AuthorizationContext
member = record { user_id = 2; tenant_id = 1; department_ids = 5 ∷ []; role = UserRole.viewer }

abbrev database : Database
database = record {
  documents =
      record {
        id = 10;
        tenant_id = 1;
        title = [];
        created_by = 2;
        current_ready_version_id = none;
        created_at = 100;
      }
      ∷ [];
  departments = [];
  assignments = record { document_id = 10; department_id = 5; tenant_id = 1 } ∷ [];
  versions =
      record {
        id = 20;
        document_id = 10;
        tenant_id = 1;
        version_number = 1;
        original_filename = [];
        object_key = record { tenant_id = 1; document_id = 10; version_id = 20; suffix = ".pdf" };
        media_type = pdf;
        size_bytes = 3;
        content_sha256 = 98;
        status = VersionStatus.ready;
        created_by = 2;
        created_at = 100;
      }
      ∷ [];
  jobs =
      record {
        id = 7;
        tenant_id = 1;
        document_version_id = 20;
        ingestion_profile_id = some 50;
        index_generation_id = some 60;
        idempotency_key = 30;
        correlation_id = 40;
        status = JobStatus.ready;
        attempt_count = 1;
        error_code = none;
        error_category = none;
        failure_reason = none;
        last_attempt_at = none;
        next_retry_at = none;
        created_by = 2;
        enqueued_at = some 100;
        started_at = some 110;
        finished_at = some 120;
        created_at = 100;
        updated_at = 120;
      }
      ∷ [];
  extracted = [];
  entities = [];
  generations = [];
  chunks = [];
  embeddings = [];
  profiles = no_profiles;
  active_profiles = [];
}

abbrev at_rest : System
at_rest = record {
  durable = database;
  working = database;
  in_transaction = false;
  queue = [];
  objects = [];
}

activated_ok :
    activate_version 10 20 admin at_rest ≡ (ok tt, (activate_version 10 20 admin at_rest).1)
unfolding activate_version select_version check_candidate Documents.lock Documents.exists
    get_for_activation
activated_ok = refl

activate_version-Activated_example :
    (is_tenant_admin UserRole.tenant_admin ≡ true)
    × Activated 10 20 admin database (activate_version 10 20 admin at_rest).1.durable
activate_version-Activated_example =
    activate_version-Activated 10 20 admin at_rest (activate_version 10 20 admin at_rest).1 refl
      activated_ok

activate_version-PointersReady_example :
    PointersReady (activate_version 10 20 admin at_rest).1.durable
activate_version-PointersReady_example =
    activate_version-PointersReady 10 20 admin at_rest (activate_version 10 20 admin at_rest).1 refl
      ((λ v e. cc), tt) activated_ok

abbrev seventh_job : Job
seventh_job = record {
  job_id = 7;
  document_id = 10;
  document_version_id = 20;
  status = JobStatus.ready;
  attempt_count = 1;
  created_at = 100;
  updated_at = 120;
  error_code = none;
}

shown_job : get_job 7 member database ≡ some seventh_job
unfolding get_job view_job Repository.get Repository.to_record get_document_id list_department_ids
    intersects Documents.contains
shown_job = refl

get_job-Shown_example : Shown 7 member database seventh_job
get_job-Shown_example = get_job-Shown 7 member database seventh_job shown_job

-- The member's library has the document with its version.
library_test :
    map
      (λ (e : LibraryDocument). length e.versions)
      (list_documents (λ a b. true) member (some 5) 10 database).documents
    ≡ 1 ∷ []
unfolding list_documents list_visible list_for_tenant Documents.list_for_document_ids
    Versions.list_for_document_ids list_by_ids is_visible contains authorized_departments shown
    order_by insert_by
library_test = refl

list_documents-IsShelved_example :
    let library = list_documents (λ a b. true) member (some 5) 10 database in
    All (IsShelved database 1 (authorized_departments member database) (some 5)) library.documents
    × (length library.documents ≤ 10)
list_documents-IsShelved_example =
    list_documents-IsShelved (λ a b. true) member (some 5) 10 database
