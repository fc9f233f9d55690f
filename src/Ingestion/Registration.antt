-- ===== src/Ingestion/Registration.antt =====
-- The metadata transaction of `ingest` (application/ingestion/service.py).
use document_insight.Prelude.{
  ℕ, Bool, false, Option, none, some, List, [], ◌∷◌, ◌++◌, ◌==◌, length, if◌then◌else◌,
}
use document_insight.Chunker.Text.{Text, code_points}
use document_insight.Access.{AuthorizationContext}
use document_insight.Job.Repository
use document_insight.Store.Versions
use document_insight.Store.Versions.{MediaType, ObjectKey}
use document_insight.Store.Generations
use document_insight.Store.Documents
use document_insight.Store.Active.{platform, evaluation, ActiveProfiles, get_ingestion_profile_id}
use document_insight.Store.System.{Database, Result, ok, err}
use document_insight.Ingestion.Request.{
  IngestionError, database_error, document_not_found, processing_profile_unavailable,
  IngestDocumentCommand, suffix, base_name,
}
use document_insight.Ingestion.Settings.{IngestionService}
use document_insight.Ingestion.Departments.{authorize_existing_document}

abbrev is_evaluation_tenant : Option ℕ → ℕ → Bool
is_evaluation_tenant none tenant_id = false
is_evaluation_tenant (some id) tenant_id = tenant_id == id

abbrev or_some : Option ℕ → Option ℕ → Option ℕ
or_some none other = other
or_some (some id) other = some id

-- the platform's ingestion profile, which the evaluation tenant's own overrides
unfoldable pub choose_profile : IngestionService → ℕ → ActiveProfiles → Option ℕ
choose_profile service tenant_id rows =
    if is_evaluation_tenant service.evaluation_tenant_id tenant_id
    then or_some (get_ingestion_profile_id (evaluation tenant_id) rows)
        (get_ingestion_profile_id platform rows)
    else get_ingestion_profile_id platform rows

abbrev pub target_of : IngestionService → Option ℕ → ℕ
target_of service none = service.new_document_id
target_of service (some document_id) = document_id

abbrev pub target_id : IngestionService → IngestDocumentCommand → ℕ
target_id service command = target_of service command.document_id

abbrev pub object_key : IngestionService → IngestDocumentCommand → MediaType → ObjectKey
object_key service command media_type = record {
  tenant_id = command.actor.tenant_id;
  document_id = target_id service command;
  version_id = service.version_id;
  suffix = suffix media_type;
}

-- `Path(filename).name or f"document{suffix}"`
unfoldable pub original_filename : Text → MediaType → Text
original_filename filename media_type = elim (base_name filename) [
  | [] ↦ code_points "document" ++ code_points (suffix media_type)
  | c ∷ name ↦ c ∷ name
]

-- a new document with its departments, or a new version of one that is there
unfoldable pub place :
    IngestionService
    → AuthorizationContext
    → Text
    → List ℕ
    → Database
    → Option ℕ
    → Result IngestionError (ℕ × Database)
unfolding authorize_existing_document
place service actor filename departments d none = ok (
  1,
  record d {
    documents =
        Documents.create service.new_document_id actor.tenant_id filename actor.user_id service.now
          d.documents;
    assignments =
        Documents.add_many service.new_document_id actor.tenant_id departments d.assignments;
  },
)
place service actor filename departments d (some document_id) =
    if Documents.lock document_id actor.tenant_id d.documents
    then elim (authorize_existing_document document_id actor d) [
      | err e ↦ err e
      | ok _ ↦ ok (Versions.next_version_number document_id d.versions, d)
    ]
    else err document_not_found

abbrev pub new_version :
    IngestionService → IngestDocumentCommand → MediaType → Text → ℕ → Versions.CreateDocumentVersion
new_version service command media_type filename version_number = record {
  document_id = target_id service command;
  document_version_id = service.version_id;
  tenant_id = command.actor.tenant_id;
  version_number = version_number;
  original_filename = filename;
  object_key = object_key service command media_type;
  media_type = media_type;
  size_bytes = length command.content;
  content_sha256 = service.sha256 command.content;
  created_by = command.actor.user_id;
}

-- the three rows of an upload
abbrev pub add_rows :
    IngestionService → IngestDocumentCommand → MediaType → Text → ℕ → ℕ → Database → Database
add_rows service command media_type filename profile_id version_number d = record d {
  versions =
      Versions.create (new_version service command media_type filename version_number) service.now
        d.versions;
  generations =
      Generations.create service.index_generation_id command.actor.tenant_id service.version_id
        profile_id service.now d.generations;
  jobs =
      Repository.create
        (record {
          job_id = service.job_id;
          tenant_id = command.actor.tenant_id;
          document_version_id = service.version_id;
          idempotency_key = service.idempotency_key;
          correlation_id = command.correlation_id;
          created_by = command.actor.user_id;
          ingestion_profile_id = profile_id;
          index_generation_id = service.index_generation_id;
        })
        service.now d.jobs;
}

-- the metadata transaction; the version number and the new tables
unfoldable pub register :
    IngestionService
    → IngestDocumentCommand
    → MediaType
    → Text
    → List ℕ
    → Database
    → Result IngestionError (ℕ × Database)
unfolding choose_profile place
register service command media_type filename departments d =
    elim (choose_profile service command.actor.tenant_id d.active_profiles) [
      | none ↦ err processing_profile_unavailable
      | some profile_id ↦
          elim (place service command.actor filename departments d command.document_id) [
            | err e ↦ err e
            | ok (version_number, placed) ↦
                if service.commits
                then ok (
                  version_number,
                  add_rows service command media_type filename profile_id version_number placed,
                )
                else err database_error
          ]
    ]
