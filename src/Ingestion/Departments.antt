-- ===== src/Ingestion/Departments.antt =====
-- `_resolve_departments` and `_authorize_existing_document` (application/ingestion/service.py).
use document_insight.Prelude.{
  ℕ, ◌&&◌, ◌||◌, not, Option, none, some, List, [], ◌∷◌, ◌==◌, length, if◌then◌else◌,
}
use document_insight.Access.{
  AuthorizationContext, is_editor, is_tenant_admin, is_subset, intersects, same_set, unique,
}
use document_insight.Store.Documents
use document_insight.Store.System.{Database, Result, ok, err}
use document_insight.Ingestion.Request.{
  IngestionError, document_not_found, ingestion_forbidden, invalid_department_scope,
}

-- `_authorize_existing_document`
unfoldable pub authorize_existing_document :
    ℕ → AuthorizationContext → Database → Result IngestionError (List ℕ)
authorize_existing_document document_id actor d =
    let departments = Documents.list_department_ids document_id actor.tenant_id d.assignments in
    if not (is_tenant_admin actor.role) && not (intersects departments actor.department_ids)
    then err ingestion_forbidden
    else ok departments

-- Python's `xs or ys`
abbrev pub or_else : List ℕ → List ℕ → List ℕ
or_else [] ys = ys
or_else (x ∷ xs) ys = x ∷ xs

-- the departments of a new document
unfoldable pub new_departments :
    List ℕ → AuthorizationContext → Database → Result IngestionError (List ℕ)
new_departments department_ids actor d =
    let unique_ids = unique (or_else department_ids actor.department_ids) in
    if is_editor actor.role
    then (if (length unique_ids == 0) || not (is_subset unique_ids actor.department_ids)
        then err invalid_department_scope
        else ok unique_ids)
    else if same_set (Documents.existing_ids actor.tenant_id unique_ids d.departments) unique_ids
    then ok unique_ids
    else err invalid_department_scope

-- `_resolve_departments`
unfoldable pub resolve_departments :
    List ℕ → AuthorizationContext → Database → Option ℕ → Result IngestionError (List ℕ)
unfolding authorize_existing_document new_departments
resolve_departments department_ids actor d (some document_id) =
    if Documents.exists document_id actor.tenant_id d.documents
    then authorize_existing_document document_id actor d
    else err document_not_found
resolve_departments department_ids actor d none = new_departments department_ids actor d
