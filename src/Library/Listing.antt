-- ===== src/Library/Listing.antt =====
-- `DocumentLibraryService.list_documents` (application/documents/service.py) and its results
-- (application/documents/models.py).
use Prim.Native.String.{String}
use mathlib.Core.Option
use document_insight.Prelude.{
  ℕ, Bool, true, ◌&&◌, ◌==◌, Option, none, some, List, [], ◌∷◌, map, take, any, keep_if, leb,
  order_by, flat_map, if◌then◌else◌,
}
use document_insight.Chunker.Text.{Text}
use document_insight.Access.{AuthorizationContext}
use document_insight.Store.Versions
use document_insight.Store.Versions.{
  VersionStatus, VersionRow, Versions, list_latest_for_document_ids,
}
use document_insight.Store.Documents.{
  DocumentRow, DepartmentRow, AssignmentRow, contains, list_for_tenant, list_by_ids,
  list_for_document_ids,
}
use document_insight.Store.System.{Database}
use document_insight.Query.Evidence.{authorized_departments}

pub record LibraryDepartment : Type 0 where
  pub department_id : ℕ
  pub name : String

pub record LibraryVersion : Type 0 where
  pub document_version_id : ℕ
  pub version_number : ℕ
  pub original_filename : Text
  pub status : VersionStatus
  pub created_at : ℕ

pub record LibraryDocument : Type 0 where
  pub document_id : ℕ
  pub title : Text
  pub departments : List LibraryDepartment
  pub current_ready_version_id : Option ℕ
  pub latest_version : Option LibraryVersion
  pub versions : List LibraryVersion
  pub created_at : ℕ

pub record DocumentLibrary : Type 0 where
  pub documents : List LibraryDocument
  pub departments : List LibraryDepartment

abbrev pub department_of : DepartmentRow → LibraryDepartment
department_of row = record { department_id = row.id; name = row.name }

abbrev pub version_of : VersionRow → LibraryVersion
version_of row = record {
  document_version_id = row.id;
  version_number = row.version_number;
  original_filename = row.original_filename;
  status = row.status;
  created_at = row.created_at;
}

-- the last of the entries that pass, which a dict keeps
abbrev pub last_where {ℓ} : {A : Type ℓ} → (A → Bool) → List A → Option A
last_where test [] = none
last_where test (x ∷ xs) = elim (last_where test xs) [
  | some later ↦ some later
  | none ↦ if test x then some x else none
]

-- `department_ids_by_document.get(document_id, set())`
abbrev pub departments_of : ℕ → List AssignmentRow → List ℕ
departments_of document_id assignments =
    map (λ a. a.department_id) (keep_if (λ a. a.document_id == document_id) assignments)

abbrev distinct : List ℕ → List ℕ
distinct [] = []
distinct (id ∷ ids) = if contains ids id then distinct ids else id ∷ distinct ids

abbrev pub in_filter : Option ℕ → List ℕ → Bool
in_filter none ids = true
in_filter (some department_id) ids = contains ids department_id

-- the document's departments meet the permitted ones, and have the one that is asked for
unfoldable pub is_visible : List ℕ → Option ℕ → List AssignmentRow → DocumentRow → Bool
unfolding contains
is_visible permitted_ids department_id assignments row =
    any (contains permitted_ids) (departments_of row.id assignments)
    && in_filter department_id (departments_of row.id assignments)

abbrev optional : {A : Type 0} → Option A → List A
optional none = []
optional (some a) = a ∷ []

-- The order of the ids' texts is that of the numbers.
abbrev pub named_departments : List LibraryDepartment → List ℕ → List LibraryDepartment
named_departments departments ids =
    flat_map (λ id. optional (last_where (λ item. item.department_id == id) departments))
      (order_by leb (distinct ids))

unfoldable pub shown :
    List LibraryDepartment
    → List AssignmentRow
    → Versions
    → Versions
    → DocumentRow
    → LibraryDocument
unfolding order_by contains
shown departments assignments latest versions row = record {
  document_id = row.id;
  title = row.title;
  departments = named_departments departments (departments_of row.id assignments);
  current_ready_version_id = row.current_ready_version_id;
  latest_version = Option.map version_of (last_where (λ v. v.document_id == row.id) latest);
  versions = map version_of (keep_if (λ v. v.document_id == row.id) versions);
  created_at = row.created_at;
}

-- the documents behind the check of the filter
unfoldable pub list_visible :
    List LibraryDepartment → List ℕ → ℕ → Option ℕ → ℕ → Database → List LibraryDocument
unfolding is_visible shown list_for_tenant list_for_document_ids list_latest_for_document_ids
    Versions.list_for_document_ids
list_visible departments permitted_ids tenant_id department_id limit d =
    let candidates = list_for_tenant tenant_id d.documents in
    let assignments =
      list_for_document_ids (map (λ row. row.id) candidates) tenant_id d.assignments in
    let visible =
      take limit (keep_if (is_visible permitted_ids department_id assignments) candidates) in
    let ids = map (λ row. row.id) visible in
    map
      (shown departments assignments (list_latest_for_document_ids ids tenant_id d.versions)
        (Versions.list_for_document_ids ids tenant_id d.versions))
      visible

abbrev pub is_available : Option ℕ → List ℕ → Bool
is_available none ids = true
is_available (some department_id) ids = contains ids department_id

unfoldable pub list_documents :
    (String → String → Bool) → AuthorizationContext → Option ℕ → ℕ → Database → DocumentLibrary
unfolding authorized_departments list_by_ids list_visible contains
list_documents name_leb actor department_id limit d =
    let available = authorized_departments actor d in
    let departments =
      map department_of (list_by_ids name_leb actor.tenant_id available d.departments) in
    record {
      documents =
          if is_available department_id available
          then list_visible departments available actor.tenant_id department_id limit d
          else [];
      departments = departments;
    }
