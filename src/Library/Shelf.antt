-- ===== src/Library/Shelf.antt =====
-- What the listing of documents shows, and to whom (application/documents/service.py).
use Prim.Native.String.{String}
use mathlib.Core.Path.{subst}
use document_insight.Prelude.{
  ℕ, ◌≤◌, ◌≡◌, refl, inl, inr, Bool, true, ◌==◌, Option, none, some, List, map, take, keep_if,
  length, length-map, length-take, arith, All, All-imp, All-map, All-take, In, keep_if-In,
  keep_if-All, any-All, order_by-All, Bool-cases, ==_iff,
}
use document_insight.Access.{AuthorizationContext}
use document_insight.Store.Versions
use document_insight.Store.Versions.{VersionRow, Versions, list_latest_for_document_ids}
use document_insight.Store.Documents.{
  DocumentRow, AssignmentRow, contains, list_for_tenant, list_by_ids, list_for_document_ids,
}
use document_insight.Store.System.{Database}
use document_insight.Query.Evidence.{authorized_departments}
use document_insight.Library.Listing.{
  LibraryDepartment, LibraryVersion, LibraryDocument, department_of, version_of, departments_of,
  is_visible, in_filter, shown, list_visible, is_available, list_documents,
}

taken : {A B : Type 0} (f : A → B) (n : ℕ) (xs : List A) → length (map f (take n xs)) ≤ n
taken f n xs = rw (length-map f (take n xs), length-take n xs) (omega arith)

-- an assignment of the tenant for the document, to the department
abbrev pub IsAssigned : Database → ℕ → ℕ → ℕ → Type 0
IsAssigned d tenant_id document_id department_id =
    (a : AssignmentRow) × In a d.assignments
    × (a.tenant_id ≡ tenant_id)
    × (a.document_id ≡ document_id)
    × (a.department_id ≡ department_id)

-- a version of the document in the tenant
abbrev pub IsVersionOf : Database → ℕ → ℕ → LibraryVersion → Type 0
IsVersionOf d tenant_id document_id v =
    (w : VersionRow) × In w d.versions
    × (w.tenant_id ≡ tenant_id)
    × (w.document_id ≡ document_id)
    × (v ≡ version_of w)

-- the department that is asked for, if one is
abbrev pub Asked : Database → ℕ → ℕ → Option ℕ → Type 0
Asked d tenant_id document_id none = Unit
Asked d tenant_id document_id (some department_id) =
    IsAssigned d tenant_id document_id department_id

-- A row of the library stands for a document of the tenant that is assigned to a permitted
-- department and to the one that is asked for, with that document's own versions.
pub record IsShelved (d : Database) (tenant_id : ℕ) (permitted_ids : List ℕ) (asked : Option ℕ)
    (e : LibraryDocument) : Type 0 where
  pub row : DocumentRow
  pub stored : In row d.documents
  pub in_tenant : row.tenant_id ≡ tenant_id
  pub same_document : e.document_id ≡ row.id
  pub same_title : e.title ≡ row.title
  pub same_pointer : e.current_ready_version_id ≡ row.current_ready_version_id
  pub department : ℕ
  pub permitted : contains permitted_ids department ≡ true
  pub assigned : IsAssigned d tenant_id row.id department
  pub in_filter : Asked d tenant_id row.id asked
  pub own_versions : All (IsVersionOf d tenant_id row.id) e.versions

module _ (d : Database) (tenant_id : ℕ) (permitted_ids : List ℕ) (asked : Option ℕ) where
  candidates-All :
      All
        (λ (row : DocumentRow). In row d.documents × (row.tenant_id ≡ tenant_id))
        (list_for_tenant tenant_id d.documents)
  unfolding list_for_tenant
  candidates-All =
      order_by-All (λ (row : DocumentRow). In row d.documents × (row.tenant_id ≡ tenant_id)) _ _
        (keep_if-In (λ row. row.tenant_id ≡ tenant_id) _ (λ row t. ground (arith, t)) d.documents)

  departments_of-All :
      (document_ids : List ℕ) (document_id : ℕ)
      → All
          (IsAssigned d tenant_id document_id)
          (departments_of document_id (list_for_document_ids document_ids tenant_id d.assignments))
  unfolding list_for_document_ids
  departments_of-All document_ids document_id =
      let own =
        keep_if-In (λ (a : AssignmentRow). a.tenant_id ≡ tenant_id) _ (λ a t. ground (arith, t))
          d.assignments in
      let kept =
        keep_if-All (λ (a : AssignmentRow). In a d.assignments × (a.tenant_id ≡ tenant_id))
          (λ a. a.document_id ≡ document_id) (λ a. a.document_id == document_id)
          (λ a. (==_iff a.document_id document_id).0)
          (list_for_document_ids document_ids tenant_id d.assignments) own in
      All-map (IsAssigned d tenant_id document_id) (λ (a : AssignmentRow). a.department_id) _
        (All-imp _ (λ (a : AssignmentRow). IsAssigned d tenant_id document_id a.department_id)
          (λ a h. (a, h.0.0, h.0.1, h.1, refl)) _ kept)

  versions-All :
      (document_ids : List ℕ) (document_id : ℕ)
      → All (IsVersionOf d tenant_id document_id) (
          map version_of (
            keep_if
              (λ v. v.document_id == document_id)
              (Versions.list_for_document_ids document_ids tenant_id d.versions)))
  unfolding Versions.list_for_document_ids
  versions-All document_ids document_id =
      let own =
        order_by-All (λ (w : VersionRow). In w d.versions × (w.tenant_id ≡ tenant_id)) _ _
          (keep_if-In (λ w. w.tenant_id ≡ tenant_id) _ (λ w t. ground (arith, t)) d.versions) in
      let kept =
        keep_if-All (λ (w : VersionRow). In w d.versions × (w.tenant_id ≡ tenant_id))
          (λ w. w.document_id ≡ document_id) (λ w. w.document_id == document_id)
          (λ w. (==_iff w.document_id document_id).0)
          (Versions.list_for_document_ids document_ids tenant_id d.versions) own in
      All-map (IsVersionOf d tenant_id document_id) version_of _ (
        All-imp _ (λ w. IsVersionOf d tenant_id document_id (version_of w))
          (λ w h. (w, h.0.0, h.0.1, h.1, refl)) _ kept)

  asked-Asked :
      (asked : Option ℕ) (document_id : ℕ) (ids : List ℕ)
      → All (IsAssigned d tenant_id document_id) ids
      → in_filter asked ids ≡ true
      → Asked d tenant_id document_id asked
  unfolding contains
  asked-Asked none document_id ids h e = tt
  asked-Asked (some department_id) document_id ids h e =
      let (id, assigned, t) = any-All _ _ _ h e in
      subst (IsAssigned d tenant_id document_id) ((==_iff id department_id).0 t) assigned

  is_visible-department :
      (document_ids : List ℕ) (row : DocumentRow)
      → is_visible permitted_ids asked
          (list_for_document_ids document_ids tenant_id d.assignments)
          row
        ≡ true
      → ((department : ℕ) × IsAssigned d tenant_id row.id department
          × (contains permitted_ids department ≡ true))
        × Asked d tenant_id row.id asked
  unfolding is_visible
  is_visible-department document_ids row e =
      let all_assigned = departments_of-All document_ids row.id in
      (
        any-All _ (contains permitted_ids) _ all_assigned (ground (arith, e)),
        asked-Asked asked row.id _ all_assigned (ground (arith, e)),
      )

  shown-IsShelved :
      (departments : List LibraryDepartment) (document_ids : List ℕ) (latest : Versions)
      (ids : List ℕ) (row : DocumentRow)
      → In row d.documents × (row.tenant_id ≡ tenant_id)
      → is_visible permitted_ids asked
          (list_for_document_ids document_ids tenant_id d.assignments)
          row
        ≡ true
      → IsShelved d tenant_id permitted_ids asked (
          shown departments
            (list_for_document_ids document_ids tenant_id d.assignments)
            latest
            (Versions.list_for_document_ids ids tenant_id d.versions)
            row)
  unfolding shown
  shown-IsShelved departments document_ids latest ids row (stored, own) e =
      let ((department, assigned, permitted), asked_for) =
        is_visible-department document_ids row e in
      record {
        row = row;
        stored = stored;
        in_tenant = own;
        same_document = refl;
        same_title = refl;
        same_pointer = refl;
        department = department;
        permitted = permitted;
        assigned = assigned;
        in_filter = asked_for;
        own_versions = versions-All ids row.id;
      }

  list_visible-IsShelved :
      (departments : List LibraryDepartment) (limit : ℕ)
      → All
          (IsShelved d tenant_id permitted_ids asked)
          (list_visible departments permitted_ids tenant_id asked limit d)
        × (length (list_visible departments permitted_ids tenant_id asked limit d) ≤ limit)
  unfolding list_visible
  list_visible-IsShelved departments limit =
      let document_ids =
        map (λ (row : DocumentRow). row.id) (list_for_tenant tenant_id d.documents) in
      let assignments = list_for_document_ids document_ids tenant_id d.assignments in
      let kept =
        keep_if-All (λ (row : DocumentRow). In row d.documents × (row.tenant_id ≡ tenant_id))
          (λ row. is_visible permitted_ids asked assignments row ≡ true)
          (is_visible permitted_ids asked assignments) (λ row t. t) _ candidates-All in
      let visible = take limit (
        keep_if (is_visible permitted_ids asked assignments)
          (list_for_tenant tenant_id d.documents)) in
      let ids = map (λ (row : DocumentRow). row.id) visible in
      let latest = list_latest_for_document_ids ids tenant_id d.versions in
      let view =
        shown departments assignments latest
          (Versions.list_for_document_ids ids tenant_id d.versions) in
      (
        All-map (IsShelved d tenant_id permitted_ids asked) view visible (
            All-imp _ (λ row. IsShelved d tenant_id permitted_ids asked (view row))
              (λ row h. shown-IsShelved departments document_ids latest ids row h.0 h.1) visible
              (All-take _ limit _ kept)),
        taken view limit _,
      )

-- The library shows at most the limit's number of rows. Each stands for a document of the caller's
-- tenant, with its title and its searchable version, that is assigned to a department which the
-- caller may read and to the one that is asked for, and its list of versions has versions of that
-- document in that tenant only.
pub list_documents-IsShelved :
    (name_leb : String → String → Bool) (actor : AuthorizationContext) (department_id : Option ℕ)
    (limit : ℕ) (d : Database)
    → let library = list_documents name_leb actor department_id limit d in
      All
        (IsShelved d actor.tenant_id (authorized_departments actor d) department_id)
        library.documents
      × (length library.documents ≤ limit)
unfolding list_documents
list_documents-IsShelved name_leb actor department_id limit d =
    elim (Bool-cases (is_available department_id (authorized_departments actor d))) [
      | inl t ↦ rw t (
          list_visible-IsShelved d actor.tenant_id (authorized_departments actor d) department_id
            (map department_of
              (list_by_ids name_leb actor.tenant_id (authorized_departments actor d) d.departments))
            limit)
      | inr t ↦ rw t (tt, omega arith)
    ]
