-- ===== src/Ingestion/Authorization.antt =====
-- Who may upload what.
use mathlib.Core.Path.{subst}
use document_insight.Prelude.{
  ℕ, suc, ◌≡◌, ◌≢◌, refl, inl, inr, true, false, ◌||◌, not, Option, none, some, List, [], ◌∷◌, ◌==◌,
  arith, Bool-cases, length, if◌then◌else◌,
}
use document_insight.Access.{
  AuthorizationContext, is_tenant_admin, is_viewer, is_editor, intersects, is_subset, unique,
}
use document_insight.Store.Versions.{MediaType}
use document_insight.Store.Documents
use document_insight.Store.Documents.{IsOfTenant, exists-IsOfTenant, add_many, list_department_ids}
use document_insight.Store.System.{Database, System, Result, ok, err}
use document_insight.Ingestion.Request.{
  IngestionError, invalid_department_scope, IngestDocumentCommand, check_upload,
}
use document_insight.Ingestion.Settings.{IngestionService, IngestionResult}
use document_insight.Ingestion.Service.{ingest}
use document_insight.Ingestion.Registration.{place}
use document_insight.Ingestion.Departments.{
  authorize_existing_document, new_departments, resolve_departments, or_else,
}
use document_insight.Ingestion.Outcome.{
  Outcome, refused, unannounced, unmarked, stored, ingest-Outcome,
}

-- The caller may add versions to the document: as an administrator, or by a common department.
abbrev pub MayExtend : AuthorizationContext → ℕ → Database → Type 0
MayExtend actor document_id d =
    (is_tenant_admin actor.role
      || intersects (list_department_ids document_id actor.tenant_id d.assignments)
          actor.department_ids)
    ≡ true

-- What the upload's target asks for: of a new document nothing, and of an existing one that it is of
-- the tenant and that the caller may extend it.
abbrev pub MayUpload : AuthorizationContext → Option ℕ → Database → Type 0
MayUpload actor none d = Unit
MayUpload actor (some id) d = IsOfTenant id actor.tenant_id d.documents × MayExtend actor id d

authorize-MayExtend :
    (id : ℕ) (actor : AuthorizationContext) (d : Database) {departments : List ℕ}
    → authorize_existing_document id actor d ≡ ok departments
    → MayExtend actor id d
unfolding authorize_existing_document
authorize-MayExtend id actor d e = ground (arith, e)

resolve_departments-MayExtend :
    (department_ids : List ℕ) (actor : AuthorizationContext) (d : Database) (id : ℕ)
    {departments : List ℕ}
    → resolve_departments department_ids actor d (some id) ≡ ok departments
    → (Documents.exists id actor.tenant_id d.documents ≡ true) × MayExtend actor id d
unfolding resolve_departments
resolve_departments-MayExtend department_ids actor d id e =
    elim (Bool-cases (Documents.exists id actor.tenant_id d.documents)) [
      | inl found ↦ (found, authorize-MayExtend id actor d (rw found at e))
      | inr missing ↦ cc (rw missing at e)
    ]

resolve_departments-MayUpload :
    (department_ids : List ℕ) (actor : AuthorizationContext) (d : Database) (target : Option ℕ)
    {departments : List ℕ}
    → resolve_departments department_ids actor d target ≡ ok departments
    → MayUpload actor target d
resolve_departments-MayUpload department_ids actor d none e = tt
resolve_departments-MayUpload department_ids actor d (some id) e =
    let (found, may) = resolve_departments-MayExtend department_ids actor d id e in
    (exists-IsOfTenant id actor.tenant_id d.documents found, may)

check_upload-allowed :
    (max : ℕ) (command : IngestDocumentCommand) {m : MediaType}
    → check_upload max command ≡ ok m
    → is_viewer command.actor.role ≡ false
unfolding check_upload
check_upload-allowed max command e = elim (Bool-cases (is_viewer command.actor.role)) [
  | inl viewer ↦ cc (rw viewer at e)
  | inr other ↦ other
]

-- departments of the caller's own, and one at least
Own : AuthorizationContext → Result IngestionError (List ℕ) → Type 0
Own actor (err e) = Unit
Own actor (ok ds) = (is_subset ds actor.department_ids ≡ true) × (ds ≢ [])

nonempty : (u : List ℕ) → (suc (length u) == 0) ≡ false
nonempty u = ground arith

new_departments-Own :
    (department_ids : List ℕ) (actor : AuthorizationContext) (d : Database)
    → is_editor actor.role ≡ true
    → Own actor (new_departments department_ids actor d)
unfolding new_departments Own
new_departments-Own department_ids actor d editor =
    rw editor (scoped (unique (or_else department_ids actor.department_ids)))
  where
    scoped :
        (u : List ℕ)
        → Own actor (
            if (length u == 0) || not (is_subset u actor.department_ids)
            then err invalid_department_scope
            else ok u)
    scoped [] = tt
    scoped (x ∷ u) = elim (Bool-cases (is_subset (x ∷ u) actor.department_ids)) [
      | inl own ↦ rw (nonempty u) (rw own (own, λ e. cc e))
      | inr other ↦ rw (nonempty u) (rw other tt)
    ]

module _ (service : IngestionService) (command : IngestDocumentCommand) (s : System)
    (idle : s.in_transaction ≡ false) where
  -- A successful upload, outside a transaction, was no viewer's, and one to an existing document was
  -- to one of the caller's tenant, by an administrator or by a member of one of its departments.
  pub ingest-MayExtend :
      (r : IngestionResult) (s' : System)
      → ingest service command s ≡ (ok r, s')
      → (is_viewer command.actor.role ≡ false)
        × MayUpload command.actor command.document_id s.working
  ingest-MayExtend r s' h = go (ingest service command s) (ingest-Outcome service command s idle) h
    where
      go :
          (x : Result IngestionError IngestionResult × System)
          → Outcome service command s x
          → x ≡ (ok r, s')
          → (is_viewer command.actor.role ≡ false)
            × MayUpload command.actor command.document_id s.working
      go _ (refused e0 s0 durable objects queue) h = cc
      go _ (unannounced g) h = cc
      go _ (unmarked g) h = cc
      go _ (stored g) h = (
        check_upload-allowed service.max_upload_bytes command g.checked,
        resolve_departments-MayUpload command.department_ids command.actor s.working
            command.document_id g.resolved,
      )

  -- A successful upload of an editor's new document, outside a transaction, assigns the document to
  -- departments of the editor's own, and to one at least.
  pub ingest-assigned :
      (r : IngestionResult) (s' : System)
      → ingest service command s ≡ (ok r, s')
      → command.document_id ≡ none
      → is_editor command.actor.role ≡ true
      → (departments : List ℕ) × (s'.durable.assignments
          ≡ add_many r.document_id command.actor.tenant_id departments s.working.assignments)
        × (is_subset departments command.actor.department_ids ≡ true)
        × (departments ≢ [])
  unfolding place Own resolve_departments
  ingest-assigned r s' h target editor =
      subst Assigned h (go (ingest service command s) (ingest-Outcome service command s idle))
    where
      Assigned : Result IngestionError IngestionResult × System → Type 0
      Assigned (err e, s') = Unit
      Assigned (ok r, s') =
          (departments : List ℕ) × (s'.durable.assignments
            ≡ add_many r.document_id command.actor.tenant_id departments s.working.assignments)
          × (is_subset departments command.actor.department_ids ≡ true)
          × (departments ≢ [])

      placed_of : List ℕ → Result IngestionError (ℕ × Database) → Type 0
      placed_of departments (err e) = Unit
      placed_of departments (ok (n, d)) =
          d.assignments
          ≡ add_many service.new_document_id command.actor.tenant_id departments
              s.working.assignments

      go :
          (x : Result IngestionError IngestionResult × System)
          → Outcome service command s x
          → Assigned x
      go _ (refused e0 s0 durable objects queue) = tt
      go _ (unannounced g) = tt
      go _ (unmarked g) = tt
      go _ (stored g) =
          let (own, some_one) =
            subst (Own command.actor) (rw target at g.resolved)
              (new_departments-Own command.department_ids command.actor s.working editor) in
          (
            g.departments,
            rw target (subst (placed_of g.departments) (rw target at g.places) refl),
            own,
            some_one,
          )
