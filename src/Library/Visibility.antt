-- ===== src/Library/Visibility.antt =====
-- What activation and the job view let through.
use mathlib.Core.Option
use mathlib.Core.Path.{subst}
use document_insight.Prelude.{
  ℕ, ◌≡◌, refl, inl, inr, Bool, true, false, ◌&&◌, ◌||◌, Option, none, some, ◌==◌, if◌then◌else◌,
  Option-cases, arith, first_where, first_where-passes, In, first_where-In,
}
use document_insight.Access.{AuthorizationContext, is_tenant_admin, intersects}
use document_insight.Job.Model.{JobRow}
use document_insight.Job.Repository
use document_insight.Store.Versions
use document_insight.Store.Versions.{
  VersionRow, VersionStatus, ActivatableDocumentVersion, get_for_activation,
}
use document_insight.Store.Documents.{list_department_ids}
use document_insight.Store.System.{Database}
use document_insight.Library.JobView.{Job, get_job, view_job, job_of}
use document_insight.Library.Activation.{check_candidate}

-- the caller's right to see the document
abbrev pub MaySee : AuthorizationContext → ℕ → Database → Type 0
MaySee actor document_id d =
    (is_tenant_admin actor.role
      || intersects (list_department_ids document_id actor.tenant_id d.assignments)
          actor.department_ids)
    ≡ true

-- what is shown of a job comes out of one row of the table, and the caller may see its document
abbrev pub Shown : ℕ → AuthorizationContext → Database → Job → Type 0
Shown job_id actor d job =
    (row : JobRow) × In row d.jobs
    × (row.id ≡ job_id)
    × (row.tenant_id ≡ actor.tenant_id)
    × (job.job_id ≡ row.id)
    × (job.status ≡ row.status)
    × (Versions.get_document_id row.document_version_id actor.tenant_id d.versions
        ≡ some job.document_id)
    × MaySee actor job.document_id d

AllSome : {A : Type 0} → (A → Type 0) → Option A → Type 0
AllSome P none = Unit
AllSome P (some a) = P a

AllSome-if :
    {A : Type 0} (P : A → Type 0) (b : Bool) (a : A)
    → (b ≡ true → P a)
    → AllSome P (if b then some a else none)
unfolding AllSome
AllSome-if P true a f = f refl
AllSome-if P false a f = tt

module _ (job_id : ℕ) (actor : AuthorizationContext) (d : Database) where
  view_job-Shown :
      (row : JobRow)
      → In row d.jobs
      → row.id ≡ job_id
      → row.tenant_id ≡ actor.tenant_id
      → (document : Option ℕ)
      → Versions.get_document_id row.document_version_id actor.tenant_id d.versions ≡ document
      → AllSome (Shown job_id actor d) (view_job (Repository.to_record row) document actor d)
  unfolding AllSome view_job Repository.to_record
  view_job-Shown row member own tenant none e = tt
  view_job-Shown row member own tenant (some document_id) e =
      AllSome-if (Shown job_id actor d) _ (job_of (Repository.to_record row) document_id)
        (λ may. (row, member, own, tenant, refl, refl, e, may))

  found-Shown :
      (found : Option JobRow)
      → first_where
          (λ (job : JobRow). (job.id == job_id) && (job.tenant_id == actor.tenant_id))
          d.jobs
        ≡ found
      → AllSome (Shown job_id actor d) (elim (Option.map Repository.to_record found) [
        | none ↦ none
        | some job ↦
            view_job job
              (Versions.get_document_id job.document_version_id actor.tenant_id d.versions)
              actor
              d
      ])
  unfolding AllSome Repository.to_record
  found-Shown none e = tt
  found-Shown (some row) e =
      let passes =
        first_where-passes
          (λ (job : JobRow). (job.id == job_id) && (job.tenant_id == actor.tenant_id)) d.jobs e in
      let member =
        first_where-In (λ (job : JobRow). (job.id == job_id) && (job.tenant_id == actor.tenant_id))
          d.jobs e in
      view_job-Shown row member (ground (arith, passes)) (ground (arith, passes)) _ refl

  get_job-AllSome : AllSome (Shown job_id actor d) (get_job job_id actor d)
  unfolding get_job Repository.get
  get_job-AllSome = found-Shown _ refl

-- A job is shown only out of a row of the caller's tenant with the id asked for, together with the
-- document of its version in that tenant, and only to an administrator or to a member of one of the
-- document's departments.
pub get_job-Shown :
    (job_id : ℕ) (actor : AuthorizationContext) (d : Database) (job : Job)
    → get_job job_id actor d ≡ some job
    → Shown job_id actor d job
unfolding AllSome
get_job-Shown job_id actor d job e =
    subst (AllSome (Shown job_id actor d)) e (get_job-AllSome job_id actor d)

-- the version that a document points to: a row of the table
abbrev pub IsReadyOf : ℕ → ℕ → ℕ → Database → Type 0
IsReadyOf document_id version_id tenant_id d =
    (row : VersionRow) × In row d.versions
    × (row.id ≡ version_id)
    × (row.document_id ≡ document_id)
    × (row.tenant_id ≡ tenant_id)
    × (row.status ≡ VersionStatus.ready)

pub get_for_activation-IsReadyOf :
    (document_id version_id tenant_id : ℕ) (d : Database)
    → check_candidate document_id (get_for_activation version_id tenant_id d.versions) ≡ none
    → IsReadyOf document_id version_id tenant_id d
unfolding check_candidate get_for_activation
get_for_activation-IsReadyOf document_id version_id tenant_id d e =
    elim (Option-cases (
      first_where (λ (v : VersionRow). (v.id == version_id) && (v.tenant_id == tenant_id))
        d.versions)) [
          | inl missing ↦ cc (rw missing at e)
          | inr (row, found) ↦
              let passes =
                first_where-passes
                  (λ (v : VersionRow). (v.id == version_id) && (v.tenant_id == tenant_id))
                  d.versions found in
              let decided = rw found at e in
              (
                row,
                first_where-In
                    (λ (v : VersionRow). (v.id == version_id) && (v.tenant_id == tenant_id))
                    d.versions found,
                ground (arith, passes),
                ground (arith, decided),
                ground (arith, passes),
                ground (arith, decided),
              )
        ]
