-- ===== src/Store/Documents.antt =====
-- `documents`, `departments` and `document_departments` with their repositories
-- (infrastructure/document/, infrastructure/department/, infrastructure/document_department/).
use Prim.Native.String.{String}
use document_insight.Chunker.Text.{Text}
use document_insight.Prelude.{
  ℕ, ◌≡◌, inl, inr, true, arith, In, Option-cases, first_where-In, first_where-passes, Bool, ◌&&◌,
  Option, none, some, List, [], ◌∷◌, ◌++◌, ◌==◌, map, any, keep_if, first_where, update_where, leb,
  order_by,
}
use document_insight.Store.Extracted.{is_some}

pub record DocumentRow : Type 0 where
  pub id : ℕ
  pub tenant_id : ℕ
  pub title : Text
  pub created_by : ℕ
  pub current_ready_version_id : Option ℕ
  pub created_at : ℕ

pub record DepartmentRow : Type 0 where
  pub id : ℕ
  pub tenant_id : ℕ
  pub name : String

pub record AssignmentRow : Type 0 where
  pub document_id : ℕ
  pub department_id : ℕ
  pub tenant_id : ℕ

abbrev pub of_tenant : ℕ → ℕ → DocumentRow → Bool
of_tenant document_id tenant_id row = (row.id == document_id) && (row.tenant_id == tenant_id)

unfoldable pub exists : ℕ → ℕ → List DocumentRow → Bool
exists document_id tenant_id rows = is_some (first_where (of_tenant document_id tenant_id) rows)

-- A document of the tenant with the id is stored.
abbrev pub IsOfTenant : ℕ → ℕ → List DocumentRow → Type 0
IsOfTenant document_id tenant_id rows =
    (row : DocumentRow) × In row rows × (row.id ≡ document_id) × (row.tenant_id ≡ tenant_id)

pub exists-IsOfTenant :
    (document_id tenant_id : ℕ) (rows : List DocumentRow)
    → exists document_id tenant_id rows ≡ true
    → IsOfTenant document_id tenant_id rows
unfolding exists
exists-IsOfTenant document_id tenant_id rows e =
    elim (Option-cases (first_where (of_tenant document_id tenant_id) rows)) [
      | inl missing ↦ absurd (cc (rw missing at e))
      | inr (row, found) ↦
          let own = first_where-passes (of_tenant document_id tenant_id) rows found in
          (
            row,
            first_where-In (of_tenant document_id tenant_id) rows found,
            ground (arith, own),
            ground (arith, own),
          )
    ]

-- `SELECT … FOR UPDATE`; one transaction runs at a time here
unfoldable pub lock : ℕ → ℕ → List DocumentRow → Bool
unfolding exists
lock = exists

unfoldable pub create : ℕ → ℕ → Text → ℕ → ℕ → List DocumentRow → List DocumentRow
create document_id tenant_id title created_by now rows =
    rows
    ++ record {
      id = document_id;
      tenant_id = tenant_id;
      title = title;
      created_by = created_by;
      current_ready_version_id = none;
      created_at = now;
    }
      ∷ []

unfoldable pub set_current_ready_version_id : ℕ → ℕ → ℕ → List DocumentRow → List DocumentRow
set_current_ready_version_id document_id tenant_id document_version_id =
    update_where (of_tenant document_id tenant_id)
      (λ row. record row { current_ready_version_id = some document_version_id })

-- the ids in a list, as Python's `in`
unfoldable pub contains : List ℕ → ℕ → Bool
contains xs x = any (λ y. y == x) xs

unfoldable pub existing_ids : ℕ → List ℕ → List DepartmentRow → List ℕ
unfolding contains
existing_ids tenant_id department_ids rows =
    map (λ row. row.id)
      (keep_if (λ row. (row.tenant_id == tenant_id) && contains department_ids row.id) rows)

unfoldable pub list_all_ids : ℕ → List DepartmentRow → List ℕ
list_all_ids tenant_id rows = map (λ row. row.id) (keep_if (λ row. row.tenant_id == tenant_id) rows)

unfoldable pub list_department_ids : ℕ → ℕ → List AssignmentRow → List ℕ
list_department_ids document_id tenant_id rows =
    map (λ row. row.department_id)
      (keep_if (λ row. (row.document_id == document_id) && (row.tenant_id == tenant_id)) rows)

unfoldable pub add_many : ℕ → ℕ → List ℕ → List AssignmentRow → List AssignmentRow
add_many document_id tenant_id department_ids rows =
    rows
    ++ map (λ d. record { document_id = document_id; department_id = d; tenant_id = tenant_id })
        department_ids

-- newest first
unfoldable pub list_for_tenant : ℕ → List DocumentRow → List DocumentRow
unfolding order_by
list_for_tenant tenant_id rows =
    order_by (λ row other. leb other.created_at row.created_at)
      (keep_if (λ row. row.tenant_id == tenant_id) rows)

-- by name, in the order of the database's collation
unfoldable pub list_by_ids :
    (String → String → Bool) → ℕ → List ℕ → List DepartmentRow → List DepartmentRow
unfolding order_by contains
list_by_ids name_leb tenant_id department_ids rows =
    order_by (λ row other. name_leb row.name other.name)
      (keep_if (λ row. (row.tenant_id == tenant_id) && contains department_ids row.id) rows)

unfoldable pub list_for_document_ids : List ℕ → ℕ → List AssignmentRow → List AssignmentRow
unfolding contains
list_for_document_ids document_ids tenant_id rows =
    keep_if (λ row. contains document_ids row.document_id && (row.tenant_id == tenant_id)) rows
