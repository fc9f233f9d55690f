-- ===== src/Library/Pointers.antt =====
-- The searchable version of each document is a ready version of that document.
use mathlib.Core.Path.{subst}
use document_insight.Prelude.{
  ℕ, ◌≡◌, refl, sym, inl, inr, true, false, Option, none, some, Bool-cases, ◌&&◌, ◌==◌, arith, All,
  update_where, All-update_where,
}
use document_insight.Access.{AuthorizationContext, is_tenant_admin}
use document_insight.Store.Versions.{get_for_activation}
use document_insight.Store.Documents.{
  DocumentRow, IsOfTenant, exists-IsOfTenant, of_tenant, lock, set_current_ready_version_id,
}
use document_insight.Store.System.{Database, System, Result, ok, err, end_block, settle}
use document_insight.Library.Visibility.{IsReadyOf, get_for_activation-IsReadyOf}
use document_insight.Library.Activation.{
  activate_version, select_version, check_candidate, ActivationError,
}

-- Each document that points to a version points to a ready one of its own, in its tenant.
abbrev pub PointersReady : Database → Type 0
PointersReady d =
    All
      (λ (row : DocumentRow).
        (v : ℕ) → row.current_ready_version_id ≡ some v → IsReadyOf row.id v row.tenant_id d)
      d.documents

module _ (document_id version_id : ℕ) (actor : AuthorizationContext) where
  -- the tables with that one pointer moved
  abbrev pub activated : Database → Database
  activated d = record d {
    documents =
        update_where (λ row. (row.id == document_id) && (row.tenant_id == actor.tenant_id))
          (λ row. record row { current_ready_version_id = some version_id }) d.documents;
  }

  -- What a committed activation has checked, and what it has written.
  abbrev pub Activated : Database → Database → Type 0
  Activated d d' =
      IsOfTenant document_id actor.tenant_id d.documents
      × IsReadyOf document_id version_id actor.tenant_id d
      × (d' ≡ activated d)

  Selected : Database → Result ActivationError (Unit {0} × Database) → Type 0
  Selected d (err e) = Unit
  Selected d (ok (u, d')) = Activated d d'

  select_version-Selected :
      (d : Database) → Selected d (select_version document_id version_id actor d)
  unfolding Selected select_version set_current_ready_version_id lock
  select_version-Selected d = elim (Bool-cases (lock document_id actor.tenant_id d.documents)) [
    | inr missing ↦ rw missing tt
    | inl found ↦ rw found (chosen found _ refl)
  ]
    where
      chosen :
          lock document_id actor.tenant_id d.documents ≡ true
          → (verdict : Option ActivationError)
          → check_candidate document_id (get_for_activation version_id actor.tenant_id d.versions)
            ≡ verdict
          → Selected d (elim verdict [ some e ↦ err e | none ↦ ok (tt, activated d) ])
      chosen found none e = (
        exists-IsOfTenant document_id actor.tenant_id d.documents found,
        get_for_activation-IsReadyOf document_id version_id actor.tenant_id d e,
        refl,
      )
      chosen found (some x) e = tt

  Committed : System → Result ActivationError (Unit {0}) × System → Type 0
  Committed s (err e, s') = Unit
  Committed s (ok u, s') = (is_tenant_admin actor.role ≡ true) × Activated s.working s'.durable

  activate_version-Committed :
      (s : System)
      → s.in_transaction ≡ false
      → Committed s (activate_version document_id version_id actor s)
  unfolding Committed activate_version Selected
  activate_version-Committed s idle = elim (Bool-cases (is_tenant_admin actor.role)) [
    | inr other ↦ rw other tt
    | inl admin ↦ simp (admin, idle) (settled admin _ (select_version-Selected s.working))
  ]
    where
      settled :
          is_tenant_admin actor.role ≡ true
          → (r : Result ActivationError (Unit {0} × Database)) → Selected s.working r
          → Committed s (end_block (settle r (record s { in_transaction = true })))
      settled admin (err e) h = tt
      settled admin (ok (u, d')) h = (admin, h)

-- An activation that succeeds outside a transaction was an administrator's, of a document of the
-- tenant and a ready version of it, and changes the database in nothing but that document's pointer.
pub activate_version-Activated :
    (document_id version_id : ℕ) (actor : AuthorizationContext) (s s' : System)
    → s.in_transaction ≡ false
    → activate_version document_id version_id actor s ≡ (ok tt, s')
    → (is_tenant_admin actor.role ≡ true)
      × Activated document_id version_id actor s.working s'.durable
unfolding Committed
activate_version-Activated document_id version_id actor s s' idle e =
    subst (Committed document_id version_id actor s) e
      (activate_version-Committed document_id version_id actor s idle)

repointed :
    (document_id version_id : ℕ) (actor : AuthorizationContext) (d : Database)
    → IsReadyOf document_id version_id actor.tenant_id d
    → PointersReady d
    → PointersReady (activated document_id version_id actor d)
repointed document_id version_id actor d (v, member, own, document, tenant, is_ready) h =
    All-update_where _ (of_tenant document_id actor.tenant_id)
      (λ row. record row { current_ready_version_id = some version_id })
      (λ row e old w same. (
        v,
        member,
        cc (own, same),
        ground (arith, e, document),
        ground (arith, e, tenant),
        is_ready,
      ))
      d.documents h

-- Every activation that succeeds outside a transaction keeps each document's pointer on a ready
-- version of that document, if each was on one.
pub activate_version-PointersReady :
    (document_id version_id : ℕ) (actor : AuthorizationContext) (s s' : System)
    → s.in_transaction ≡ false
    → PointersReady s.working
    → activate_version document_id version_id actor s ≡ (ok tt, s')
    → PointersReady s'.durable
activate_version-PointersReady document_id version_id actor s s' idle h e =
    let (_, (_, ready, changed)) =
      activate_version-Activated document_id version_id actor s s' idle e in
    subst PointersReady (sym changed) (repointed document_id version_id actor s.working ready h)
