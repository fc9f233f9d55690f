-- ===== src/Library/Activation.antt =====
-- `DocumentLibraryService.activate_version` (application/documents/service.py).
use document_insight.Prelude.{ℕ, Bool, true, false, Option, none, some, ◌==◌, if◌then◌else◌}
use document_insight.Access.{AuthorizationContext, is_tenant_admin}
use document_insight.Store.Versions.{VersionStatus, ActivatableDocumentVersion, get_for_activation}
use document_insight.Store.Documents
use document_insight.Store.Documents.{DocumentRow, of_tenant}
use document_insight.Store.System.{Database, Result, ok, err, Action, raise, transact}

pub data ActivationError : Type 0 where
  document_activation_forbidden document_not_found document_version_not_ready : ActivationError
  invalid_request : ActivationError

abbrev pub is_ready : VersionStatus → Bool
is_ready VersionStatus.ready = true
is_ready _ = false

-- what the candidate decides
unfoldable pub check_candidate : ℕ → Option ActivatableDocumentVersion → Option ActivationError
check_candidate document_id none = some document_not_found
check_candidate document_id (some candidate) =
    if candidate.document_id == document_id
    then (if is_ready candidate.status then none else some document_version_not_ready)
    else some document_not_found

-- the transaction
unfoldable pub select_version :
    ℕ → ℕ → AuthorizationContext → Database → Result ActivationError (Unit {0} × Database)
unfolding check_candidate
select_version document_id version_id actor d =
    if Documents.lock document_id actor.tenant_id d.documents
    then elim (check_candidate document_id
        (get_for_activation version_id actor.tenant_id d.versions)) [
          | some e ↦ err e
          | none ↦ ok (
            tt,
            record d {
              documents =
                  Documents.set_current_ready_version_id document_id actor.tenant_id version_id
                    d.documents;
            },
          )
        ]
    else err document_not_found

unfoldable pub activate_version : ℕ → ℕ → AuthorizationContext → Action ActivationError (Unit {0})
unfolding select_version
activate_version document_id version_id actor =
    if is_tenant_admin actor.role
    then transact invalid_request (select_version document_id version_id actor)
    else raise document_activation_forbidden
