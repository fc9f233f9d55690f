-- ===== src/Approval/Installation.antt =====
-- What an activation leaves: the pointer, its audit row and a profile that resolves
-- (application/configuration/approval.py).
use mathlib.Core.Path.{subst}
use document_insight.Prelude.{ℕ, ◌+◌, ◌≡◌, refl, sym, false, Option, some, [], ◌∷◌, ◌++◌}
use document_insight.Chunker.Text.{Text, strip}
use document_insight.Configuration.Profiles.{ProfileActivation, Profiles, create_activation}
use document_insight.Configuration.Resolver.{bind-some, resolve}
use document_insight.Query.Resolver.{resolve_query}
use document_insight.Store.Active.{platform, ProfileKind, ingestion, query, ActiveProfile, get}
use document_insight.Store.System.{Database, System, ok}
use document_insight.Approval.Evidence.{ApprovalService}
use document_insight.Approval.Validation.{require_query, require_ingestion}
use document_insight.Approval.Checks.{require_bundle}
use document_insight.Approval.Pointer.{get-activate}
use document_insight.Approval.Resolution.{
  Resolves, require_query-Resolves, require_ingestion-Resolves,
}
use document_insight.Approval.Service.{switch_pointer, activate}
use document_insight.Approval.Activation.{activate-Switched}

-- The profile resolves: for a query, or for the worker.
abbrev pub Serves : ProfileKind → ℕ → Profiles → Type 0
Serves query profile_id profiles = Resolves (resolve_query profile_id profiles)
Serves ingestion profile_id profiles = Resolves (resolve profiles profile_id)

require_bundle-Serves :
    (service : ApprovalService) (kind : ProfileKind) (profile_id : ℕ)
    (active_ingestion active_query : Option ActiveProfile) (d : Database)
    → require_bundle service kind profile_id active_ingestion active_query d ≡ some tt
    → Serves kind profile_id d.profiles
unfolding require_bundle
require_bundle-Serves service query profile_id active_ingestion active_query d e =
    let (target, required, _) =
      bind-some (require_query service.mistral_available d.profiles profile_id) _ e in
    require_query-Resolves service.mistral_available d.profiles profile_id target required
require_bundle-Serves service ingestion profile_id active_ingestion active_query d e =
    let (target, required, _) =
      bind-some (require_ingestion service.mistral_available d.profiles profile_id) _ e in
    require_ingestion-Resolves service.mistral_available d.profiles profile_id target required

-- An audit row changes nothing that a resolver reads.
Serves-create_activation :
    (kind : ProfileKind) (profile_id : ℕ) (activation : ProfileActivation) (profiles : Profiles)
    → Serves kind profile_id profiles
    → Serves kind profile_id (create_activation activation profiles)
unfolding create_activation resolve_query resolve
Serves-create_activation query profile_id activation profiles h = h
Serves-create_activation ingestion profile_id activation profiles h = h

abbrev pub audit : ProfileKind → ActiveProfile → ℕ → ℕ → Text → ProfileActivation
audit kind current profile_id actor_id reason = record {
  scope = platform;
  kind = kind;
  previous_profile_id = some current.profile_id;
  new_profile_id = profile_id;
  actor_id = actor_id;
  reason = strip reason;
  revision = current.revision + 1;
}

-- What an activation gives: from a pointer with the expected revision, the pointer with the next
-- revision on a profile that resolves, and one more audit row, which names both profiles.
abbrev pub Installed :
    ProfileKind → ℕ → ℕ → ℕ → Text → ActiveProfile → Database → ℕ → Database → Type 0
Installed kind profile_id expected_revision actor_id reason current d revision d' =
    (get platform kind d.active_profiles ≡ some current)
    × (current.revision ≡ expected_revision)
    × (revision ≡ expected_revision + 1)
    × (get platform kind d'.active_profiles
        ≡ some (record { profile_id = profile_id; revision = revision }))
    × (d'.profiles.activations
        ≡ d.profiles.activations ++ audit kind current profile_id actor_id reason ∷ [])
    × Serves kind profile_id d'.profiles

switch_pointer-Installed :
    (kind : ProfileKind) (profile_id actor_id : ℕ) (reason : Text) (current : ActiveProfile)
    (d : Database)
    → get platform kind d.active_profiles ≡ some current
    → Serves kind profile_id d.profiles
    → let r = switch_pointer platform kind current profile_id actor_id reason d in
      Installed kind profile_id current.revision actor_id reason current d r.0 r.1
unfolding switch_pointer create_activation
switch_pointer-Installed kind profile_id actor_id reason current d pointer serves = (
  pointer,
  refl,
  refl,
  get-activate platform kind profile_id d.active_profiles pointer,
  refl,
  Serves-create_activation kind profile_id (audit kind current profile_id actor_id reason)
      d.profiles serves,
)

-- An activation that succeeds outside a transaction found the platform's pointer of the kind with the
-- expected revision, moves it to the profile with the next revision, which it returns, and adds one
-- audit row with the profile of the pointer before; the new profile resolves in the tables that it
-- leaves.
pub activate-Installed :
    (service : ApprovalService) (kind : ProfileKind) (profile_id expected_revision actor_id : ℕ)
    (reason : Text) (s s' : System) (revision : ℕ)
    → s.in_transaction ≡ false
    → activate service kind profile_id expected_revision actor_id reason s ≡ (ok revision, s')
    → (current : ActiveProfile) × Installed kind profile_id expected_revision actor_id reason
        current s.working revision s'.durable
activate-Installed service kind profile_id expected_revision actor_id reason s s' revision idle e =
    let (current, switch) =
      activate-Switched service kind profile_id expected_revision actor_id reason s s' revision idle
        e in
    let serves = require_bundle-Serves service kind profile_id _ _ s.working switch.bundle in
    let installed =
      switch_pointer-Installed kind profile_id actor_id reason current s.working switch.pointer
        serves in
    (
      current,
      subst (λ n. Installed kind profile_id n actor_id reason current s.working revision s'.durable)
          switch.expected
          (subst
            (λ r.
              Installed kind profile_id current.revision actor_id reason current s.working r.0 r.1)
            (sym switch.result) installed),
    )
