-- ===== src/Approval/Service.antt =====
-- `activate` and `select_evaluation_ingestion` of `ProfileApprovalService`
-- (application/configuration/approval.py), over the tables of the database.
use document_insight.Prelude.{
  ℕ, ◌+◌, Bool, not, ◌&&◌, ◌||◌, ◌==◌, ltb, length, Option, none, some, if◌then◌else◌,
}
use document_insight.Chunker.Text.{Text, strip}
use document_insight.Configuration.Profiles.{create_activation}
use document_insight.Store.Active
use document_insight.Store.Active.{
  Scope, platform, evaluation, ProfileKind, ingestion, query, ActiveProfile, get,
  create_evaluation_ingestion,
}
use document_insight.Store.System.{Database, Result, ok, err, Action, raise, transact}
use document_insight.Evaluation.GateReview.{is_empty}
use document_insight.Approval.Validation.{guard, require_ingestion}
use document_insight.Approval.Evidence.{ApprovalService, is_id}
use document_insight.Approval.Checks.{require_review, require_bundle}

-- `invalid_request` is SQLAlchemy's refusal of a second `begin()`, `integrity_error` the database's of a
-- second row under a unique constraint.
pub data ApprovalError : Type 0 where
  invalid_profile_proposal profile_revision_conflict : ApprovalError
  invalid_request integrity_error : ApprovalError

infixl 5 ◌>>=◌
abbrev pub ◌>>=◌ : {A B : Type 0} → Option A → (A → Result ApprovalError B) → Result ApprovalError B
none >>= f = err invalid_profile_proposal
some a >>= f = f a

abbrev pub reason_is_valid : Text → Bool
reason_is_valid reason = not (is_empty (strip reason) || ltb 512 (length reason))

-- the audited switch of a pointer that is there
unfoldable pub switch_pointer :
    Scope → ProfileKind → ActiveProfile → ℕ → ℕ → Text → Database → ℕ × Database
unfolding Active.activate create_activation
switch_pointer scope kind current profile_id actor_id reason d = (
  current.revision + 1,
  record d {
    active_profiles = Active.activate scope kind profile_id current.revision d.active_profiles;
    profiles =
        create_activation
          (record {
            scope = scope;
            kind = kind;
            previous_profile_id = some current.profile_id;
            new_profile_id = profile_id;
            actor_id = actor_id;
            reason = strip reason;
            revision = current.revision + 1;
          })
          d.profiles;
  },
)

abbrev pub current_with : ℕ → Option ActiveProfile → Option ActiveProfile
current_with expected_revision none = none
current_with expected_revision (some current) =
    if current.revision == expected_revision then some current else none

module _ (service : ApprovalService) where
  -- after the pointer is read and its revision agrees
  unfoldable pub switch_profile :
      ProfileKind → ℕ → ActiveProfile → ℕ → Text → Database → Result ApprovalError (ℕ × Database)
  unfolding require_review require_bundle switch_pointer
  switch_profile kind profile_id current actor_id reason d = do
    let active_ingestion = get platform ingestion d.active_profiles
    let active_query = get platform query d.active_profiles
    _ ← guard (not (current.profile_id == profile_id))
    _ ← require_review service kind profile_id current active_query
    _ ← require_bundle service kind profile_id active_ingestion active_query d
    ok (switch_pointer platform kind current profile_id actor_id reason d)

  abbrev pub switch_current :
      ProfileKind
      → ℕ
      → ℕ
      → Text
      → Option ActiveProfile
      → Database
      → Result ApprovalError (ℕ × Database)
  switch_current kind profile_id actor_id reason none d = err profile_revision_conflict
  switch_current kind profile_id actor_id reason (some current) d =
      switch_profile kind profile_id current actor_id reason d

  -- the transaction
  unfoldable pub activate_profile :
      ProfileKind → ℕ → ℕ → ℕ → Text → Database → Result ApprovalError (ℕ × Database)
  unfolding switch_profile
  activate_profile kind profile_id expected_revision actor_id reason d =
      switch_current kind profile_id actor_id reason
        (current_with expected_revision (get platform kind d.active_profiles)) d

  -- The kind is one of the two by its type.
  unfoldable pub activate : ProfileKind → ℕ → ℕ → ℕ → Text → Action ApprovalError ℕ
  unfolding activate_profile
  activate kind profile_id expected_revision actor_id reason =
      if reason_is_valid reason
      then transact invalid_request
          (activate_profile kind profile_id expected_revision actor_id reason)
      else raise invalid_profile_proposal

  -- the first selection of the tenant, which its pointer is made with
  unfoldable pub select_first :
      ℕ → ℕ → ℕ → ℕ → Text → Database → Result ApprovalError (ℕ × Database)
  unfolding create_evaluation_ingestion create_activation get
  select_first tenant_id profile_id expected_revision actor_id reason d =
      if expected_revision == 0
      then (do
        baseline ← get platform ingestion d.active_profiles
        ok (
          1,
          record d {
            active_profiles = create_evaluation_ingestion tenant_id profile_id d.active_profiles;
            profiles =
                create_activation
                  (record {
                    scope = evaluation tenant_id;
                    kind = ingestion;
                    previous_profile_id = some baseline.profile_id;
                    new_profile_id = profile_id;
                    actor_id = actor_id;
                    reason = strip reason;
                    revision = 1;
                  })
                  d.profiles;
          },
        ))
      else err profile_revision_conflict

  unfoldable pub select_next :
      ℕ → ℕ → ActiveProfile → ℕ → ℕ → Text → Database → Result ApprovalError (ℕ × Database)
  unfolding switch_pointer
  select_next tenant_id profile_id current expected_revision actor_id reason d =
      if current.revision == expected_revision
      then (if current.profile_id == profile_id
          then err invalid_profile_proposal
          else ok (
              switch_pointer (evaluation tenant_id) ingestion current profile_id actor_id reason d))
      else err profile_revision_conflict

  -- the transaction
  unfoldable pub select_ingestion :
      ℕ → ℕ → ℕ → ℕ → Text → Database → Result ApprovalError (ℕ × Database)
  unfolding require_ingestion select_first select_next get
  select_ingestion tenant_id profile_id expected_revision actor_id reason d = do
    _ ← require_ingestion service.mistral_available d.profiles profile_id
    elim (get (evaluation tenant_id) ingestion d.active_profiles) [
      | none ↦ select_first tenant_id profile_id expected_revision actor_id reason d
      | some current ↦ select_next tenant_id profile_id current expected_revision actor_id reason d
    ]

  -- A negative revision is none of ℕ.
  unfoldable pub select_evaluation_ingestion : ℕ → ℕ → ℕ → ℕ → Text → Action ApprovalError ℕ
  unfolding select_ingestion
  select_evaluation_ingestion tenant_id profile_id expected_revision actor_id reason =
      if is_id tenant_id service.evaluation_tenant_id && reason_is_valid reason
      then transact invalid_request
          (select_ingestion tenant_id profile_id expected_revision actor_id reason)
      else raise invalid_profile_proposal
