-- ===== src/Approval/Checks.antt =====
-- The two checks of an activation, in the transaction of `activate`
-- (application/configuration/approval.py).
use document_insight.Prelude.{ℕ, Option, none, some, List, [], ◌∷◌}
use document_insight.Store.Generations.{referenced_ingestion_profile_ids}
use document_insight.Store.Active.{ProfileKind, ingestion, query, ActiveProfile}
use document_insight.Store.System.{Database}
use document_insight.Configuration.Resolver.{◌>>=◌}
use document_insight.Evaluation.RunTable.{Runs}
use document_insight.Approval.Validation.{
  require_ingestion, require_query, require_ingestions, require_cohorts,
}
use document_insight.Approval.Evidence.{
  ApprovalService, require_approved_evaluation, require_approved_ingestion_evaluation,
}

abbrev pub add_active : Option ActiveProfile → List ℕ → List ℕ
add_active none ids = ids
add_active (some active) ids = active.profile_id ∷ ids

module _ (service : ApprovalService) where
  abbrev pub reviewed :
      Runs → ProfileKind → ℕ → ActiveProfile → Option ActiveProfile → Option (Unit {0})
  reviewed runs query profile_id current active_query =
      require_approved_evaluation service.evaluation_reviews runs profile_id current.profile_id
  reviewed runs ingestion profile_id current none = some tt
  reviewed runs ingestion profile_id current (some active_query) =
      require_approved_ingestion_evaluation service.evaluation_reviews service.evaluation_tenant_id
        runs profile_id current.profile_id active_query.profile_id

  -- `if self._evaluation_runs is not None`
  unfoldable pub require_review :
      ProfileKind → ℕ → ActiveProfile → Option ActiveProfile → Option (Unit {0})
  unfolding require_approved_evaluation require_approved_ingestion_evaluation
  require_review kind profile_id current active_query = elim service.evaluation_runs [
    | none ↦ some tt
    | some runs ↦ reviewed runs kind profile_id current active_query
  ]

  -- the bundle itself, and its cohorts with those that it has to go with
  unfoldable pub require_bundle :
      ProfileKind → ℕ → Option ActiveProfile → Option ActiveProfile → Database → Option (Unit {0})
  unfolding require_ingestion require_query require_ingestions require_cohorts
      referenced_ingestion_profile_ids
  require_bundle ingestion profile_id active_ingestion active_query d = do
    target ← require_ingestion service.mistral_available d.profiles profile_id
    active ← active_query
    target_query ← require_query service.mistral_available d.profiles active.profile_id
    require_cohorts target_query (target ∷ [])
  require_bundle query profile_id active_ingestion active_query d = do
    target ← require_query service.mistral_available d.profiles profile_id
    ingestions ←
        require_ingestions service.mistral_available d.profiles
          (add_active active_ingestion (referenced_ingestion_profile_ids d.generations))
    require_cohorts target ingestions
