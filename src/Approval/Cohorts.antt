-- ===== src/Approval/Cohorts.antt =====
-- The read cohorts of the active query profile cover the indexes that there are
-- (`_require_cohorts`, application/configuration/approval.py).
use mathlib.Core.Path.{subst}
use document_insight.Prelude.{
  ℕ, ◌≡◌, refl, sym, ap, ◌∙◌, true, false, Option, none, some, List, arith, all, All,
}
use document_insight.Chunker.Text.{Text}
use document_insight.Configuration.Profiles.{
  QueryProfile, get_ingestion, get_query, create_activation,
}
use document_insight.Configuration.Resolver.{bind-some}
use document_insight.Store.Generations.{referenced_ingestion_profile_ids}
use document_insight.Store.Active.{
  platform, ProfileKind, ingestion, query, same_kind, ActiveProfileRow, ActiveProfile, get,
}
use document_insight.Store.System.{Database, System, ok}
use document_insight.Approval.Validation.{
  require_ingestion, require_query, require_ingestions, require_cohorts, has_cohorts,
}
use document_insight.Approval.Evidence.{ApprovalService}
use document_insight.Approval.Checks.{add_active, require_bundle}
use document_insight.Approval.Pointer.{get-activate, get-activate_other}
use document_insight.Approval.Resolution.{guard-true}
use document_insight.Approval.Service.{switch_pointer, activate}
use document_insight.Approval.Activation.{IsSwitch, activate-Switched}
use document_insight.Approval.Requirements.{
  IsWithin, some-injective, require_query-found, require_ingestion-found, require_ingestions-All,
}

-- The active query profile reads the cohorts of the active ingestion profile and of every profile
-- that a ready generation was made with.
abbrev pub IsCovered : Database → Type 0
IsCovered d =
    (active : ActiveProfile) (target : QueryProfile)
    → get platform query d.active_profiles ≡ some active
    → get_query active.profile_id d.profiles ≡ some target
    → All (IsWithin target d.profiles) (
        add_active (get platform ingestion d.active_profiles)
          (referenced_ingestion_profile_ids d.generations))

module _ (service : ApprovalService) (d : Database) where
  bundle-query :
      (profile_id : ℕ) (ai aq : Option ActiveProfile) {u : Unit {0}} (target : QueryProfile)
      → require_bundle service query profile_id ai aq d ≡ some u
      → get_query profile_id d.profiles ≡ some target
      → All
          (IsWithin target d.profiles)
          (add_active ai (referenced_ingestion_profile_ids d.generations))
  unfolding require_bundle require_cohorts
  bundle-query profile_id ai aq target e found =
      let (required, there, e1) =
        bind-some (require_query service.mistral_available d.profiles profile_id) _ e in
      let (bundles, each, e2) =
        bind-some
          (require_ingestions service.mistral_available d.profiles
            (add_active ai (referenced_ingestion_profile_ids d.generations)))
          _ e1 in
      let same : required ≡ target =
        some-injective (
          sym (require_query-found service.mistral_available d.profiles profile_id there)
          ∙ found) in
      require_ingestions-All service.mistral_available d.profiles target _ each
        (subst (λ q. all (has_cohorts q) bundles ≡ true) same (guard-true _ e2))

  bundle-ingestion :
      (profile_id : ℕ) (ai : Option ActiveProfile) {u : Unit {0}} (active : ActiveProfile)
      (target : QueryProfile)
      → require_bundle service ingestion profile_id ai (some active) d ≡ some u
      → get_query active.profile_id d.profiles ≡ some target
      → IsWithin target d.profiles profile_id
  unfolding require_bundle require_cohorts
  bundle-ingestion profile_id ai active target e found bundle there =
      let (first, required, e1) =
        bind-some (require_ingestion service.mistral_available d.profiles profile_id) _ e in
      let (reads, query_found, e2) =
        bind-some (require_query service.mistral_available d.profiles active.profile_id) _ e1 in
      let same : reads ≡ target = some-injective (
        sym (require_query-found service.mistral_available d.profiles active.profile_id query_found)
        ∙ found) in
      let same' : first ≡ bundle = some-injective (
        sym (require_ingestion-found service.mistral_available d.profiles profile_id required)
        ∙ there) in
      let covers : has_cohorts reads first ≡ true = ground (arith, guard-true _ e2) in
      subst (λ q. has_cohorts q bundle ≡ true) same
        (subst (λ b. has_cohorts reads b ≡ true) same' covers)

All-referenced :
    (P : ℕ → Type 0) (o : Option ActiveProfile) (ids : List ℕ)
    → All P (add_active o ids)
    → All P ids
All-referenced P none ids h = h
All-referenced P (some active) ids h = h.1

module _ (service : ApprovalService) (profile_id expected_revision actor_id : ℕ) (reason : Text)
    (d : Database) (current : ActiveProfile) {revision : ℕ} {d' : Database} where
  query-IsCovered :
      IsSwitch service query profile_id expected_revision actor_id reason d current revision d'
      → IsCovered (switch_pointer platform query current profile_id actor_id reason d).1
  unfolding switch_pointer create_activation get_query get_ingestion
  query-IsCovered s active target reads found =
      let same =
        some-injective
          (sym (get-activate platform query profile_id d.active_profiles s.pointer) ∙ reads) in
      let found' : get_query profile_id d.profiles ≡ some target =
        subst (λ a. get_query a.profile_id d.profiles ≡ some target) (sym same) found in
      subst
        (λ o.
          All (IsWithin target d.profiles)
            (add_active o (referenced_ingestion_profile_ids d.generations)))
        (sym (
          get-activate_other platform query ingestion profile_id current.revision d.active_profiles
            query_differs))
        (bundle-query service d profile_id _ _ target s.bundle found')
    where
      query_differs :
          (row : ActiveProfileRow)
          → same_kind row.profile_kind query ≡ true
          → same_kind row.profile_kind ingestion ≡ false
      query_differs row e = differs row.profile_kind e
        where
          differs :
              (kind : ProfileKind) → same_kind kind query ≡ true → same_kind kind ingestion ≡ false
          differs ingestion e = cc
          differs query e = refl

  ingestion-IsCovered :
      IsCovered d
      → IsSwitch service ingestion profile_id expected_revision actor_id reason d current revision
          d'
      → IsCovered (switch_pointer platform ingestion current profile_id actor_id reason d).1
  unfolding switch_pointer create_activation get_query get_ingestion
  ingestion-IsCovered h s active target reads found =
      let reads' : get platform query d.active_profiles ≡ some active =
        sym (
          get-activate_other platform ingestion query profile_id current.revision d.active_profiles
            ingestion_differs)
        ∙ reads in
      let bundle : require_bundle service ingestion profile_id
            (get platform ingestion d.active_profiles) (some active) d
          ≡ some tt =
        subst
          (λ o.
            require_bundle service ingestion profile_id (get platform ingestion d.active_profiles) o
              d
            ≡ some tt)
          reads' s.bundle in
      subst
        (λ o.
          All (IsWithin target d.profiles)
            (add_active o (referenced_ingestion_profile_ids d.generations)))
        (sym (get-activate platform ingestion profile_id d.active_profiles s.pointer))
        (
          bundle-ingestion service d profile_id _ active target bundle found,
          All-referenced _ (get platform ingestion d.active_profiles) _
              (h active target reads' found),
        )
    where
      ingestion_differs :
          (row : ActiveProfileRow)
          → same_kind row.profile_kind ingestion ≡ true
          → same_kind row.profile_kind query ≡ false
      ingestion_differs row e = differs row.profile_kind e
        where
          differs :
              (kind : ProfileKind) → same_kind kind ingestion ≡ true → same_kind kind query ≡ false
          differs ingestion e = refl
          differs query e = cc

-- An activation that succeeds outside a transaction leaves an active query profile that reads the
-- cohorts of the active ingestion profile and of every profile with a ready generation, if the one
-- before did.
pub activate-IsCovered :
    (service : ApprovalService) (kind : ProfileKind) (profile_id expected_revision actor_id : ℕ)
    (reason : Text) (s s' : System) (revision : ℕ)
    → s.in_transaction ≡ false
    → IsCovered s.working
    → activate service kind profile_id expected_revision actor_id reason s ≡ (ok revision, s')
    → IsCovered s'.durable
activate-IsCovered service kind profile_id expected_revision actor_id reason s s' revision idle h
      e =
    let (current, switch) =
      activate-Switched service kind profile_id expected_revision actor_id reason s s' revision idle
        e in
    subst IsCovered (sym (ap (λ r. r.1) switch.result)) (covered kind switch)
  where
    covered :
        (kind : ProfileKind) {current : ActiveProfile}
        → IsSwitch service kind profile_id expected_revision actor_id reason s.working current
            revision s'.durable
        → IsCovered (switch_pointer platform kind current profile_id actor_id reason s.working).1
    covered query switch =
        query-IsCovered service profile_id expected_revision actor_id reason s.working _ switch
    covered ingestion switch =
        ingestion-IsCovered service profile_id expected_revision actor_id reason s.working _ h
          switch
