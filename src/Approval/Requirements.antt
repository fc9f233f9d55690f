-- ===== src/Approval/Requirements.antt =====
-- What the checks of an activation have found (application/configuration/approval.py).
use mathlib.Core.Path.{subst}
use document_insight.Prelude.{
  ℕ, ◌≡◌, sym, ap, ◌∙◌, inl, inr, Bool, true, ◌||◌, ◌==◌, length, some, List, [], ◌∷◌, arith, all,
  All, Bool-cases,
}
use document_insight.Configuration.Profiles.{
  IngestionProfile, QueryProfile, Profiles, get_ingestion, get_query, get_snapshot,
}
use document_insight.Configuration.Models.{Capability, retrieval, same_kind as same_snapshot_kind}
use document_insight.Configuration.Resolver.{bind-some}
use document_insight.Query.Resolver.{with_cohorts}
use document_insight.Approval.Validation.{
  guard, require_validated, require_ingestion, require_all, require_query, require_ingestions,
  has_cohorts, validate_configuration,
}

-- The query profile reads the lexical and the embedding cohort of the ingestion profile with the id.
abbrev pub IsWithin : QueryProfile → Profiles → ℕ → Type 0
IsWithin target profiles id =
    (bundle : IngestionProfile)
    → get_ingestion id profiles ≡ some bundle
    → has_cohorts target bundle ≡ true

pub some-injective : {A : Type 0} {a b : A} → some a ≡ some b → a ≡ b
some-injective e = cc e

with_cohorts-same :
    (found : QueryProfile) {p : QueryProfile} → with_cohorts found ≡ some p → found ≡ p
with_cohorts-same found e =
    elim (Bool-cases
      ((length found.lexical_profile_ids == 0) || (length found.embedding_profile_ids == 0))) [
        | inl t ↦ absurd (cc (rw t at e))
        | inr t ↦ let same : some found ≡ some _ = rw t at e in cc same
      ]

module _ (available : Bool) (profiles : Profiles) where
  pub require_query-found :
      (id : ℕ) {target : QueryProfile}
      → require_query available profiles id ≡ some target
      → get_query id profiles ≡ some target
  unfolding require_query
  require_query-found id e =
      let (found, there, e1) = bind-some (get_query id profiles) _ e in
      let (p, cohorts, e2) = bind-some (with_cohorts found) _ e1 in
      let (_, _, e3) =
        bind-some (require_all available profiles Capability.lexical p.lexical_profile_ids) _ e2 in
      let (_, _, e4) =
        bind-some (require_all available profiles Capability.embedding p.embedding_profile_ids) _
          e3 in
      let (_, _, e5) =
        bind-some (require_validated available profiles p.reranker_profile_id Capability.reranking)
          _ e4 in
      let (_, _, e6) =
        bind-some
          (require_validated available profiles p.generation_profile_id Capability.generation) _
          e5 in
      let (snapshot, _, e7) = bind-some (get_snapshot p.retrieval_snapshot_id profiles) _ e6 in
      let (_, _, e8) = bind-some (guard (same_snapshot_kind snapshot.capability retrieval)) _ e7 in
      let (_, _, e9) =
        bind-some (validate_configuration available retrieval snapshot.configuration true) _ e8 in
      there ∙ ap some (with_cohorts-same found cohorts) ∙ e9

  pub require_ingestion-found :
      (id : ℕ) {bundle : IngestionProfile}
      → require_ingestion available profiles id ≡ some bundle
      → get_ingestion id profiles ≡ some bundle
  unfolding require_ingestion
  require_ingestion-found id e =
      let (p, there, e1) = bind-some (get_ingestion id profiles) _ e in
      let (_, _, e2) =
        bind-some (require_validated available profiles p.ner_profile_id Capability.ner) _ e1 in
      let (_, _, e3) =
        bind-some (require_validated available profiles p.chunking_profile_id Capability.chunking) _
          e2 in
      let (_, _, e4) =
        bind-some (require_validated available profiles p.lexical_profile_id Capability.lexical) _
          e3 in
      let (_, _, e5) =
        bind-some (require_validated available profiles p.embedding_profile_id Capability.embedding)
          _ e4 in
      there ∙ e5

  pub require_ingestions-All :
      (target : QueryProfile) (ids : List ℕ) {bundles : List IngestionProfile}
      → require_ingestions available profiles ids ≡ some bundles
      → all (has_cohorts target) bundles ≡ true
      → All (IsWithin target profiles) ids
  unfolding require_ingestions
  require_ingestions-All target [] e h = tt
  require_ingestions-All target (id ∷ ids) e h =
      let (first, required, e1) = bind-some (require_ingestion available profiles id) _ e in
      let (rest, others, e2) = bind-some (require_ingestions available profiles ids) _ e1 in
      let h' : all (has_cohorts target) (first ∷ rest) ≡ true =
        subst (λ bs. all (has_cohorts target) bs ≡ true) (sym (some-injective e2)) h in
      (
        λ bundle found.
            subst (λ b. has_cohorts target b ≡ true)
              (some-injective (sym (require_ingestion-found id required) ∙ found))
              (ground (arith, h')),
        require_ingestions-All target ids others (ground (arith, h')),
      )
