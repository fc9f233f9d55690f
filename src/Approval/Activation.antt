-- ===== src/Approval/Activation.antt =====
-- What an activation that succeeds has checked and written (`activate`,
-- application/configuration/approval.py).
use mathlib.Core.Path.{subst}
use document_insight.Prelude.{
  ℕ, ◌≡◌, refl, sym, inl, inr, true, false, not, ◌==◌, Option, none, some, arith, Bool-cases,
  ==_iff,
}
use document_insight.Chunker.Text.{Text}
use document_insight.Store.Active.{platform, ProfileKind, ingestion, query, ActiveProfile, get}
use document_insight.Store.System.{Database, System, Result, ok, err, end_block, settle}
use document_insight.Approval.Validation.{guard}
use document_insight.Approval.Evidence.{ApprovalService}
use document_insight.Approval.Checks.{require_review, require_bundle}
use document_insight.Approval.Resolution.{guard-true}
use document_insight.Approval.Service.{
  ApprovalError, ◌>>=◌, switch_pointer, switch_profile, switch_current, current_with,
  activate_profile, activate, reason_is_valid,
}

-- A chain that succeeds has a value at its first step.
bind-ok :
    {A B : Type 0} (o : Option A) (f : A → Result ApprovalError B) {b : B}
    → (o >>= f) ≡ ok b
    → (a : A) × (o ≡ some a) × (f a ≡ ok b)
bind-ok none f e = cc
bind-ok (some a) f e = (a, refl, e)

current_with-some :
    (expected_revision : ℕ) (o : Option ActiveProfile) {current : ActiveProfile}
    → current_with expected_revision o ≡ some current
    → (o ≡ some current) × (current.revision ≡ expected_revision)
current_with-some expected_revision none e = cc
current_with-some expected_revision (some active) {current} e =
    elim (Bool-cases (active.revision == expected_revision)) [
      | inl t ↦
          let same : some active ≡ some current = rw t at e in
          let same' : active ≡ current = cc same in
          (
            same,
            subst (λ a. a.revision ≡ expected_revision) same'
                ((==_iff active.revision expected_revision).0 t),
          )
      | inr t ↦ cc (t, e)
    ]

module _ (service : ApprovalService) (kind : ProfileKind)
    (profile_id expected_revision actor_id : ℕ) (reason : Text) where
  -- The pointer was read with the expected revision, the review and the bundle were in order, and
  -- the pointer was switched with an audit row.
  pub record IsSwitch (d : Database) (current : ActiveProfile) (revision : ℕ) (d' : Database)
      : Type 0 where
    pub pointer : get platform kind d.active_profiles ≡ some current
    pub expected : current.revision ≡ expected_revision
    pub changed : (current.profile_id == profile_id) ≡ false
    pub review :
        require_review service kind profile_id current (get platform query d.active_profiles)
        ≡ some tt
    pub bundle :
        require_bundle service kind profile_id
          (get platform ingestion d.active_profiles)
          (get platform query d.active_profiles)
          d
        ≡ some tt
    pub result : (revision, d') ≡ switch_pointer platform kind current profile_id actor_id reason d

  abbrev pub Switched : Database → ℕ → Database → Type 0
  Switched d revision d' = (current : ActiveProfile) × IsSwitch d current revision d'

  switch_profile-Switched :
      (d : Database) (current : ActiveProfile) {revision : ℕ} {d' : Database}
      → get platform kind d.active_profiles ≡ some current
      → current.revision ≡ expected_revision
      → switch_profile service kind profile_id current actor_id reason d ≡ ok (revision, d')
      → IsSwitch d current revision d'
  unfolding switch_profile
  switch_profile-Switched d current pointer expected e =
      let (_, changed, e1) = bind-ok (guard (not (current.profile_id == profile_id))) _ e in
      let (_, review, e2) =
        bind-ok
          (require_review service kind profile_id current (get platform query d.active_profiles)) _
          e1 in
      let (_, bundle, e3) =
        bind-ok
          (require_bundle service kind profile_id (get platform ingestion d.active_profiles)
            (get platform query d.active_profiles) d)
          _ e2 in
      record {
        pointer = pointer;
        expected = expected;
        changed = ground (arith, guard-true _ changed);
        review = review;
        bundle = bundle;
        result = sym (cc e3);
      }

  activate_profile-Switched :
      (d : Database) (revision : ℕ) (d' : Database)
      → activate_profile service kind profile_id expected_revision actor_id reason d
        ≡ ok (revision, d')
      → Switched d revision d'
  unfolding activate_profile
  activate_profile-Switched d revision d' e =
      decided (current_with expected_revision (get platform kind d.active_profiles)) refl e
    where
      decided :
          (o : Option ActiveProfile)
          → current_with expected_revision (get platform kind d.active_profiles) ≡ o
          → switch_current service kind profile_id actor_id reason o d ≡ ok (revision, d')
          → Switched d revision d'
      decided none found e = cc
      decided (some current) found e =
          let (pointer, expected) =
            current_with-some expected_revision (get platform kind d.active_profiles) found in
          (current, switch_profile-Switched d current pointer expected e)

  Committed : System → Result ApprovalError ℕ × System → Type 0
  Committed s (err e, s') = Unit
  Committed s (ok revision, s') = Switched s.working revision s'.durable

  activate-Committed :
      (s : System)
      → s.in_transaction ≡ false
      → Committed s (activate service kind profile_id expected_revision actor_id reason s)
  unfolding activate Committed
  activate-Committed s idle = elim (Bool-cases (reason_is_valid reason)) [
    | inr other ↦ rw other tt
    | inl valid ↦ simp (valid, idle) (settled _ (activate_profile-Switched s.working))
  ]
    where
      settled :
          (r : Result ApprovalError (ℕ × Database))
          → ((revision : ℕ) (d' : Database)
              → r ≡ ok (revision, d')
              → Switched s.working revision d')
          → Committed s (end_block (settle r (record s { in_transaction = true })))
      settled (err e) h = tt
      settled (ok (revision, d')) h = h revision d' refl

  -- An activation that succeeds outside a transaction had the pointer at the expected revision, its
  -- review and its bundle in order, and it switches that pointer with an audit row.
  pub activate-Switched :
      (s s' : System) (revision : ℕ)
      → s.in_transaction ≡ false
      → activate service kind profile_id expected_revision actor_id reason s ≡ (ok revision, s')
      → Switched s.working revision s'.durable
  unfolding Committed
  activate-Switched s s' revision idle e = subst (Committed s) e (activate-Committed s idle)
