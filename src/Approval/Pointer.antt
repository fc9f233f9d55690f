-- ===== src/Approval/Pointer.antt =====
-- What the pointers of infrastructure/active_profile/ read as after one of them is switched.
use mathlib.Core.Option
use document_insight.Prelude.{
  ℕ, ◌+◌, ◌≡◌, refl, ap, ◌∙◌, inl, inr, true, false, ◌&&◌, ◌==◌, Option, none, some, arith,
  Option-cases, first_where, first_where-changed, first_where-other, first_where-passes, ==_refl,
}
use document_insight.Store.Active.{
  Scope, ProfileKind, ingestion, query, same_kind, ActiveProfileRow, ActiveProfile, ActiveProfiles,
  at_pointer, selected, column, pointer, get, activate,
}

-- A pointer that reads is a row with an id in the column of its kind.
pointer-some :
    (kind : ProfileKind) (row : ActiveProfileRow) {current : ActiveProfile}
    → pointer kind (some row) ≡ some current
    → row.revision ≡ current.revision
pointer-some kind row {current} e = revised (column kind row) e
  where
    revised :
        (id : Option ℕ)
        → Option.map (λ i. record { profile_id = i; revision = row.revision }) id ≡ some current
        → row.revision ≡ current.revision
    revised none e = cc
    revised (some id) e = cc e

pointer-selected :
    (kind : ProfileKind) (profile_id revision : ℕ) (row : ActiveProfileRow)
    → pointer kind (some (selected kind profile_id revision row))
      ≡ some (record { profile_id = profile_id; revision = revision + 1 })
pointer-selected ingestion profile_id revision row = refl
pointer-selected query profile_id revision row = refl

at_pointer-selected :
    (scope : Scope) (kind other : ProfileKind) (profile_id revision : ℕ) (row : ActiveProfileRow)
    → at_pointer scope other (selected kind profile_id revision row) ≡ at_pointer scope other row
at_pointer-selected scope ingestion other profile_id revision row = refl
at_pointer-selected scope query other profile_id revision row = refl

-- A pointer that is switched under the revision that it has reads as the profile that it was
-- switched to, with the next revision.
pub get-activate :
    (scope : Scope) (kind : ProfileKind) (profile_id : ℕ) (rows : ActiveProfiles)
    {current : ActiveProfile}
    → get scope kind rows ≡ some current
    → get scope kind (activate scope kind profile_id current.revision rows)
      ≡ some (record { profile_id = profile_id; revision = current.revision + 1 })
unfolding get activate
get-activate scope kind profile_id rows {current} e =
    elim (Option-cases (first_where (at_pointer scope kind) rows)) [
      | inl missing ↦ absurd (cc (rw missing at e))
      | inr (row, found) ↦
          let revised : row.revision ≡ current.revision = pointer-some kind row (rw found at e) in
          let here = first_where-passes (at_pointer scope kind) rows found in
          let changed =
            first_where-changed (at_pointer scope kind)
              (λ y. at_pointer scope kind y && (y.revision == current.revision))
              (selected kind profile_id current.revision) (λ y t. ground (arith, t))
              (λ y t. at_pointer-selected scope kind kind profile_id current.revision y ∙ t) rows
              found (rw (here, revised) (==_refl current.revision)) in
          rw changed (pointer-selected kind profile_id current.revision row)
    ]

-- The scope's other pointer reads as before.
pub get-activate_other :
    (scope : Scope) (kind other : ProfileKind) (profile_id revision : ℕ) (rows : ActiveProfiles)
    → ((row : ActiveProfileRow)
        → same_kind row.profile_kind kind ≡ true
        → same_kind row.profile_kind other ≡ false)
    → get scope other (activate scope kind profile_id revision rows) ≡ get scope other rows
unfolding get activate
get-activate_other scope kind other profile_id revision rows differ = ap (pointer other) (
    first_where-other (at_pointer scope other)
      (λ y. at_pointer scope kind y && (y.revision == revision)) (selected kind profile_id revision)
      (λ y t. ground (arith, differ y, t))
      (λ y t.
        at_pointer-selected scope kind other profile_id revision y ∙ ground (arith, differ y, t))
      rows)
