-- ===== src/Ingestion/Numbering.antt =====
-- The numbers of a document's versions.
use mathlib.Core.Path.{subst}
use document_insight.Prelude.{
  ℕ, ◌+◌, ◌<◌, ◌≤◌, ◌≡◌, ◌≢◌, refl, ap, inl, inr, false, Option, none, some, List, [], ◌∷◌, ◌++◌,
  All, All-imp, arith, Bool-cases,
}
use document_insight.Chunker.Text.{Text}
use document_insight.Store.Versions.{
  VersionRow, Versions, version_row, next_version_number, max_version_number, create,
}
use document_insight.Store.Documents
use document_insight.Store.System.{Database, System, Result, ok, err}
use document_insight.Ingestion.Request.{IngestionError, IngestDocumentCommand}
use document_insight.Ingestion.Settings.{IngestionService, IngestionResult}
use document_insight.Ingestion.Service.{ingest}
use document_insight.Ingestion.Registration.{new_version, place, original_filename, target_of}
use document_insight.Ingestion.Departments.{authorize_existing_document}
use document_insight.Ingestion.Outcome.{
  Outcome, refused, unannounced, unmarked, stored, ingest-Outcome,
}

below_max :
    (id : ℕ) (versions : Versions)
    → All
        (λ (v : VersionRow). v.document_id ≡ id → v.version_number ≤ max_version_number id versions)
        versions
unfolding max_version_number
below_max id [] = tt
below_max id (v ∷ versions) = (
  λ e. ground arith,
  All-imp (λ w. w.document_id ≡ id → w.version_number ≤ max_version_number id versions)
      (λ w. w.document_id ≡ id → w.version_number ≤ max_version_number id (v ∷ versions))
      (λ w h e. ground (arith, h e)) versions (below_max id versions),
)

-- the numbers of one document's versions, all below `n`
abbrev pub AllBelow : ℕ → ℕ → Versions → Type 0
AllBelow id n = All (λ (v : VersionRow). v.document_id ≡ id → v.version_number < n)

next_version_number-AllBelow :
    (id : ℕ) (versions : Versions) → AllBelow id (next_version_number id versions) versions
unfolding next_version_number
next_version_number-AllBelow id versions =
    All-imp (λ v. v.document_id ≡ id → v.version_number ≤ max_version_number id versions)
      (λ v. v.document_id ≡ id → v.version_number < max_version_number id versions + 1)
      (λ v h e. omega (arith, h e)) versions (below_max id versions)

module _ (service : IngestionService) (command : IngestDocumentCommand) where
  -- The placement adds no version, and its number is above those of the document.
  Placed : Option ℕ → Database → ℕ → Database → Type 0
  Placed target d n placed =
      (placed.versions ≡ d.versions) × AllBelow (target_of service target) n d.versions

  Sound : Option ℕ → Database → Result IngestionError (ℕ × Database) → Type 0
  Sound target d (err e) = Unit
  Sound target d (ok (n, placed)) = Placed target d n placed

  place-Sound :
      (filename : Text) (departments : List ℕ) (d : Database)
      → All (λ (v : VersionRow). v.document_id ≢ service.new_document_id) d.versions
      → (target : Option ℕ)
      → Sound target d (place service command.actor filename departments d target)
  unfolding place Placed Sound
  place-Sound filename departments d fresh none = (
    refl,
    All-imp (λ v. v.document_id ≢ service.new_document_id)
        (λ v. v.document_id ≡ service.new_document_id → v.version_number < 1)
        (λ v apart same. absurd (apart same)) d.versions fresh,
  )
  place-Sound filename departments d fresh (some id) =
      elim (Bool-cases (Documents.lock id command.actor.tenant_id d.documents)) [
        | inr missing ↦ rw missing tt
        | inl found ↦ rw found (authorized (authorize_existing_document id command.actor d))
      ]
    where
      authorized :
          (r : Result IngestionError (List ℕ))
          → Sound
              (some id)
              d
              (elim r [ err e ↦ err e | ok _ ↦ ok (next_version_number id d.versions, d) ])
      authorized (err e) = tt
      authorized (ok _) = (refl, next_version_number-AllBelow id d.versions)

  -- what a run has stored of its version
  Numbered : System → Result IngestionError IngestionResult × System → Type 0
  Numbered s (err e, s') = Unit
  Numbered s (ok r, s') =
      (row : VersionRow) × (s'.durable.versions ≡ s.working.versions ++ row ∷ [])
      × (row.document_id ≡ r.document_id)
      × (row.version_number ≡ r.version_number)
      × (row.tenant_id ≡ command.actor.tenant_id)
      × AllBelow r.document_id r.version_number s.working.versions

  Outcome-Numbered :
      (s : System) (x : Result IngestionError IngestionResult × System)
      → All (λ (v : VersionRow). v.document_id ≢ service.new_document_id) s.working.versions
      → Outcome service command s x
      → Numbered s x
  unfolding create Sound Placed Numbered
  Outcome-Numbered s _ fresh (refused e0 s0 durable objects queue) = tt
  Outcome-Numbered s _ fresh (unannounced g) = tt
  Outcome-Numbered s _ fresh (unmarked g) = tt
  Outcome-Numbered s _ fresh (stored g) =
      let (same, below) = subst (Sound command.document_id s.working) g.places (
        place-Sound (original_filename command.filename g.media_type) g.departments s.working fresh
          command.document_id) in
      let row =
        version_row
          (new_version service command g.media_type
            (original_filename command.filename g.media_type) g.version_number)
          service.now in
      (row, ap (λ vs. vs ++ row ∷ []) same, refl, refl, refl, below)

-- A successful upload, outside a transaction and with a new document's id that no version has yet,
-- adds one version to the table: of the document, the caller's tenant and the number that it answers
-- with, which is above the numbers of all the document's versions before.
pub ingest-AllBelow :
    (service : IngestionService) (command : IngestDocumentCommand) (s : System)
    → s.in_transaction ≡ false
    → All (λ (v : VersionRow). v.document_id ≢ service.new_document_id) s.working.versions
    → (r : IngestionResult) (s' : System) → ingest service command s ≡ (ok r, s')
    → (row : VersionRow) × (s'.durable.versions ≡ s.working.versions ++ row ∷ [])
      × (row.document_id ≡ r.document_id)
      × (row.version_number ≡ r.version_number)
      × (row.tenant_id ≡ command.actor.tenant_id)
      × AllBelow r.document_id r.version_number s.working.versions
unfolding Numbered
ingest-AllBelow service command s idle fresh r s' h = subst (Numbered service command s) h (
    Outcome-Numbered service command s (ingest service command s) fresh
      (ingest-Outcome service command s idle))
