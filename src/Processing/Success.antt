-- ===== src/Processing/Success.antt =====
-- A run whose outside calls succeed finishes the job, from any checkpoint but the last.
use document_insight.Prelude.{
  ℕ, ◌<◌, ◌≡◌, refl, true, false, Option, none, some, List, [], ◌∷◌, arith, All,
}
use document_insight.Chunker.Text.{Text}
use document_insight.Chunker.Window.{Chunker}
use document_insight.Chunker.Document.{chunk-Chunked}
use document_insight.Configuration.Models.{ResolvedIngestionProfile}
use document_insight.Job.Model.{ProcessingJob, JobRow, JobStatus}
use document_insight.Job.Repository
use document_insight.Store.Versions
use document_insight.Store.Versions.{ProcessingDocumentVersion, VersionRow, VersionStatus}
use document_insight.Store.Extracted
use document_insight.Store.Extracted.{Language, ParsedDocument}
use document_insight.Store.Generations
use document_insight.Store.Generations.{IndexGeneration, GenerationRow, GenerationStatus}
use document_insight.Store.Chunks
use document_insight.Store.Entities.{NerResult}
use document_insight.Store.System.{Database, System, Result, ok, execute}
use document_insight.Processing.Failures.{Failure, Outside}
use document_insight.Processing.Embedding.{Answers, embed_chunks-Answers}
use document_insight.Processing.Stages.Blocks.{begin, complete}
use document_insight.Processing.Stages.Parsing.{parse_original, parse_stage, save_parsed}
use document_insight.Processing.Stages.Recognition.{ner_stage, save_entities}
use document_insight.Processing.Stages.Chunking.{chunk_stage, save_chunks}
use document_insight.Processing.Stages.Embedding.{embed_stage, save_embeddings}

-- Every row of the job, of its version and of its generation says that it is ready.
pub record IsFinished (job_id version_id generation_id : ℕ) (d : Database) : Type 0 where
  pub job_ready : All (λ (j : JobRow). j.id ≡ job_id → j.status ≡ JobStatus.ready) d.jobs
  pub version_ready :
      All (λ (v : VersionRow). v.id ≡ version_id → v.status ≡ VersionStatus.ready) d.versions
  pub generation_ready :
      All
        (λ (g : GenerationRow). g.id ≡ generation_id → g.status ≡ GenerationStatus.ready)
        d.generations

-- the state behind a `begin()` block that wrote `f`
abbrev pub committed : (Database → Database) → System → System
committed f s = record s { durable = f s.working; working = f s.working; in_transaction = false }

begin-execute :
    (f : Database → Database) (s : System)
    → s.in_transaction ≡ false
    → begin (execute f) s ≡ (ok tt, committed f s)
begin-execute f s idle = rw idle

jobs_ready :
    (job_id t at : ℕ) (jobs : List JobRow)
    → All (λ j. j.id ≡ job_id → j.status ≡ JobStatus.ready) (Repository.mark_ready job_id t at jobs)
unfolding Repository.mark_ready
jobs_ready job_id t at [] = tt
jobs_ready job_id t at (j ∷ jobs) = (λ e. ground (arith, e), jobs_ready job_id t at jobs)

versions_ready :
    (id : ℕ) (versions : List VersionRow)
    → All (λ v. v.id ≡ id → v.status ≡ VersionStatus.ready) (Versions.mark_ready id versions)
unfolding Versions.mark_ready
versions_ready id [] = tt
versions_ready id (v ∷ versions) = (λ e. ground (arith, e), versions_ready id versions)

generations_ready :
    (id : ℕ) (rows : List GenerationRow)
    → All (λ g. g.id ≡ id → g.status ≡ GenerationStatus.ready) (Generations.mark_ready id rows)
unfolding Generations.mark_ready
generations_ready id [] = tt
generations_ready id (g ∷ rows) = (λ e. ground (arith, e), generations_ready id rows)

pub complete-IsFinished :
    (o : Outside) (job : ProcessingJob) (version_id ig : ℕ) (s : System)
    → s.in_transaction ≡ false
    → let (r, s') = complete o job version_id ig s in
      (r ≡ ok tt) × IsFinished job.job_id version_id ig s'.durable
unfolding complete
complete-IsFinished o job version_id ig s idle = rw idle (
  refl,
  record {
    job_ready = jobs_ready job.job_id o.now o.now s.working.jobs;
    version_ready = versions_ready version_id s.working.versions;
    generation_ready = generations_ready ig s.working.generations;
  },
)

-- A stage that returns `a` and leaves no transaction open.
abbrev pub Gives : {A : Type 0} → Result Failure A × System → A → System → Type 0
Gives r a s' = (r ≡ (ok a, s')) × (s'.in_transaction ≡ false)

module _ (o : Outside) (job : ProcessingJob) (version : ProcessingDocumentVersion) where
  pub parse_stage-Gives :
      (parsed : ParsedDocument)
      → parse_original o version ≡ ok parsed
      → (text : Option Text) (s : System) → s.in_transaction ≡ false
      → (t : Text) × (s' : System) × Gives (parse_stage o job version text s) (some t) s'
  unfolding parse_stage
  parse_stage-Gives parsed e (some t) s idle = (t, s, (refl, idle))
  parse_stage-Gives parsed e none s idle =
      (parsed.text, committed (save_parsed version parsed) s, (rw e (rw idle), refl))

  pub ner_stage-Gives :
      (p : ResolvedIngestionProfile) (text : Text) (r : NerResult)
      → o.recognize p.ner text ≡ ok r
      → (s : System) → s.in_transaction ≡ false
      → (s' : System) × Gives (ner_stage o job version p text false s) (some r.language) s'
  unfolding ner_stage
  ner_stage-Gives p text r e s idle =
      (committed (save_entities o version r) s, (rw e (rw idle), refl))

  pub ner_stage-resumes :
      (p : ResolvedIngestionProfile) (text : Text) (l : Language) (s : System)
      → s.in_transaction ≡ false
      → Extracted.get_ner_metadata version.document_version_id s.working.extracted ≡ some l
      → (s' : System) × Gives (ner_stage o job version p text true s) (some l) s'
  unfolding ner_stage
  ner_stage-resumes p text l s idle e =
      (record s { durable = s.working; in_transaction = false }, (rw (idle, e), refl))

  module _ (ig : ℕ) (has_ig : job.index_generation_id ≡ some ig) where
    pub chunk_stage-Gives :
        (g : IndexGeneration) (c : Chunker) (text : Text) (l : Language)
        → 0 < c.max_chars
        → (s : System) → s.in_transaction ≡ false
        → g.chunking_completed_at ≡ none
        → (s' : System) × Gives (chunk_stage o job version g c text l s) (some ig) s'
    unfolding chunk_stage
    chunk_stage-Gives g c text l pos s idle fresh =
        let (cs, made, _) = chunk-Chunked c text pos in
        (
          committed (save_chunks o version l ig cs) s,
          (rw (fresh, chunk_stage) (rw (has_ig, made) (rw idle)), refl),
        )

    pub embed_stage-Gives :
        (g : IndexGeneration) (p : ResolvedIngestionProfile) (prior : Option ℕ)
        → o.create_embedder p.embedding ≡ ok tt
        → Answers o p.embedding
        → 0 < p.embedding.batch_size
        → (s : System) → s.in_transaction ≡ false
        → g.embedding_completed_at ≡ none
        → (s' : System) × Gives (embed_stage o job version g p prior s) (some (some ig)) s'
    unfolding embed_stage
    embed_stage-Gives g p prior created answers pos s idle fresh =
        let listed = Chunks.list_for_embedding ig version.tenant_id s.working.chunks in
        let (es, made, _) = embed_chunks-Answers o p.embedding listed created answers pos in
        (
          committed (save_embeddings o version p ig es) s,
          (rw (fresh, embed_stage) (rw has_ig (rw idle (rw made))), refl),
        )
