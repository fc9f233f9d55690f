-- ===== src/Processing/Finish.antt =====
-- `ProcessingService._process_version` from any checkpoint to the ready rows.
use document_insight.Prelude.{
  ℕ, ◌<◌, ◌≡◌, ◌⊎◌, refl, ◌∙◌, inl, inr, Bool, true, false, Option, none, some, Option-cases,
}
use document_insight.Chunker.Text.{Text}
use document_insight.Chunker.Window.{Chunker}
use document_insight.Configuration.Models.{ResolvedIngestionProfile}
use document_insight.Job.Model.{ProcessingJob}
use document_insight.Store.Versions.{ProcessingDocumentVersion}
use document_insight.Store.Extracted
use document_insight.Store.Extracted.{Language, ParsedDocument}
use document_insight.Store.Generations.{IndexGeneration}
use document_insight.Store.Entities.{NerResult}
use document_insight.Store.System.{System, Result, ok, Action, ◌>>=◌}
use document_insight.Processing.Failures.{Failure, Outside}
use document_insight.Processing.Embedding.{Answers}
use document_insight.Processing.Stages.Parsing.{parse_original, parse_stage}
use document_insight.Processing.Stages.Embedding.{embed_stage}
use document_insight.Processing.Service.{
  process_version, index_version, enrich_version, finish_version,
}
use document_insight.Processing.Durability.{chunk_stage-done, embed_stage-done}
use document_insight.Processing.Success.{
  IsFinished, Gives, complete-IsFinished, parse_stage-Gives, ner_stage-Gives, ner_stage-resumes,
  chunk_stage-Gives, embed_stage-Gives,
}

-- Parsing, recognition and embedding succeed, and the settings of the profile are usable.
pub record Works (o : Outside) (version : ProcessingDocumentVersion) (p : ResolvedIngestionProfile)
    (c : Chunker) : Type 0 where
  pub parsed : ParsedDocument
  pub parses : parse_original o version ≡ ok parsed
  pub entities : Text → NerResult
  pub recognizes : (t : Text) → o.recognize p.ner t ≡ ok (entities t)
  pub creates : o.create_embedder p.embedding ≡ ok tt
  pub answers : Answers o p.embedding
  pub some_batch : 0 < p.embedding.batch_size
  pub some_window : 0 < c.max_chars

-- The entities are either not stored yet, or stored with their language behind a stored text.
abbrev pub Recognizable : ProcessingDocumentVersion → Option Text → Bool → System → Type 0
Recognizable version text ner_complete s =
    (ner_complete ≡ false)
    ⊎ ((t : Text) × (l : Language) × (text ≡ some t)
        × (ner_complete ≡ true)
        × (Extracted.get_ner_metadata version.document_version_id s.working.extracted ≡ some l))

module _ (o : Outside) (job : ProcessingJob) (version : ProcessingDocumentVersion)
    (g : IndexGeneration) (p : ResolvedIngestionProfile) (c : Chunker) (ig : ℕ)
    (has_ig : job.index_generation_id ≡ some ig) (w : Works o version p c) where
  abbrev Finishes : Result Failure (Unit {0}) × System → Type 0
  Finishes r = (r.0 ≡ ok tt) × IsFinished job.job_id version.document_version_id ig r.1.durable

  bind-Finishes :
      {A : Type 0} (m : Action Failure A) (f : A → Action Failure (Unit {0})) (s : System) (a : A)
      (s' : System)
      → m s ≡ (ok a, s')
      → Finishes (f a s')
      → Finishes ((m >>= f) s)
  bind-Finishes m f s a s' e done = rw e done

  -- With a generation at hand the rest of the run completes it.
  embed-Finishes :
      (prior : Option ℕ) (s : System)
      → s.in_transaction ≡ false
      → (prior ≡ some ig) ⊎ (g.embedding_completed_at ≡ none)
      → Finishes ((embed_stage o job version g p prior >>= finish_version o job version) s)
  embed-Finishes prior s idle reopened =
      let (s', (e, idle')) = reached in
      bind-Finishes (embed_stage o job version g p prior) (finish_version o job version) s
        (some (some ig)) s' e (complete-IsFinished o job version.document_version_id ig s' idle')
    where
      reached : (s' : System) × Gives (embed_stage o job version g p prior s) (some (some ig)) s'
      reached = elim (Option-cases g.embedding_completed_at) [
        | inl fresh ↦
            embed_stage-Gives o job version ig has_ig g p prior w.creates w.answers w.some_batch s
              idle fresh
        | inr (t, done) ↦ elim reopened [
          | inl known ↦ (s, (embed_stage-done o job version g p prior s done ∙ rw known, idle))
          | inr fresh ↦ cc
        ]
      ]

  index-Finishes :
      (text : Text) (l : Language) (s : System)
      → s.in_transaction ≡ false
      → (g.chunking_completed_at ≡ none) ⊎ (g.embedding_completed_at ≡ none)
      → Finishes (index_version o job version g p c text (some l) s)
  index-Finishes text l s idle reopened = elim (Option-cases g.chunking_completed_at) [
    | inl fresh ↦
        let (s', (e, idle')) =
          chunk_stage-Gives o job version ig has_ig g c text l w.some_window s idle fresh in
        rw e (embed-Finishes (some ig) s' idle' (inl refl))
    | inr (t, done) ↦ elim reopened [
      | inl fresh ↦ cc
      | inr fresh ↦
          rw (chunk_stage-done o job version g c text l s done)
            (embed-Finishes none s idle (inr fresh))
    ]
  ]

  enrich-Finishes :
      (ner_complete : Bool) (text : Text) (s : System)
      → s.in_transaction ≡ false
      → Recognizable version (some text) ner_complete s
      → (g.chunking_completed_at ≡ none) ⊎ (g.embedding_completed_at ≡ none)
      → Finishes (enrich_version o job version g p c ner_complete (some text) s)
  enrich-Finishes ner_complete text s idle (inl fresh) reopened =
      let (s', (e, idle')) =
        ner_stage-Gives o job version p text (w.entities text) (w.recognizes text) s idle in
      rw fresh (rw e (index-Finishes text (w.entities text).language s' idle' reopened))
  enrich-Finishes ner_complete text s idle (inr (t, l, same, done, known)) reopened =
      let (s', (e, idle')) = ner_stage-resumes o job version p text l s idle known in
      rw done (rw e (index-Finishes text l s' idle' reopened))

  -- A run outside any transaction, with a generation of which a checkpoint is still open, with
  -- outside calls that succeed and settings that are usable, and with entities that are not stored or
  -- stored with their language behind a stored text, returns and leaves the job, the version and the
  -- generation ready in the database, whichever of the checkpoints an earlier run has passed.
  pub process_version-IsFinished :
      (text : Option Text) (ner_complete : Bool) (s : System)
      → s.in_transaction ≡ false
      → Recognizable version text ner_complete s
      → (g.chunking_completed_at ≡ none) ⊎ (g.embedding_completed_at ≡ none)
      → let (r, s') = process_version o job version g p c text ner_complete s in
        (r ≡ ok tt) × IsFinished job.job_id version.document_version_id ig s'.durable
  unfolding process_version parse_stage
  process_version-IsFinished (some t) ner_complete s idle known reopened =
      enrich-Finishes ner_complete t s idle known reopened
  process_version-IsFinished none ner_complete s idle (inl fresh) reopened =
      let (t, s', (e, idle')) = parse_stage-Gives o job version w.parsed w.parses none s idle in
      rw e (enrich-Finishes ner_complete t s' idle' (inl fresh) reopened)
  process_version-IsFinished none ner_complete s idle (inr (t, l, same, done, known)) reopened = cc
