-- ===== src/Processing/Stages/Embedding.antt =====
-- The embedding stage of `_process_version`, and `_embed_chunks` (application/processing/service.py).
use document_insight.Prelude.{
  ℕ, zero, suc, Bool, true, false, Option, none, some, List, [], ◌∷◌, ◌++◌, ◌==◌, map, length, take,
  drop, if◌then◌else◌,
}
use document_insight.Chunker.Text.{Text}
use document_insight.Configuration.Models.{ResolvedIngestionProfile, EmbeddingConfiguration}
use document_insight.Job.Model.{ProcessingJob, JobRecord}
use document_insight.Job.Repository
use document_insight.Store.Versions.{ProcessingDocumentVersion}
use document_insight.Store.Generations
use document_insight.Store.Generations.{IndexGeneration}
use document_insight.Store.Chunks
use document_insight.Store.Chunks.{ChunkForEmbedding, ChunkEmbedding, Vector}
use document_insight.Store.System.{
  Database, Result, ok, err, Action, pure, raise, query, execute, ◌>>=◌, ◌>>◌,
}
use document_insight.Processing.Failures.{Failure, embedding_error, value_error, other, Outside}
use document_insight.Processing.Retry.{record_transient_failure, default_config}
use document_insight.Processing.Stages.Blocks.{begin}
use document_insight.Processing.Stages.Chunking.{assert_some, open_embedding}

abbrev pub pair_up : List ChunkForEmbedding → List Vector → List ChunkEmbedding
pair_up [] vectors = []
pair_up (c ∷ cs) [] = []
pair_up (c ∷ cs) (v ∷ vs) = record { chunk_id = c.chunk_id; values = v } ∷ pair_up cs vs

abbrev pub chunk_text : ChunkForEmbedding → Text
chunk_text c = c.text

abbrev pub append_batch :
    List ChunkForEmbedding
    → Result Failure (List Vector)
    → Result Failure (List ChunkEmbedding)
    → Result Failure (List ChunkEmbedding)
append_batch batch (err e) rest = err e
append_batch batch (ok vectors) rest =
    if length vectors == length batch
    then elim rest [ err e ↦ err e | ok r ↦ ok (pair_up batch vectors ++ r) ]
    else err embedding_error

-- the loop of `_embed_chunks`; with a batch of at least one chunk the fuel is never short
unfoldable pub embed_batches :
    Outside
    → EmbeddingConfiguration
    → ℕ
    → List ChunkForEmbedding
    → Result Failure (List ChunkEmbedding)
embed_batches o configuration fuel [] = ok []
embed_batches o configuration zero (c ∷ cs) = err other
embed_batches o configuration (suc fuel) (c ∷ cs) =
    let batch = take configuration.batch_size (c ∷ cs) in
    append_batch batch (o.embed configuration (map chunk_text batch))
      (embed_batches o configuration fuel (drop configuration.batch_size (c ∷ cs)))

-- `range` raises a `ValueError` if the step is 0
unfoldable pub embed_chunks :
    Outside → EmbeddingConfiguration → List ChunkForEmbedding → Result Failure (List ChunkEmbedding)
unfolding embed_batches
embed_chunks o configuration chunks = elim (o.create_embedder configuration) [
  | err e ↦ err e
  | ok _ ↦
      if configuration.batch_size == 0
      then err value_error
      else embed_batches o configuration (length chunks) chunks
]

-- `except (EmbeddingError, ValueError)`
abbrev pub is_embedding_failure : Failure → Bool
is_embedding_failure embedding_error = true
is_embedding_failure value_error = true
is_embedding_failure _ = false

abbrev pub attempts_of : Option JobRecord → ℕ
attempts_of none = 0
attempts_of (some r) = r.attempt_count

abbrev pub save_embeddings :
    Outside
    → ProcessingDocumentVersion
    → ResolvedIngestionProfile
    → ℕ
    → List ChunkEmbedding
    → Database
    → Database
save_embeddings o version profile ig_id embeddings d =
    if open_embedding (Generations.get ig_id version.tenant_id d.generations)
    then record d {
      embeddings = Chunks.create_embeddings profile.embedding_profile_id embeddings d.embeddings;
      generations = Generations.mark_embedding_complete ig_id o.now d.generations;
    }
    else d

-- the transient failure, with the attempts that the job row shows
unfoldable pub retry_job : Outside → ProcessingJob → Action Failure (Unit {0})
unfolding record_transient_failure
retry_job o job = do
  job_record ← query (λ d. Repository.get job.job_id job.tenant_id d.jobs)
  record_transient_failure default_config o job (attempts_of job_record)

unfoldable pub after_embedding :
    Outside
    → ProcessingJob
    → ProcessingDocumentVersion
    → ResolvedIngestionProfile
    → ℕ
    → Result Failure (List ChunkEmbedding)
    → Action Failure (Option (Option ℕ))
unfolding retry_job
after_embedding o job version profile ig_id (ok embeddings) =
    begin (execute (save_embeddings o version profile ig_id embeddings)) >> pure (some (some ig_id))
after_embedding o job version profile ig_id (err e) =
    if is_embedding_failure e then retry_job o job >> pure none else raise e

-- `none`: the run returns; otherwise the `ig_id` that it goes on with
unfoldable pub embed_stage :
    Outside
    → ProcessingJob
    → ProcessingDocumentVersion
    → IndexGeneration
    → ResolvedIngestionProfile
    → Option ℕ
    → Action Failure (Option (Option ℕ))
unfolding after_embedding embed_chunks
embed_stage o job version generation profile ig_id = elim generation.embedding_completed_at [
  | some _ ↦ pure (some ig_id)
  | none ↦ do
    ig ← assert_some job.index_generation_id
    chunks ← begin (query (λ d. Chunks.list_for_embedding ig version.tenant_id d.chunks))
    after_embedding o job version profile ig (embed_chunks o profile.embedding chunks)
]
