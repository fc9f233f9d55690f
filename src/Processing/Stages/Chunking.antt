-- ===== src/Processing/Stages/Chunking.antt =====
-- The chunking stage of `_process_version` (application/processing/service.py).
use document_insight.Prelude.{ℕ, Bool, true, false, Option, none, some, List, if◌then◌else◌}
use document_insight.Chunker.Text.{Text}
use document_insight.Chunker.Window.{Chunker, DocumentChunk, chunk}
use document_insight.Job.Model.{ProcessingJob}
use document_insight.Store.Versions.{ProcessingDocumentVersion}
use document_insight.Store.Extracted.{Language}
use document_insight.Store.Generations
use document_insight.Store.Generations.{IndexGeneration}
use document_insight.Store.Chunks
use document_insight.Store.Chunks.{ChunkForEmbedding, ChunkEmbedding, Vector}
use document_insight.Store.System.{Database, Action, pure, raise, execute, ◌>>=◌, ◌>>◌}
use document_insight.Processing.Failures.{Failure, assertion_error, other, Outside}
use document_insight.Processing.Stages.Blocks.{begin}

-- `assert x is not None`
abbrev pub assert_some : Option ℕ → Action Failure ℕ
assert_some none = raise assertion_error
assert_some (some x) = pure x

abbrev pub open_chunking : Option IndexGeneration → Bool
open_chunking none = false
open_chunking (some g) = elim g.chunking_completed_at [ none ↦ true | some _ ↦ false ]

abbrev pub open_embedding : Option IndexGeneration → Bool
open_embedding none = false
open_embedding (some g) = elim g.embedding_completed_at [ none ↦ true | some _ ↦ false ]

abbrev pub save_chunks :
    Outside → ProcessingDocumentVersion → Language → ℕ → List DocumentChunk → Database → Database
save_chunks o version language ig_id chunks d =
    if open_chunking (Generations.get ig_id version.tenant_id d.generations)
    then record d {
      chunks =
          Chunks.create_many o.new_id
            (record {
              document_version_id = version.document_version_id;
              index_generation_id = ig_id;
              tenant_id = version.tenant_id;
              language = language;
              chunks = chunks;
            })
            d.chunks;
      generations = Generations.mark_chunking_complete ig_id o.now d.generations;
    }
    else d

-- the chunker's fuel never runs out (Chunker.Document)
abbrev pub chunked : Option (List DocumentChunk) → Action Failure (List DocumentChunk)
chunked none = raise other
chunked (some cs) = pure cs

-- the new `ig_id`, which stays `None` behind a finished checkpoint
unfoldable pub chunk_stage :
    Outside
    → ProcessingJob
    → ProcessingDocumentVersion
    → IndexGeneration
    → Chunker
    → Text
    → Language
    → Action Failure (Option ℕ)
chunk_stage o job version generation chunker text language = elim generation.chunking_completed_at [
  | some _ ↦ pure none
  | none ↦ do
    ig_id ← assert_some job.index_generation_id
    chunks ← chunked (chunk chunker text)
    begin (execute (save_chunks o version language ig_id chunks))
    pure (some ig_id)
]
