-- ===== src/Processing/Checkpoints.antt =====
-- The checkpoints of the stages: repeating a stage's transaction changes nothing.
use Prim.Native.String.{String}
use document_insight.Prelude.{ℕ, ◌≡◌, refl, inl, inr, true, false, List, [], ◌∷◌, arith, Bool-cases}
use document_insight.Configuration.Models.{ResolvedIngestionProfile}
use document_insight.Chunker.Window.{DocumentChunk}
use document_insight.Store.Versions.{ProcessingDocumentVersion}
use document_insight.Store.Extracted
use document_insight.Store.Extracted.{
  Language, ParsedDocument, ExtractedRow, of_version, is_some, completed,
}
use document_insight.Store.Generations
use document_insight.Store.Generations.{GenerationRow, in_tenant, has_id}
use document_insight.Store.Chunks.{ChunkEmbedding}
use document_insight.Store.Entities.{NerResult}
use document_insight.Store.System.{Database}
use document_insight.Processing.Failures.{Outside}
use document_insight.Processing.Stages.Parsing.{save_parsed}
use document_insight.Processing.Stages.Recognition.{save_entities}
use document_insight.Processing.Stages.Chunking.{save_chunks, open_chunking, open_embedding}
use document_insight.Processing.Stages.Embedding.{save_embeddings}

chunking_shut :
    (ig tenant t : ℕ) (rows : Generations.Generations)
    → open_chunking (Generations.get ig tenant (Generations.mark_chunking_complete ig t rows))
      ≡ false
unfolding Generations.get Generations.mark_chunking_complete
chunking_shut ig tenant t [] = refl
chunking_shut ig tenant t (row ∷ rows) = ground (arith, chunking_shut ig tenant t rows)

embedding_shut :
    (ig tenant t : ℕ) (rows : Generations.Generations)
    → open_embedding (Generations.get ig tenant (Generations.mark_embedding_complete ig t rows))
      ≡ false
unfolding Generations.get Generations.mark_embedding_complete
embedding_shut ig tenant t [] = refl
embedding_shut ig tenant t (row ∷ rows) = ground (arith, embedding_shut ig tenant t rows)

-- Storing chunks is idempotent: a second transaction for the same generation, with any chunks and
-- at any time, finds the checkpoint and changes nothing.
pub save_chunks-save_chunks :
    (o o' : Outside) (version : ProcessingDocumentVersion) (l l' : Language) (ig : ℕ)
    (cs cs' : List DocumentChunk) (d : Database)
    → let d' = save_chunks o version l ig cs d in save_chunks o' version l' ig cs' d' ≡ d'
save_chunks-save_chunks o o' version l l' ig cs cs' d =
    elim (Bool-cases (open_chunking (Generations.get ig version.tenant_id d.generations))) [
      | inl e ↦ rw e (rw (chunking_shut ig version.tenant_id o.now d.generations))
      | inr e ↦ rw e (rw e)
    ]

-- Storing vectors is idempotent in the same way.
pub save_embeddings-save_embeddings :
    (o o' : Outside) (version : ProcessingDocumentVersion) (p p' : ResolvedIngestionProfile)
    (ig : ℕ) (es es' : List ChunkEmbedding) (d : Database)
    → let d' = save_embeddings o version p ig es d in save_embeddings o' version p' ig es' d' ≡ d'
save_embeddings-save_embeddings o o' version p p' ig es es' d =
    elim (Bool-cases (open_embedding (Generations.get ig version.tenant_id d.generations))) [
      | inl e ↦ rw e (rw (embedding_shut ig version.tenant_id o.now d.generations))
      | inr e ↦ rw e (rw e)
    ]

created_exists :
    (id tenant : ℕ) (parsed : ParsedDocument) (rows : List ExtractedRow)
    → Extracted.exists id (Extracted.create id tenant parsed rows) ≡ true
unfolding Extracted.exists Extracted.create
created_exists id tenant parsed [] = ground arith
created_exists id tenant parsed (row ∷ rows) = ground (arith, created_exists id tenant parsed rows)

-- Storing the parsed text is idempotent: a version has one text, the first one parsed.
pub save_parsed-save_parsed :
    (version : ProcessingDocumentVersion) (parsed parsed' : ParsedDocument) (d : Database)
    → let d' = save_parsed version parsed d in save_parsed version parsed' d' ≡ d'
save_parsed-save_parsed version parsed parsed' d =
    elim (Bool-cases (Extracted.exists version.document_version_id d.extracted)) [
      | inl e ↦ rw e (rw e)
      | inr e ↦
          rw e
            (rw (created_exists version.document_version_id version.tenant_id parsed d.extracted))
    ]

ner_shut :
    (id : ℕ) (l : Language) (provider model : String) (t : ℕ) (rows : List ExtractedRow)
    → Extracted.exists id rows ≡ true
    → Extracted.ner_is_complete id (Extracted.mark_ner_complete id l provider model t rows) ≡ true
unfolding Extracted.exists Extracted.ner_is_complete Extracted.mark_ner_complete
ner_shut id l provider model t [] e = cc
ner_shut id l provider model t (row ∷ rows) e = ground (arith, ner_shut id l provider model t rows)

-- Storing the entities is idempotent once the version's text is stored: no entity is counted twice.
pub save_entities-save_entities :
    (o o' : Outside) (version : ProcessingDocumentVersion) (r r' : NerResult) (d : Database)
    → Extracted.exists version.document_version_id d.extracted ≡ true
    → let d' = save_entities o version r d in save_entities o' version r' d' ≡ d'
save_entities-save_entities o o' version r r' d stored =
    elim (Bool-cases (Extracted.ner_is_complete version.document_version_id d.extracted)) [
      | inl e ↦ rw e (rw e)
      | inr e ↦ rw e (
          rw (
            ner_shut version.document_version_id r.language r.provider_name r.model_name o.now
              d.extracted stored))
    ]
