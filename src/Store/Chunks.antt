-- ===== src/Store/Chunks.antt =====
-- `chunks` and `chunk_embeddings` with their repositories (infrastructure/chunk/ and
-- infrastructure/chunk_embedding/). A vector is the list of its components' bit patterns.
use document_insight.Prelude.{
  ℕ, Bool, ◌&&◌, List, [], ◌∷◌, ◌++◌, ◌==◌, map, leb, any, keep_if, if◌then◌else◌,
}
use document_insight.Chunker.Text.{Text}
use document_insight.Chunker.Window.{DocumentChunk}
use document_insight.Store.Extracted.{Language}

pub record ChunkRow : Type 0 where
  pub id : ℕ
  pub tenant_id : ℕ
  pub document_version_id : ℕ
  pub index_generation_id : ℕ
  pub ordinal : ℕ
  pub text : Text
  pub start_offset : ℕ
  pub end_offset : ℕ
  pub page_number : ℕ
  pub language : Language

pub record CreateChunks : Type 0 where
  pub document_version_id : ℕ
  pub index_generation_id : ℕ
  pub tenant_id : ℕ
  pub language : Language
  pub chunks : List DocumentChunk

-- `new_id` stands for the `uuid4` that the model draws for each row, by its ordinal.
abbrev pub row_of : (ℕ → ℕ) → CreateChunks → DocumentChunk → ChunkRow
row_of new_id command chunk = record {
  id = new_id chunk.ordinal;
  tenant_id = command.tenant_id;
  document_version_id = command.document_version_id;
  index_generation_id = command.index_generation_id;
  ordinal = chunk.ordinal;
  text = chunk.text;
  start_offset = chunk.start_offset;
  end_offset = chunk.end_offset;
  page_number = chunk.page_number;
  language = command.language;
}

unfoldable pub create_many : (ℕ → ℕ) → CreateChunks → List ChunkRow → List ChunkRow
create_many new_id command rows = rows ++ map (row_of new_id command) command.chunks

pub record ChunkForEmbedding : Type 0 where
  pub chunk_id : ℕ
  pub text : Text

unfoldable pub insert_by_ordinal : ChunkRow → List ChunkRow → List ChunkRow
insert_by_ordinal row [] = row ∷ []
insert_by_ordinal row (other ∷ rows) =
    if leb row.ordinal other.ordinal then row ∷ other ∷ rows else other ∷ insert_by_ordinal row rows

unfoldable pub order_by_ordinal : List ChunkRow → List ChunkRow
order_by_ordinal [] = []
order_by_ordinal (row ∷ rows) = insert_by_ordinal row (order_by_ordinal rows)

abbrev pub to_embed : ChunkRow → ChunkForEmbedding
to_embed row = record { chunk_id = row.id; text = row.text }

unfoldable pub list_for_embedding : ℕ → ℕ → List ChunkRow → List ChunkForEmbedding
unfolding order_by_ordinal insert_by_ordinal
list_for_embedding index_generation_id tenant_id rows = map to_embed (
    order_by_ordinal (
      keep_if
        (λ row. (row.index_generation_id == index_generation_id) && (row.tenant_id == tenant_id))
        rows))

abbrev pub Vector : Type 0
Vector = List ℕ

pub record ChunkEmbedding : Type 0 where
  pub chunk_id : ℕ
  pub values : Vector

pub record EmbeddingRow : Type 0 where
  pub chunk_id : ℕ
  pub embedding_profile_id : ℕ
  pub embedding : Vector

abbrev pub same_key : ℕ → ℕ → EmbeddingRow → Bool
same_key chunk_id profile_id row =
    (row.chunk_id == chunk_id) && (row.embedding_profile_id == profile_id)

-- `INSERT … ON CONFLICT DO NOTHING`, row by row
unfoldable pub create_embeddings : ℕ → List ChunkEmbedding → List EmbeddingRow → List EmbeddingRow
create_embeddings profile_id [] rows = rows
create_embeddings profile_id (e ∷ es) rows = create_embeddings profile_id es (
    if any (same_key e.chunk_id profile_id) rows
    then rows
    else rows
      ++ record { chunk_id = e.chunk_id; embedding_profile_id = profile_id; embedding = e.values }
        ∷ [])
