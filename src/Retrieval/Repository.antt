-- ===== src/Retrieval/Repository.antt =====
-- `SqlAlchemyAuthorizedRetrievalRepository` (infrastructure/retrieval/repository.py) on the tables.
-- An id is a primary key, so that a join that only tests the joined row adds none twice.
use document_insight.Prelude.{
  ℕ, Bool, true, false, ◌&&◌, ◌||◌, Option, none, some, List, [], ◌∷◌, ◌==◌, leb, ltb, map, any,
  take, keep_if, flat_map, order_by,
}
use document_insight.Chunker.Text.{Text, code_points}
use document_insight.Store.Documents.{DocumentRow, contains}
use document_insight.Store.Generations.{is_ready}
use document_insight.Store.Chunks.{ChunkRow, Vector}
use document_insight.Store.Entities.{
  EntityRow, EntityLabel, person, org, gpe, loc, product, event, date,
}
use document_insight.Store.System.{Database}
use document_insight.Query.Models.{RetrievedChunk, EntityMatch, RetrievalScope}
use document_insight.Retrieval.Like.{split, contains_term}

-- PostgreSQL's full-text search and pgvector's distance, whose scores are the bit patterns of
-- doubles, and Python's `str.casefold`
pub record Engine : Type 0 where
  pub matches : Text → ChunkRow → Bool
  pub rank : Text → ChunkRow → ℕ
  pub distance : Vector → Vector → ℕ
  pub similarity : ℕ → ℕ
  pub casefold : Text → Text

-- `_authorized_document_predicate`
unfoldable pub authorized_document : RetrievalScope → Database → ℕ → Bool
authorized_document scope d document_id =
    any
      (λ a.
        (a.document_id == document_id)
        && (a.tenant_id == scope.tenant_id)
        && contains scope.department_ids a.department_id)
      d.assignments

abbrev pub is_current : Option ℕ → ℕ → Bool
is_current none version_id = false
is_current (some current) version_id = current == version_id

abbrev pub is_allowed : Option (List ℕ) → ℕ → Bool
is_allowed none version_id = true
is_allowed (some allowed) version_id = contains allowed version_id

-- the join condition and the WHERE clause that chunks and entities share
unfoldable pub visible : RetrievalScope → Database → ℕ → ℕ → DocumentRow → Bool
unfolding authorized_document
visible scope d tenant_id document_version_id document =
    is_current document.current_ready_version_id document_version_id
    && (tenant_id == scope.tenant_id)
    && (document.tenant_id == scope.tenant_id)
    && authorized_document scope d document.id
    && is_allowed scope.allowed_version_ids document_version_id

abbrev pub documents_of : RetrievalScope → Database → ChunkRow → List (ChunkRow × DocumentRow)
documents_of scope d chunk =
    map (λ document. (chunk, document))
      (keep_if (visible scope d chunk.tenant_id chunk.document_version_id) d.documents)

-- `_chunk_statement`
unfoldable pub chunk_statement : RetrievalScope → Database → List (ChunkRow × DocumentRow)
unfolding visible
chunk_statement scope d = flat_map (documents_of scope d) d.chunks

-- a selected row with its rank
abbrev pub Ranked : Type 0
Ranked = ℕ × ChunkRow × DocumentRow

-- `_chunks_from_rows`
abbrev pub to_retrieved : Ranked → RetrievedChunk
to_retrieved (score, chunk, document) = record {
  chunk_id = chunk.id;
  document_id = document.id;
  document_version_id = chunk.document_version_id;
  title = document.title;
  text = chunk.text;
  page_number = some chunk.page_number;
  score = score;
  start_offset = chunk.start_offset;
  end_offset = chunk.end_offset;
}

abbrev has_lexical_profile : ℕ → Database → ℕ → Bool
has_lexical_profile lexical_profile_id d ingestion_profile_id =
    any
      (λ p.
        (p.ingestion_profile_id == ingestion_profile_id)
        && (p.lexical_profile_id == lexical_profile_id))
      d.profiles.ingestion_profiles

-- the joins on the generation and on its ingestion profile
abbrev in_lexical_cohort : ℕ → Database → ChunkRow → Bool
in_lexical_cohort lexical_profile_id d chunk =
    any
      (λ g.
        (g.id == chunk.index_generation_id)
        && is_ready g.status
        && has_lexical_profile lexical_profile_id d g.ingestion_profile_id)
      d.generations

abbrev in_ready_generation : Database → ChunkRow → Bool
in_ready_generation d chunk =
    any (λ g. (g.id == chunk.index_generation_id) && is_ready g.status) d.generations

-- `ORDER BY rank DESC, id` and `ORDER BY distance, id`
abbrev best_first : Ranked → Ranked → Bool
best_first (r, c, _) (s, e, _) = ltb s r || ((r == s) && leb c.id e.id)

abbrev nearest_first : Ranked → Ranked → Bool
nearest_first (r, c, _) (s, e, _) = ltb r s || ((r == s) && leb c.id e.id)

abbrev with_rank : (ChunkRow → ℕ) → ChunkRow × DocumentRow → Ranked
with_rank rank (chunk, document) = (rank chunk, chunk, document)

-- the join on the embeddings of one profile, with the distance
abbrev pub with_distance : Engine → Database → ℕ → Vector → ChunkRow × DocumentRow → List Ranked
with_distance engine d profile_id vector (chunk, document) =
    map (λ e. (engine.distance e.embedding vector, chunk, document))
      (keep_if (λ e. (e.chunk_id == chunk.id) && (e.embedding_profile_id == profile_id))
        d.embeddings)

abbrev scored_by : (ℕ → ℕ) → Ranked → Ranked
scored_by score (r, chunk, document) = (score r, chunk, document)

abbrev pub unless_empty {ℓ κ} : {A : Type ℓ} {B : Type κ} → List A → List B → List B
unless_empty [] ys = []
unless_empty (x ∷ xs) ys = ys

-- the string of the label, as the column stores it
abbrev label_text : EntityLabel → Text
label_text person = code_points "PERSON"
label_text org = code_points "ORG"
label_text gpe = code_points "GPE"
label_text loc = code_points "LOC"
label_text product = code_points "PRODUCT"
label_text event = code_points "EVENT"
label_text date = code_points "DATE"

abbrev pub to_match : EntityRow → EntityMatch
to_match entity = record {
  document_version_id = entity.document_version_id;
  display_value = entity.display_value;
  label = label_text entity.label;
}

module _ (engine : Engine) (d : Database) where
  abbrev pub lexical_rows : RetrievalScope → ℕ → Text → List Ranked
  lexical_rows scope lexical_profile_id query_text = map (with_rank (engine.rank query_text)) (
      keep_if
        (λ row. in_lexical_cohort lexical_profile_id d row.0 && engine.matches query_text row.0)
        (chunk_statement scope d))

  abbrev pub vector_rows : RetrievalScope → ℕ → Vector → List Ranked
  vector_rows scope embedding_profile_id vector =
      flat_map (with_distance engine d embedding_profile_id vector)
        (keep_if (λ row. in_ready_generation d row.0) (chunk_statement scope d))

  unfoldable pub lexical_search : RetrievalScope → ℕ → Text → ℕ → List RetrievedChunk
  unfolding chunk_statement
  lexical_search scope lexical_profile_id query_text limit = unless_empty scope.department_ids (
      map to_retrieved
        (take limit (order_by best_first (lexical_rows scope lexical_profile_id query_text))))

  unfoldable pub vector_search : RetrievalScope → ℕ → Vector → ℕ → List RetrievedChunk
  unfolding chunk_statement
  vector_search scope embedding_profile_id vector limit = unless_empty scope.department_ids (
      map to_retrieved (
        map (scored_by engine.similarity)
          (take limit (order_by nearest_first (vector_rows scope embedding_profile_id vector)))))

  abbrev has_term : List Text → EntityRow → Bool
  has_term terms entity = any (contains_term entity.normalized_value) terms

  abbrev pub entity_rows : RetrievalScope → List Text → List EntityRow
  entity_rows scope terms =
      flat_map
        (λ entity.
          map (λ document. entity)
            (keep_if
              (λ document.
                visible scope d entity.tenant_id entity.document_version_id document
                && has_term terms entity)
              d.documents))
        d.entities

  abbrev more_frequent : EntityRow → EntityRow → Bool
  more_frequent a b = leb b.occurrence_count a.occurrence_count

  unfoldable pub find_entity_matches : RetrievalScope → Text → ℕ → List EntityMatch
  unfolding visible split contains_term
  find_entity_matches scope filter_text limit =
      let terms = split (engine.casefold filter_text) in
      unless_empty terms (
        unless_empty scope.department_ids
          (map to_match (take limit (order_by more_frequent (entity_rows scope terms)))))
