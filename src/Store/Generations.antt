-- ===== src/Store/Generations.antt =====
-- `index_generations` and `SqlAlchemyIndexGenerationRepository` (infrastructure/index_generation/).
use mathlib.Core.Option
use document_insight.Prelude.{
  ℕ, Bool, true, false, ◌&&◌, Option, none, some, List, [], ◌∷◌, ◌++◌, ◌==◌, first_where,
  update_where, any, map, keep_if,
}

pub data GenerationStatus : Type 0 where
  building ready failed superseded : GenerationStatus

abbrev pub is_ready : GenerationStatus → Bool
is_ready ready = true
is_ready _ = false

pub record GenerationRow : Type 0 where
  pub id : ℕ
  pub tenant_id : ℕ
  pub document_version_id : ℕ
  pub ingestion_profile_id : ℕ
  pub status : GenerationStatus
  pub chunking_completed_at : Option ℕ
  pub lexical_indexed_at : Option ℕ
  pub embedding_completed_at : Option ℕ
  pub created_at : ℕ

abbrev pub Generations : Type 0
Generations = List GenerationRow

-- what `get` hands to the worker
pub record IndexGeneration : Type 0 where
  pub index_generation_id : ℕ
  pub ingestion_profile_id : ℕ
  pub chunking_completed_at : Option ℕ
  pub embedding_completed_at : Option ℕ

unfoldable pub create : ℕ → ℕ → ℕ → ℕ → ℕ → Generations → Generations
create index_generation_id tenant_id document_version_id ingestion_profile_id now rows =
    rows
    ++ record {
      id = index_generation_id;
      tenant_id = tenant_id;
      document_version_id = document_version_id;
      ingestion_profile_id = ingestion_profile_id;
      status = building;
      chunking_completed_at = none;
      lexical_indexed_at = none;
      embedding_completed_at = none;
      created_at = now;
    }
      ∷ []

abbrev pub generation_of : GenerationRow → IndexGeneration
generation_of row = record {
  index_generation_id = row.id;
  ingestion_profile_id = row.ingestion_profile_id;
  chunking_completed_at = row.chunking_completed_at;
  embedding_completed_at = row.embedding_completed_at;
}

abbrev pub in_tenant : ℕ → ℕ → GenerationRow → Bool
in_tenant index_generation_id tenant_id row =
    (row.id == index_generation_id) && (row.tenant_id == tenant_id)

unfoldable pub get : ℕ → ℕ → Generations → Option IndexGeneration
get index_generation_id tenant_id rows =
    Option.map generation_of (first_where (in_tenant index_generation_id tenant_id) rows)

abbrev pub has_id : ℕ → GenerationRow → Bool
has_id index_generation_id row = row.id == index_generation_id

unfoldable pub mark_chunking_complete : ℕ → ℕ → Generations → Generations
mark_chunking_complete index_generation_id completed_at =
    update_where (has_id index_generation_id) (λ row. record row {
      chunking_completed_at = some completed_at;
      lexical_indexed_at = some completed_at;
    })

unfoldable pub mark_embedding_complete : ℕ → ℕ → Generations → Generations
mark_embedding_complete index_generation_id completed_at =
    update_where (has_id index_generation_id)
      (λ row. record row { embedding_completed_at = some completed_at })

unfoldable pub mark_ready : ℕ → Generations → Generations
mark_ready index_generation_id =
    update_where (has_id index_generation_id) (λ row. record row { status = ready })

-- without the query's DISTINCT: the one caller makes a set of the ids
unfoldable pub referenced_ingestion_profile_ids : Generations → List ℕ
referenced_ingestion_profile_ids rows =
    map (λ row. row.ingestion_profile_id) (keep_if (λ row. is_ready row.status) rows)

unfoldable pub has_ready_generation : ℕ → ℕ → ℕ → Generations → Bool
has_ready_generation document_version_id tenant_id ingestion_profile_id = any (λ row.
    (row.document_version_id == document_version_id)
    && (row.tenant_id == tenant_id)
    && (row.ingestion_profile_id == ingestion_profile_id)
    && is_ready row.status)
