-- ===== src/Ingestion/Settings.antt =====
-- What the ingestion service is configured with, and what it answers (application/ingestion/service.py
-- and models.py).
use document_insight.Prelude.{ℕ, Bool, Option, List}
use document_insight.Store.Versions.{MediaType, ObjectKey}

-- The service's settings and what one upload gets from outside: the time, the random ids, the
-- digest, and which outside calls succeed. `reads`, `commits` and `marks` are the fates of the three
-- transactions: that of the departments, that of the metadata and that of the enqueued mark.
pub record IngestionService : Type 0 where
  pub max_upload_bytes : ℕ
  pub evaluation_tenant_id : Option ℕ
  pub now : ℕ
  pub new_document_id : ℕ
  pub version_id : ℕ
  pub index_generation_id : ℕ
  pub job_id : ℕ
  pub idempotency_key : ℕ
  pub sha256 : List ℕ → ℕ
  pub puts : Bool
  pub deletes : Bool
  pub enqueues : Bool
  pub reads : Bool
  pub commits : Bool
  pub marks : Bool

pub record IngestionResult : Type 0 where
  pub document_id : ℕ
  pub document_version_id : ℕ
  pub job_id : ℕ
  pub version_number : ℕ
  pub object_key : ObjectKey
  pub media_type : MediaType
  pub size_bytes : ℕ
  pub content_sha256 : ℕ
