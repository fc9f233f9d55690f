-- ===== src/Processing/Failures.antt =====
-- The exceptions of the worker (application/processing/exceptions.py and what else it raises), and
-- the outside world that it calls.
use Prim.Native.String.{String}
use document_insight.Prelude.{ℕ, Bool, true, false, List}
use document_insight.Chunker.Text.{Text}
use document_insight.Configuration.Models.{NerConfiguration, EmbeddingConfiguration}
use document_insight.Store.Versions.{ObjectKey}
use document_insight.Store.Extracted.{ParsedDocument}
use document_insight.Store.Entities.{NerResult}
use document_insight.Store.Chunks.{Vector}
use document_insight.Store.System.{Result}

-- `database_error` is an exception of the database, `invalid_request` SQLAlchemy's refusal of a second `begin()`; `other` is any exception that the
-- worker names nowhere.
pub data Failure : Type 0 where
  parsing_error unsupported_media_type ner_error embedding_error : Failure
  value_error assertion_error storage_unavailable database_error invalid_request other : Failure

-- `isinstance(error, ParsingError)`: the media-type error is a subclass
abbrev pub is_parsing_error : Failure → Bool
is_parsing_error parsing_error = true
is_parsing_error unsupported_media_type = true
is_parsing_error _ = false

-- `type(error).__name__`
abbrev pub class_name : Failure → String
class_name parsing_error = "ParsingError"
class_name unsupported_media_type = "UnsupportedProcessingMediaTypeError"
class_name ner_error = "NerError"
class_name embedding_error = "EmbeddingError"
class_name value_error = "ValueError"
class_name assertion_error = "AssertionError"
class_name storage_unavailable = "ObjectStorageUnavailableError"
class_name database_error = "DBAPIError"
class_name invalid_request = "InvalidRequestError"
class_name other = "Exception"

-- What one run of the worker gets from outside: the object store, the parsers, the recogniser, the
-- embedder, fresh row ids, whether Redis takes a delivery, and the random part of the backoff.
-- `opens` is whether the database carries out the first transaction of the run, and `records` whether
-- it carries out the statements of the failure handlers.
-- `now` is the time of the run: each reading of the clock gives it.
pub record Outside : Type 0 where
  pub now : ℕ
  pub fetch : ObjectKey → Result Failure (List ℕ)
  pub parse_pdf : List ℕ → Result Failure ParsedDocument
  pub parse_image : List ℕ → Result Failure ParsedDocument
  pub recognize : NerConfiguration → Text → Result Failure NerResult
  pub create_embedder : EmbeddingConfiguration → Result Failure (Unit {0})
  pub embed : EmbeddingConfiguration → List Text → Result Failure (List Vector)
  pub new_id : ℕ → ℕ
  pub queue_accepts : Bool
  pub opens : Bool
  pub records : Bool
  pub jitter : ℕ
