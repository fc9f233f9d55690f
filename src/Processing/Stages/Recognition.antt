-- ===== src/Processing/Stages/Recognition.antt =====
-- The entity stage of `_process_version` (application/processing/service.py).
use document_insight.Prelude.{Bool, true, false, Option, none, some, if◌then◌else◌}
use document_insight.Chunker.Text.{Text}
use document_insight.Configuration.Models.{ResolvedIngestionProfile}
use document_insight.Job.Model.{ProcessingJob}
use document_insight.Store.Versions.{ProcessingDocumentVersion}
use document_insight.Store.Extracted
use document_insight.Store.Extracted.{Language, ParsedDocument}
use document_insight.Store.Entities
use document_insight.Store.Entities.{NerResult, canonicalize_entities}
use document_insight.Store.System.{
  Database, Result, ok, err, Action, pure, raise, query, execute, ◌>>=◌, ◌>>◌,
}
use document_insight.Processing.Failures.{Failure, ner_error, value_error, Outside}
use document_insight.Processing.Stages.Blocks.{begin, fail_stage}

abbrev pub save_entities : Outside → ProcessingDocumentVersion → NerResult → Database → Database
save_entities o version result d =
    if Extracted.ner_is_complete version.document_version_id d.extracted then d else record d {
      entities =
          Entities.create_many
            (record {
              document_version_id = version.document_version_id;
              tenant_id = version.tenant_id;
              language = result.language;
              ner_provider = result.provider_name;
              ner_model = result.model_name;
              entities = canonicalize_entities result.entities;
            })
            d.entities;
      extracted =
          Extracted.mark_ner_complete version.document_version_id result.language
            result.provider_name result.model_name o.now d.extracted;
    }

-- `except (NerError, ValueError)`
abbrev pub is_ner_failure : Failure → Bool
is_ner_failure ner_error = true
is_ner_failure value_error = true
is_ner_failure _ = false

unfoldable pub after_ner :
    Outside
    → ProcessingJob
    → ProcessingDocumentVersion
    → Result Failure NerResult
    → Action Failure (Option Language)
unfolding fail_stage
after_ner o job version (ok result) =
    begin (execute (save_entities o version result)) >> pure (some result.language)
after_ner o job version (err e) =
    if is_ner_failure e
    then fail_stage o job version.document_version_id "ner_failed" >> pure none
    else raise e

unfoldable pub after_metadata :
    Outside
    → ProcessingJob
    → ProcessingDocumentVersion
    → Option Language
    → Action Failure (Option Language)
unfolding fail_stage
after_metadata o job version none =
    fail_stage o job version.document_version_id "ner_metadata_missing" >> pure none
after_metadata o job version (some language) = pure (some language)

unfoldable pub ner_stage :
    Outside
    → ProcessingJob
    → ProcessingDocumentVersion
    → ResolvedIngestionProfile
    → Text
    → Bool
    → Action Failure (Option Language)
unfolding after_ner after_metadata
ner_stage o job version profile text true =
    begin (query (λ d. Extracted.get_ner_metadata version.document_version_id d.extracted))
    >>= after_metadata o job version
ner_stage o job version profile text false = after_ner o job version (o.recognize profile.ner text)
