-- ===== src/Processing/Stages/Parsing.antt =====
-- The parsing stage of `_process_version` (application/processing/service.py). Metrics and logs are
-- left out here and in the other stages.
use document_insight.Prelude.{ℕ, Option, none, some, List, if◌then◌else◌}
use document_insight.Chunker.Text.{Text}
use document_insight.Job.Model.{ProcessingJob}
use document_insight.Store.Versions.{MediaType, pdf, ProcessingDocumentVersion}
use document_insight.Store.Extracted
use document_insight.Store.Extracted.{Language, ParsedDocument}
use document_insight.Store.System.{Database, Result, ok, err, Action, pure, raise, execute, ◌>>◌}
use document_insight.Processing.Failures.{Failure, is_parsing_error, Outside}
use document_insight.Processing.Stages.Blocks.{begin, fail_stage}

abbrev pub parser_for : Outside → MediaType → List ℕ → Result Failure ParsedDocument
parser_for o pdf = o.parse_pdf
parser_for o _ = o.parse_image

-- The media type is one of the three, so the source's guard against others never fires.
unfoldable pub parse_original : Outside → ProcessingDocumentVersion → Result Failure ParsedDocument
parse_original o version = elim (o.fetch version.object_key) [
  | err e ↦ err e
  | ok content ↦ parser_for o version.media_type content
]

abbrev pub save_parsed : ProcessingDocumentVersion → ParsedDocument → Database → Database
save_parsed version parsed d =
    if Extracted.exists version.document_version_id d.extracted then d else record d {
      extracted = Extracted.create version.document_version_id version.tenant_id parsed d.extracted;
    }

-- `none`: the stage has failed the job and the run returns
unfoldable pub after_parse :
    Outside
    → ProcessingJob
    → ProcessingDocumentVersion
    → Result Failure ParsedDocument
    → Action Failure (Option Text)
unfolding fail_stage
after_parse o job version (ok parsed) =
    begin (execute (save_parsed version parsed)) >> pure (some parsed.text)
after_parse o job version (err e) =
    if is_parsing_error e
    then fail_stage o job version.document_version_id "document_parsing_failed" >> pure none
    else raise e

unfoldable pub parse_stage :
    Outside → ProcessingJob → ProcessingDocumentVersion → Option Text → Action Failure (Option Text)
unfolding after_parse parse_original
parse_stage o job version (some text) = pure (some text)
parse_stage o job version none = after_parse o job version (parse_original o version)
