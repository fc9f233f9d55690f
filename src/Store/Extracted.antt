-- ===== src/Store/Extracted.antt =====
-- `extracted_documents` and `SqlAlchemyExtractedDocumentRepository`
-- (infrastructure/extracted_document/), with the parser's and the recogniser's results
-- (application/processing/models.py).
use Prim.Native.String.{String}
use mathlib.Core.Option
use document_insight.Prelude.{
  ℕ, Bool, true, false, Option, none, some, List, [], ◌∷◌, ◌++◌, ◌==◌, first_where, update_where,
}
use document_insight.Chunker.Text.{Text}

pub data Language : Type 0 where
  english croatian : Language

pub record ParsedDocument : Type 0 where
  pub text : Text
  pub page_count : ℕ
  pub parser_name : String
  pub parser_version : String

pub record ExtractedRow : Type 0 where
  pub document_version_id : ℕ
  pub tenant_id : ℕ
  pub text : Text
  pub page_count : ℕ
  pub parser_name : String
  pub parser_version : String
  pub detected_language : Option Language
  pub ner_provider : Option String
  pub ner_model : Option String
  pub ner_completed_at : Option ℕ

abbrev pub Extracted : Type 0
Extracted = List ExtractedRow

abbrev pub of_version : ℕ → ExtractedRow → Bool
of_version document_version_id row = row.document_version_id == document_version_id

abbrev pub is_some {ℓ} : {A : Type ℓ} → Option A → Bool
is_some none = false
is_some (some _) = true

unfoldable pub exists : ℕ → Extracted → Bool
exists version_id rows = is_some (first_where (of_version version_id) rows)

unfoldable pub create : ℕ → ℕ → ParsedDocument → Extracted → Extracted
create version_id tenant_id parsed rows =
    rows
    ++ record {
      document_version_id = version_id;
      tenant_id = tenant_id;
      text = parsed.text;
      page_count = parsed.page_count;
      parser_name = parsed.parser_name;
      parser_version = parsed.parser_version;
      detected_language = none;
      ner_provider = none;
      ner_model = none;
      ner_completed_at = none;
    }
      ∷ []

unfoldable pub get_text : ℕ → Extracted → Option Text
get_text version_id rows = Option.map (λ row. row.text) (first_where (of_version version_id) rows)

abbrev pub completed : Option ExtractedRow → Bool
completed none = false
completed (some row) = is_some row.ner_completed_at

unfoldable pub ner_is_complete : ℕ → Extracted → Bool
ner_is_complete version_id rows = completed (first_where (of_version version_id) rows)

unfoldable pub mark_ner_complete : ℕ → Language → String → String → ℕ → Extracted → Extracted
mark_ner_complete version_id language provider_name model_name completed_at =
    update_where (of_version version_id) (λ row. record row {
      detected_language = some language;
      ner_provider = some provider_name;
      ner_model = some model_name;
      ner_completed_at = some completed_at;
    })

abbrev pub language_of : Option ExtractedRow → Option Language
language_of none = none
language_of (some row) = row.detected_language

-- the language inside the `NerMetadata`
unfoldable pub get_ner_metadata : ℕ → Extracted → Option Language
get_ner_metadata version_id rows = language_of (first_where (of_version version_id) rows)
