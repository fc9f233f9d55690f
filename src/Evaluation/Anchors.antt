-- ===== src/Evaluation/Anchors.antt =====
-- The text form of a source span, `version@page:start:end` (application/evaluation/scoring.py).
use document_insight.Prelude.{
  ◌<◌, ◌^◌, ◌≡◌, refl, true, Option, none, some, ◌∷◌, ◌++◌, if◌then◌else◌,
}
use document_insight.Chunker.Text.{Text}
use document_insight.Codec.Decimal.{
  decimal_text, parse_int, parse_int-decimal_text, decimal_text-Lacks,
}
use document_insight.Codec.Uuid.{uuid_text, parse_uuid, parse_uuid-uuid_text, uuid_text-Lacks}
use document_insight.Codec.Split.{split_once, split_once-append}
use document_insight.Evaluation.Scoring.{SourceSpan, is_valid}

-- an at sign and colons between the parts
unfoldable pub encode : SourceSpan → Text
unfolding uuid_text decimal_text
encode span =
    uuid_text span.document_version_id
    ++ 64
      ∷ (decimal_text span.page_number
          ++ 58 ∷ (decimal_text span.start_offset ++ 58 ∷ decimal_text span.end_offset))

infixl 5 ◌>>=◌
abbrev ◌>>=◌ : {A B : Type 0} → Option A → (A → Option B) → Option B
none >>= f = none
some a >>= f = f a

-- `none` is the `ValueError`; `__post_init__` refuses the spans that are not valid.
unfoldable pub parse : Text → Option SourceSpan
unfolding split_once parse_uuid parse_int is_valid
parse value = do
  (version, rest) ← split_once 64 value
  (page, offsets) ← split_once 58 rest
  (start, end) ← split_once 58 offsets
  document_version_id ← parse_uuid version
  page_number ← parse_int page
  start_offset ← parse_int start
  end_offset ← parse_int end
  let span : SourceSpan = record {
    document_version_id = document_version_id;
    page_number = page_number;
    start_offset = start_offset;
    end_offset = end_offset;
  }
  if is_valid span then some span else none

-- An anchor reads back as the span that it was written for.
pub parse-encode :
    (span : SourceSpan)
    → is_valid span ≡ true
    → span.document_version_id < 2 ^ 128
    → parse (encode span) ≡ some span
unfolding parse encode
parse-encode span valid small =
    let page = decimal_text span.page_number in
    let start = decimal_text span.start_offset in
    let end = decimal_text span.end_offset in
    rw
      (
        split_once-append 64 (uuid_text span.document_version_id) (page ++ 58 ∷ (start ++ 58 ∷ end))
            (uuid_text-Lacks 64 span.document_version_id refl refl),
        split_once-append 58 page (start ++ 58 ∷ end) (decimal_text-Lacks 58 span.page_number refl),
        split_once-append 58 start end (decimal_text-Lacks 58 span.start_offset refl),
        parse_uuid-uuid_text span.document_version_id small,
        parse_int-decimal_text span.page_number,
        parse_int-decimal_text span.start_offset,
        parse_int-decimal_text span.end_offset,
        valid,
      )
      refl
