-- ===== src/Evaluation/FormTests.antt =====
-- A span and a manifest in their stored forms.
use document_insight.Prelude.{◌≡◌, refl, true, none, some, [], ◌∷◌, arith}
use document_insight.Chunker.Text.{Text, code_points}
use document_insight.Codec.Json.{Fields, field, text, end, lacks, append}
use document_insight.Evaluation.Scoring.{SourceSpan, is_valid}
use document_insight.Evaluation.Anchors.{encode, parse, parse-encode}
use document_insight.Evaluation.Manifest.{
  CorpusVariant, EvaluationCorpusManifest, to_json, from_json,
}
use document_insight.Evaluation.ManifestForm.{IsCorpus, IsManifest, from_json-to_json}

abbrev span : SourceSpan
span = record { document_version_id = 20; page_number = 1; start_offset = 0; end_offset = 13 }

valid_span : is_valid span ≡ true
unfolding is_valid
valid_span = refl

parse-encode_example : parse (encode span) ≡ some span
parse-encode_example = parse-encode span valid_span (omega arith)

abbrev digest : Text
digest = code_points "0123456789abcdef0123456789abcdef0123456789abcdef0123456789abcdef"

abbrev corpus : CorpusVariant
corpus = record { version_ids = 20 ∷ []; source_versions = (20, 20) ∷ [] }

abbrev manifest : EvaluationCorpusManifest
manifest = record {
  suite_fingerprint = digest;
  baseline = corpus;
  candidate = corpus;
  baseline_query_profile_id = 70;
  candidate_query_profile_id = 71;
  baseline_ingestion_profile_id = none;
  candidate_ingestion_profile_id = some 50;
}

manifest-IsManifest : IsManifest manifest
manifest-IsManifest =
    let corpus-IsCorpus : IsCorpus corpus = record {
      ids = (omega arith, tt);
      entries = ((omega arith, omega arith), tt);
      distinct = refl;
      nonempty = refl;
      mapped = refl;
    } in
    record {
      digest = refl;
      baseline = corpus-IsCorpus;
      candidate = corpus-IsCorpus;
      baseline_query = omega arith;
      candidate_query = omega arith;
      baseline_ingestion = tt;
      candidate_ingestion = omega arith;
    }

abbrev tenant : Fields
tenant = field (code_points "evaluation_tenant_id") (text (code_points "t")) end

from_json-to_json_example : from_json (append (to_json manifest) tenant) ≡ some manifest
unfolding lacks
from_json-to_json_example =
    from_json-to_json manifest tenant manifest-IsManifest
      (refl, (refl, (refl, (refl, (refl, (refl, (refl, tt)))))))
