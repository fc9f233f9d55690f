-- ===== src/Evaluation/Manifest.antt =====
-- `CorpusVariant` and `EvaluationCorpusManifest` with their JSON (application/evaluation/models.py).
use document_insight.Prelude.{
  ℕ, Bool, not, Option, none, some, List, [], ◌∷◌, ◌==◌, ◌||◌, any, length, keep_if, ◌++◌,
  if◌then◌else◌,
}
use document_insight.Chunker.Text.{Text, code_points}
use document_insight.Codec.Uuid.{uuid_text, parse_uuid}
use document_insight.Codec.Json.{
  Value, null, text, array, object, Items, nil, cons, Fields, end, field, get, text_of, is_true,
}

-- `source_versions` is a dict: its entries in insertion order
pub record CorpusVariant : Type 0 where
  pub version_ids : List ℕ
  pub source_versions : List (ℕ × ℕ)

pub record EvaluationCorpusManifest : Type 0 where
  pub suite_fingerprint : Text
  pub baseline : CorpusVariant
  pub candidate : CorpusVariant
  pub baseline_query_profile_id : ℕ
  pub candidate_query_profile_id : ℕ
  pub baseline_ingestion_profile_id : Option ℕ
  pub candidate_ingestion_profile_id : Option ℕ

unfoldable pub items_of : List ℕ → Items
items_of [] = nil
items_of (id ∷ ids) = cons (text (uuid_text id)) (items_of ids)

unfoldable pub fields_of : List (ℕ × ℕ) → Fields
fields_of [] = end
fields_of ((indexed, source) ∷ pairs) =
    field (uuid_text indexed) (text (uuid_text source)) (fields_of pairs)

-- `CorpusVariant.to_json`
unfoldable pub variant_to_json : CorpusVariant → Value
unfolding items_of fields_of
variant_to_json corpus = object (
    field (code_points "version_ids") (array (items_of corpus.version_ids))
      (field (code_points "source_versions") (object (fields_of corpus.source_versions)) end))

abbrev pub id_to_json : Option ℕ → Value
id_to_json none = null
id_to_json (some id) = text (uuid_text id)

-- `EvaluationCorpusManifest.to_json`
unfoldable pub to_json : EvaluationCorpusManifest → Fields
unfolding variant_to_json
to_json m = field (code_points "suite_fingerprint") (text m.suite_fingerprint) (
    field (code_points "baseline") (variant_to_json m.baseline) (
      field (code_points "candidate") (variant_to_json m.candidate) (
        field (code_points "baseline_query_profile_id")
          (text (uuid_text m.baseline_query_profile_id))
          (field (code_points "candidate_query_profile_id")
            (text (uuid_text m.candidate_query_profile_id))
            (field (code_points "baseline_ingestion_profile_id")
              (id_to_json m.baseline_ingestion_profile_id)
              (field (code_points "candidate_ingestion_profile_id")
                (id_to_json m.candidate_ingestion_profile_id) end))))))

infixl 5 ◌>>=◌
abbrev pub ◌>>=◌ : {A B : Type 0} → Option A → (A → Option B) → Option B
none >>= f = none
some a >>= f = f a

abbrev pub read_uuid : Value → Option ℕ
read_uuid value = parse_uuid (text_of value)

unfoldable pub read_ids : Items → Option (List ℕ)
read_ids nil = some []
read_ids (cons value values) = do id ← read_uuid value; ids ← read_ids values; some (id ∷ ids)

abbrev pub has_key : List (ℕ × ℕ) → ℕ → Bool
has_key pairs key = any (λ (p : ℕ × ℕ). p.0 == key) pairs

abbrev has_entry : ℕ → ℕ × ℕ → Bool
has_entry key p = p.0 == key

-- An entry before others of a dict: where its key comes again, it keeps its place and takes the
-- later value.
unfoldable pub add_entry : ℕ × ℕ → List (ℕ × ℕ) → List (ℕ × ℕ)
add_entry entry pairs =
    if has_key pairs entry.0
    then keep_if (has_entry entry.0) pairs ++ keep_if (λ p. not (has_entry entry.0 p)) pairs
    else entry ∷ pairs

unfoldable pub read_pairs : Fields → Option (List (ℕ × ℕ))
unfolding parse_uuid add_entry
read_pairs end = some []
read_pairs (field name value fields) = do
  indexed ← parse_uuid name
  source ← read_uuid value
  pairs ← read_pairs fields
  some (add_entry (indexed, source) pairs)

abbrev pub has_no_source : List (ℕ × ℕ) → ℕ → Bool
has_no_source pairs id = not (has_key pairs id)

abbrev pub checked : CorpusVariant → Option CorpusVariant
checked corpus =
    if (length corpus.version_ids == 0)
      || any (has_no_source corpus.source_versions) corpus.version_ids
    then none
    else some corpus

abbrev pub read_variant : Value → Value → Option CorpusVariant
read_variant (array versions) (object mapping) = do
  version_ids ← read_ids versions
  source_versions ← read_pairs mapping
  checked (record { version_ids = version_ids; source_versions = source_versions })
read_variant _ _ = none

-- `CorpusVariant.from_json`; `none` is the `ValueError`
unfoldable pub variant_from_json : Value → Option CorpusVariant
unfolding get read_ids read_pairs
variant_from_json (object raw) =
    read_variant (get (code_points "version_ids") raw) (get (code_points "source_versions") raw)
variant_from_json _ = none

abbrev pub read_fingerprint : Value → Option Text
read_fingerprint (text t) = if length t == 64 then some t else none
read_fingerprint _ = none

abbrev pub read_optional : Value → Option (Option ℕ)
read_optional value =
    let given = read_uuid value >>= λ id. some (some id) in
    if is_true value then given else some none

-- `EvaluationCorpusManifest.from_json`
unfoldable pub from_json : Fields → Option EvaluationCorpusManifest
unfolding variant_from_json
from_json raw = do
  suite_fingerprint ← read_fingerprint (get (code_points "suite_fingerprint") raw)
  baseline ← variant_from_json (get (code_points "baseline") raw)
  candidate ← variant_from_json (get (code_points "candidate") raw)
  baseline_query ← read_uuid (get (code_points "baseline_query_profile_id") raw)
  candidate_query ← read_uuid (get (code_points "candidate_query_profile_id") raw)
  baseline_ingestion ← read_optional (get (code_points "baseline_ingestion_profile_id") raw)
  candidate_ingestion ← read_optional (get (code_points "candidate_ingestion_profile_id") raw)
  some (record {
    suite_fingerprint = suite_fingerprint;
    baseline = baseline;
    candidate = candidate;
    baseline_query_profile_id = baseline_query;
    candidate_query_profile_id = candidate_query;
    baseline_ingestion_profile_id = baseline_ingestion;
    candidate_ingestion_profile_id = candidate_ingestion;
  })
