-- ===== src/Evaluation/ManifestForm.antt =====
-- The stored form of a corpus manifest reads back (application/evaluation/models.py).
use document_insight.Prelude.{
  ℕ, take, ◌<◌, ◌^◌, ◌≡◌, refl, Bool, true, false, not, ◌&&◌, Option, none, some, List, [], ◌∷◌,
  ◌++◌, ◌==◌, any, length, All, arith,
}
use document_insight.Chunker.Text.{Text, code_points}
use document_insight.Codec.Uuid.{uuid_text, parse_uuid-uuid_text}
use document_insight.Codec.Json.{text, Fields, get, lacks, is_true, append, get-append}
use document_insight.Store.Entities.{same_text}
use document_insight.Evaluation.Manifest.{
  CorpusVariant, EvaluationCorpusManifest, items_of, fields_of, variant_to_json, to_json,
  id_to_json, read_ids, read_pairs, add_entry, has_key, has_no_source, variant_from_json,
  read_optional, from_json,
}

-- 128 bits
abbrev pub IsId : ℕ → Type 0
IsId id = id < 2 ^ 128

abbrev pub IsOptionalId : Option ℕ → Type 0
IsOptionalId none = Unit
IsOptionalId (some id) = IsId id

-- a dict: no key comes twice
abbrev pub are_distinct : List (ℕ × ℕ) → Bool
are_distinct [] = true
are_distinct (p ∷ pairs) = not (has_key pairs p.0) && are_distinct pairs

-- What the launch of a run gives a variant: UUIDs, at least one version, and each with a source.
pub record IsCorpus (v : CorpusVariant) : Type 0 where
  pub ids : All IsId v.version_ids
  pub entries : All (λ p. IsId p.0 × IsId p.1) v.source_versions
  pub distinct : are_distinct v.source_versions ≡ true
  pub nonempty : (length v.version_ids == 0) ≡ false
  pub mapped : any (has_no_source v.source_versions) v.version_ids ≡ false

pub record IsManifest (m : EvaluationCorpusManifest) : Type 0 where
  pub digest : (length m.suite_fingerprint == 64) ≡ true
  pub baseline : IsCorpus m.baseline
  pub candidate : IsCorpus m.candidate
  pub baseline_query : IsId m.baseline_query_profile_id
  pub candidate_query : IsId m.candidate_query_profile_id
  pub baseline_ingestion : IsOptionalId m.baseline_ingestion_profile_id
  pub candidate_ingestion : IsOptionalId m.candidate_ingestion_profile_id

read_ids-items_of : (ids : List ℕ) → All IsId ids → read_ids (items_of ids) ≡ some ids
unfolding read_ids items_of
read_ids-items_of [] h = refl
read_ids-items_of (id ∷ ids) h = rw (parse_uuid-uuid_text id h.0, read_ids-items_of ids h.1) refl

read_pairs-fields_of :
    (pairs : List (ℕ × ℕ))
    → All (λ p. IsId p.0 × IsId p.1) pairs
    → are_distinct pairs ≡ true
    → read_pairs (fields_of pairs) ≡ some pairs
unfolding read_pairs fields_of add_entry
read_pairs-fields_of [] h d = refl
read_pairs-fields_of ((indexed, source) ∷ pairs) h d =
    let fresh : has_key pairs indexed ≡ false = ground arith in
    let rest : are_distinct pairs ≡ true = ground arith in
    rw
      (
        parse_uuid-uuid_text indexed h.0.0,
        parse_uuid-uuid_text source h.0.1,
        read_pairs-fields_of pairs h.1 rest,
        fresh,
      )
      refl

variant_from_json-to_json :
    (v : CorpusVariant) → IsCorpus v → variant_from_json (variant_to_json v) ≡ some v
unfolding variant_from_json variant_to_json same_text
variant_from_json-to_json v h =
    rw
      (
        read_ids-items_of v.version_ids h.ids,
        read_pairs-fields_of v.source_versions h.entries h.distinct,
        h.nonempty,
        h.mapped,
      )
      refl

is_true-append : (c : ℕ) (s t : Text) → is_true (text (s ++ c ∷ t)) ≡ true
is_true-append c [] t = refl
is_true-append c (d ∷ s) t = refl

is_true-uuid_text : (id : ℕ) → is_true (text (uuid_text id)) ≡ true
unfolding uuid_text
is_true-uuid_text id = is_true-append 45 (take 8 _) _

read_optional-id_to_json :
    (id : Option ℕ) → IsOptionalId id → read_optional (id_to_json id) ≡ some id
read_optional-id_to_json none h = refl
read_optional-id_to_json (some id) h = rw (is_true-uuid_text id, parse_uuid-uuid_text id h) refl

-- the keys of a manifest's stored form
abbrev pub manifest_keys : List Text
manifest_keys =
    code_points "suite_fingerprint"
    ∷ code_points "baseline"
    ∷ code_points "candidate"
    ∷ code_points "baseline_query_profile_id"
    ∷ code_points "candidate_query_profile_id"
    ∷ code_points "baseline_ingestion_profile_id"
    ∷ code_points "candidate_ingestion_profile_id"
    ∷ []

-- A manifest's stored form, merged with further fields under keys of their own, reads back as the
-- manifest.
pub from_json-to_json :
    (m : EvaluationCorpusManifest) (added : Fields)
    → IsManifest m
    → All (λ key. lacks key added ≡ true) manifest_keys
    → from_json (append (to_json m) added) ≡ some m
unfolding from_json to_json get lacks same_text
from_json-to_json m added h own =
    let kept : (key : Text)
        → lacks key added ≡ true
        → get key (append (to_json m) added) ≡ get key (to_json m) =
      λ key. get-append key (to_json m) added in
    rw
      (
        kept _ own.0,
        kept _ own.1.0,
        kept _ own.1.1.0,
        kept _ own.1.1.1.0,
        kept _ own.1.1.1.1.0,
        kept _ own.1.1.1.1.1.0,
        kept _ own.1.1.1.1.1.1.0,
        h.digest,
        variant_from_json-to_json m.baseline h.baseline,
        variant_from_json-to_json m.candidate h.candidate,
        parse_uuid-uuid_text m.baseline_query_profile_id h.baseline_query,
        parse_uuid-uuid_text m.candidate_query_profile_id h.candidate_query,
        read_optional-id_to_json m.baseline_ingestion_profile_id h.baseline_ingestion,
        read_optional-id_to_json m.candidate_ingestion_profile_id h.candidate_ingestion,
      )
      refl
