-- ===== src/Store/Entities.antt =====
-- Canonical entities: `canonicalize_entities` (application/processing/models.py) and the rows of
-- `entities` (infrastructure/entity/).
use Prim.Native.String.{String}
use document_insight.Prelude.{
  ℕ, ◌+◌, Bool, true, false, ◌&&◌, List, [], ◌∷◌, ◌++◌, ◌==◌, map, if◌then◌else◌,
}
use document_insight.Store.Extracted.{Language}
use document_insight.Chunker.Text.{Text}

pub data EntityLabel : Type 0 where
  person org gpe loc product event date : EntityLabel

abbrev pub label_code : EntityLabel → ℕ
label_code person = 0
label_code org = 1
label_code gpe = 2
label_code loc = 3
label_code product = 4
label_code event = 5
label_code date = 6

pub record NamedEntity : Type 0 where
  pub text : Text
  pub normalized_value : Text
  pub label : EntityLabel

pub record CanonicalEntity : Type 0 where
  pub display_value : Text
  pub normalized_value : Text
  pub label : EntityLabel
  pub occurrence_count : ℕ

pub record NerResult : Type 0 where
  pub language : Language
  pub provider_name : String
  pub model_name : String
  pub entities : List NamedEntity

unfoldable pub same_text : Text → Text → Bool
same_text [] [] = true
same_text (a ∷ s) (b ∷ t) = (a == b) && same_text s t
same_text _ _ = false

-- equality of the dict key `(label, normalized_value)`
unfoldable pub same_entity : NamedEntity → CanonicalEntity → Bool
unfolding same_text
same_entity e c =
    (label_code e.label == label_code c.label) && same_text e.normalized_value c.normalized_value

-- one round of the loop: the two dicts, in insertion order, as one list
unfoldable pub count_entity : NamedEntity → List CanonicalEntity → List CanonicalEntity
unfolding same_entity
count_entity e [] =
    record {
      display_value = e.text;
      normalized_value = e.normalized_value;
      label = e.label;
      occurrence_count = 1;
    }
    ∷ []
count_entity e (c ∷ cs) =
    if same_entity e c
    then record c { occurrence_count = c.occurrence_count + 1 } ∷ cs
    else c ∷ count_entity e cs

unfoldable pub count_entities : List NamedEntity → List CanonicalEntity → List CanonicalEntity
unfolding count_entity
count_entities [] cs = cs
count_entities (e ∷ es) cs = count_entities es (count_entity e cs)

unfoldable pub canonicalize_entities : List NamedEntity → List CanonicalEntity
unfolding count_entities
canonicalize_entities entities = count_entities entities []

pub record EntityRow : Type 0 where
  pub tenant_id : ℕ
  pub document_version_id : ℕ
  pub display_value : Text
  pub normalized_value : Text
  pub label : EntityLabel
  pub occurrence_count : ℕ
  pub language : Language
  pub ner_provider : String
  pub ner_model : String

pub record CreateEntities : Type 0 where
  pub document_version_id : ℕ
  pub tenant_id : ℕ
  pub language : Language
  pub ner_provider : String
  pub ner_model : String
  pub entities : List CanonicalEntity

abbrev entity_row : CreateEntities → CanonicalEntity → EntityRow
entity_row command entity = record {
  tenant_id = command.tenant_id;
  document_version_id = command.document_version_id;
  display_value = entity.display_value;
  normalized_value = entity.normalized_value;
  label = entity.label;
  occurrence_count = entity.occurrence_count;
  language = command.language;
  ner_provider = command.ner_provider;
  ner_model = command.ner_model;
}

unfoldable pub create_many : CreateEntities → List EntityRow → List EntityRow
create_many command rows = rows ++ map (entity_row command) command.entities
