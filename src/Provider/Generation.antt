-- ===== src/Provider/Generation.antt =====
-- `MistralGroundedAnswerGenerator.generate` (infrastructure/generation/mistral.py).
use document_insight.Prelude.{
  ℕ, ◌-◌, Bool, true, false, not, ◌&&◌, ◌==◌, leb, Option, none, some, List, [], ◌∷◌, all, length,
  keep_if, get_elem?, if◌then◌else◌,
}
use document_insight.Chunker.Text.{Text, strip}
use document_insight.Store.System.{Result, ok, err}
use document_insight.Query.Models.{
  RetrievedChunk, GroundedAnswer, QueryError, invalid_grounding, query_provider_unavailable,
}
use document_insight.Configuration.Models.{GenerationConfiguration}
use document_insight.Provider.Markers.{remove_markers}

-- a Python integer
pub data ℤ : Type 0 where
  pos : ℕ → ℤ
  negsuc : ℕ → ℤ

pub record Response : Type 0 where
  pub answer : Text
  pub cited_passage_indices : List ℤ

-- `1 <= index <= len(passages)`
abbrev pub is_position : ℕ → ℤ → Bool
is_position n (pos i) = leb 1 i && leb i n
is_position n (negsuc i) = false

abbrev pub cited_passage : List RetrievedChunk → ℤ → Option RetrievedChunk
cited_passage passages (negsuc i) = none
cited_passage passages (pos i) = get_elem? passages (i - 1)

abbrev pub cite : Option RetrievedChunk → List ℕ → List ℕ
cite none ids = ids
cite (some c) ids = c.chunk_id ∷ ids

-- the chunks at the positions, which are all in range
unfoldable pub ids_at : List RetrievedChunk → List ℤ → List ℕ
ids_at passages [] = []
ids_at passages (i ∷ positions) = cite (cited_passage passages i) (ids_at passages positions)

-- `dict.fromkeys`: each id where it comes first
unfoldable pub first_uses : List ℕ → List ℕ
first_uses [] = []
first_uses (id ∷ ids) = id ∷ keep_if (λ other. not (other == id)) (first_uses ids)

abbrev pub answer_of : List RetrievedChunk → Response → GroundedAnswer
answer_of passages response = record {
  answer = strip (remove_markers response.answer);
  cited_chunk_ids = first_uses (ids_at passages response.cited_passage_indices);
}

abbrev pub is_grounded : List RetrievedChunk → Response → Bool
is_grounded passages response = all (is_position (length passages)) response.cited_passage_indices

-- what the schema of a response asks for; one that fails it leaves the provider unavailable
abbrev pub is_response : Response → Bool
is_response response =
    leb 1 (length response.answer)
    && leb (length response.answer) 16000
    && leb 1 (length response.cited_passage_indices)

abbrev pub typed : Result QueryError Response → Result QueryError Response
typed (err e) = err e
typed (ok response) = if is_response response then ok response else err query_provider_unavailable

-- the attempts that are left: the first with the system prompt, the next with the correction too
unfoldable pub generate_from :
    (Bool → Result QueryError Response)
    → List RetrievedChunk
    → List Bool
    → Result QueryError GroundedAnswer
unfolding ids_at first_uses remove_markers strip
generate_from respond passages [] = err invalid_grounding
generate_from respond passages (corrected ∷ attempts) =
    let rest = generate_from respond passages attempts in
    elim (typed (respond corrected)) [
      | err e ↦ err e
      | ok response ↦
          if is_grounded passages response then ok (answer_of passages response) else rest
    ]

-- `respond` is the completion, with or without the correction prompt.
unfoldable pub generate :
    (GenerationConfiguration → Text → List RetrievedChunk → Bool → Result QueryError Response)
    → GenerationConfiguration
    → Text
    → List RetrievedChunk
    → Result QueryError GroundedAnswer
unfolding generate_from
generate respond configuration question passages =
    generate_from (respond configuration question passages) passages (false ∷ true ∷ [])
