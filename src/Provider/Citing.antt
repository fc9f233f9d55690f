-- ===== src/Provider/Citing.antt =====
-- A generated answer cites passages that it was given (infrastructure/generation/mistral.py), and the
-- query service finds them (application/query/service.py).
use mathlib.Core.Path.{subst}
use document_insight.Prelude.{
  ℕ, zero, suc, ◌-◌, ◌<◌, ◌≤◌, ◌≡◌, refl, ap, inl, inr, Bool, true, false, ◌==◌, some, List, [],
  ◌∷◌, map, all, length, if◌then◌else◌, keep_if, get_elem?, arith, All, All-kept, All-keep_if, In,
  Bool-cases,
}
use document_insight.Chunker.Text.{Text}
use document_insight.Store.System.{Result, ok, err}
use document_insight.Query.Models.{RetrievedChunk, GroundedAnswer, QueryError}
use document_insight.Configuration.Models.{GenerationConfiguration}
use document_insight.Provider.Generation.{
  ℤ, pos, negsuc, Response, is_position, cited_passage, ids_at, first_uses, answer_of, is_grounded,
  is_response, typed, generate_from, generate,
}

abbrev pub passage_id : RetrievedChunk → ℕ
passage_id c = c.chunk_id

abbrev pub IsGiven : List RetrievedChunk → ℕ → Type 0
IsGiven passages id = In id (map passage_id passages)

-- no id again in the rest
abbrev pub Distinct : List ℕ → Type 0
Distinct [] = Unit
Distinct (id ∷ ids) = All (λ other. (other == id) ≡ false) ids × Distinct ids

-- ids of passages that were given, at least one and none twice
pub record Cites (passages : List RetrievedChunk) (ids : List ℕ) : Type 0 where
  pub given : All (IsGiven passages) ids
  pub distinct : Distinct ids
  pub some_id : 1 ≤ length ids

get_elem?-IsGiven :
    (passages : List RetrievedChunk) (i : ℕ)
    → i < length passages
    → (c : RetrievedChunk) × (get_elem? passages i ≡ some c) × IsGiven passages c.chunk_id
get_elem?-IsGiven [] i h = absurd (omega (arith, h))
get_elem?-IsGiven (c ∷ cs) zero h = (c, refl, inl refl)
get_elem?-IsGiven (c ∷ cs) (suc i) h =
    let (d, e, member) = get_elem?-IsGiven cs i (omega (arith, h)) in (d, e, inr member)

-- a position in range is a passage's
position-IsGiven :
    (passages : List RetrievedChunk) (i : ℤ)
    → is_position (length passages) i ≡ true
    → (c : RetrievedChunk) × (cited_passage passages i ≡ some c) × IsGiven passages c.chunk_id
position-IsGiven passages (negsuc i) e = absurd (cc e)
position-IsGiven passages (pos i) e = get_elem?-IsGiven passages (i - 1) (ground (arith, e))

ids_at-IsGiven :
    (passages : List RetrievedChunk) (positions : List ℤ)
    → all (is_position (length passages)) positions ≡ true
    → All (IsGiven passages) (ids_at passages positions)
      × (length (ids_at passages positions) ≡ length positions)
unfolding ids_at
ids_at-IsGiven passages [] e = (tt, refl)
ids_at-IsGiven passages (i ∷ positions) e =
    let (c, found, member) = position-IsGiven passages i (ground (arith, e)) in
    let (rest, same) = ids_at-IsGiven passages positions (ground (arith, e)) in
    rw found ((member, rest), ap suc same)

first_uses-All : (P : ℕ → Type 0) (ids : List ℕ) → All P ids → All P (first_uses ids)
unfolding first_uses
first_uses-All P [] h = tt
first_uses-All P (id ∷ ids) h = (h.0, All-kept P _ (first_uses ids) (first_uses-All P ids h.1))

Distinct-kept : (test : ℕ → Bool) (ids : List ℕ) → Distinct ids → Distinct (keep_if test ids)
Distinct-kept test [] h = tt
Distinct-kept test (id ∷ ids) h = elim (Bool-cases (test id)) [
  | inl t ↦ rw t (All-kept _ test ids h.0, Distinct-kept test ids h.1)
  | inr t ↦ rw t (Distinct-kept test ids h.1)
]

first_uses-Distinct : (ids : List ℕ) → Distinct (first_uses ids)
unfolding first_uses
first_uses-Distinct [] = tt
first_uses-Distinct (id ∷ ids) = (
  All-keep_if (λ other. (other == id) ≡ false) _ (λ other t. ground (arith, t)) (first_uses ids),
  Distinct-kept _ (first_uses ids) (first_uses-Distinct ids),
)

first_uses-nonempty : (ids : List ℕ) → 1 ≤ length ids → 1 ≤ length (first_uses ids)
unfolding first_uses
first_uses-nonempty [] h = h
first_uses-nonempty (id ∷ ids) h = omega arith

answer_of-Cites :
    (passages : List RetrievedChunk) (response : Response)
    → is_response response ≡ true
    → is_grounded passages response ≡ true
    → Cites passages (answer_of passages response).cited_chunk_ids
answer_of-Cites passages response valid grounded =
    let (given, same) = ids_at-IsGiven passages response.cited_passage_indices grounded in
    let enough : 1 ≤ length response.cited_passage_indices = ground (arith, valid) in
    record {
      given = first_uses-All (IsGiven passages) _ given;
      distinct = first_uses-Distinct _;
      some_id = first_uses-nonempty _ (omega (arith, same, enough));
    }

generate_from-Cites :
    (respond : Bool → Result QueryError Response) (passages : List RetrievedChunk)
    (attempts : List Bool) (answer : GroundedAnswer)
    → generate_from respond passages attempts ≡ ok answer
    → Cites passages answer.cited_chunk_ids
unfolding generate_from
generate_from-Cites respond passages [] answer e = cc
generate_from-Cites respond passages (corrected ∷ attempts) answer e =
    answered (respond corrected) (generate_from-Cites respond passages attempts answer) e
  where
    judged :
        (response : Response)
        → is_response response ≡ true
        → (generate_from respond passages attempts ≡ ok answer
            → Cites passages answer.cited_chunk_ids)
        → (if is_grounded passages response
            then ok (answer_of passages response)
            else generate_from respond passages attempts)
          ≡ ok answer
        → Cites passages answer.cited_chunk_ids
    judged response valid later h = elim (Bool-cases (is_grounded passages response)) [
      | inl t ↦
          let same : ok (answer_of passages response) ≡ ok answer = rw t at h in
          let same' : answer_of passages response ≡ answer = cc same in
          subst (λ (a : GroundedAnswer). Cites passages a.cited_chunk_ids) same'
            (answer_of-Cites passages response valid t)
      | inr t ↦ later (rw t at h)
    ]

    answered :
        (r : Result QueryError Response)
        → (generate_from respond passages attempts ≡ ok answer
            → Cites passages answer.cited_chunk_ids)
        → elim (typed r) [
          | err e ↦ err e
          | ok response ↦
              if is_grounded passages response
              then ok (answer_of passages response)
              else generate_from respond passages attempts
        ]
          ≡ ok answer
        → Cites passages answer.cited_chunk_ids
    answered (err e) later h = cc
    answered (ok response) later h = elim (Bool-cases (is_response response)) [
      | inl t ↦ judged response t later (rw t at h)
      | inr t ↦ absurd (cc (rw t at h))
    ]

-- An answer that is generated cites at least one passage, each of them one that it was given, and
-- none of them twice, whatever the model responds.
pub generate-Cites :
    (respond : GenerationConfiguration
      → Text
      → List RetrievedChunk
      → Bool
      → Result QueryError Response)
    (configuration : GenerationConfiguration) (question : Text) (passages : List RetrievedChunk)
    (answer : GroundedAnswer)
    → generate respond configuration question passages ≡ ok answer
    → Cites passages answer.cited_chunk_ids
unfolding generate
generate-Cites respond configuration question passages answer e =
    generate_from-Cites (respond configuration question passages) passages (false ∷ true ∷ [])
      answer e
