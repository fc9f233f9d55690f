-- ===== src/Provider/Grounded.antt =====
-- An answer of the generator becomes the answer of the query (application/query/service.py,
-- infrastructure/generation/mistral.py).
use document_insight.Prelude.{
  ℕ, ◌≤◌, ◌≡◌, refl, sym, inl, inr, Bool, true, ◌==◌, ==_refl, some, List, [], ◌∷◌, map, length,
  arith, All, In, Option-cases, Bool-cases,
}
use mathlib.Core.Path.{subst}
use document_insight.Chunker.Text.{Text}
use document_insight.Store.System.{Result, ok}
use document_insight.Query.Models.{
  RetrievedChunk, EntityMatch, GroundedAnswer, QueryError, QueryCitation, QueryResult,
}
use document_insight.Query.Fusion.{Scored, chunk_of}
use document_insight.Query.Evidence.{
  entry_of, cited_entries, citation_of, grounded, after_generation,
}
use document_insight.Configuration.Models.{GenerationConfiguration}
use document_insight.Provider.Generation.{Response, generate}
use document_insight.Provider.Citing.{Cites, IsGiven, generate-Cites}

-- The entry is evidence of the id.
abbrev IsEntry : ℕ → List Scored → Scored → Type 0
IsEntry id citable x = In x citable × (x.chunk.chunk_id ≡ id)

entry_of-IsEntry :
    (id : ℕ) (citable : List Scored) {x : Scored}
    → entry_of id citable ≡ some x
    → IsEntry id citable x
unfolding entry_of
entry_of-IsEntry id [] e = cc
entry_of-IsEntry id (y ∷ ys) {x} e = elim (Option-cases (entry_of id ys)) [
  | inr (z, later) ↦
      let own = entry_of-IsEntry id ys later in
      let same : z ≡ x = cc (rw later at e) in subst (IsEntry id (y ∷ ys)) same (inr own.0, own.1)
  | inl missing ↦ elim (Bool-cases (y.chunk.chunk_id == id)) [
    | inl here ↦
        let same : y ≡ x = cc (rw (missing, here) at e) in
        subst (IsEntry id (y ∷ ys)) same (inl refl, ground (arith, here))
    | inr other ↦ cc (rw (missing, other) at e)
  ]
]

-- A passage's id is found among the evidence.
entry_of-found :
    (id : ℕ) (citable : List Scored)
    → IsGiven (map chunk_of citable) id
    → (x : Scored) × (entry_of id citable ≡ some x) × IsEntry id citable x
unfolding entry_of
entry_of-found id [] h = absurd h
entry_of-found id (x ∷ xs) h = elim (Option-cases (entry_of id xs)) [
  | inr (y, later) ↦
      let own = entry_of-IsEntry id xs later in (y, rw later refl, (inr own.0, own.1))
  | inl missing ↦ elim h [
    | inl same ↦
        let here : (x.chunk.chunk_id == id) ≡ true =
          subst (λ i. (x.chunk.chunk_id == i) ≡ true) (sym same) (==_refl x.chunk.chunk_id) in
        (x, rw (missing, here) refl, (inl refl, sym same))
    | inr member ↦ let (y, found, own) = entry_of-found id xs member in absurd (cc (missing, found))
  ]
]

-- a citation of evidence for each of the ids, in their order
abbrev pub CitesEach : List Scored → List ℕ → List QueryCitation → Type 0
CitesEach citable [] [] = Unit
CitesEach citable [] (c ∷ cs) = ⊥
CitesEach citable (id ∷ ids) [] = ⊥
CitesEach citable (id ∷ ids) (c ∷ cs) =
    ((x : Scored) × In x citable × (x.chunk.chunk_id ≡ id) × (c ≡ citation_of x))
    × CitesEach citable ids cs

cited_entries-CitesEach :
    (ids : List ℕ) (citable : List Scored)
    → All (IsGiven (map chunk_of citable)) ids
    → CitesEach citable ids (map citation_of (cited_entries ids citable))
unfolding cited_entries
cited_entries-CitesEach [] citable h = tt
cited_entries-CitesEach (id ∷ ids) citable h =
    let (x, found, (member, same)) = entry_of-found id citable h.0 in
    rw found ((x, member, same, refl), cited_entries-CitesEach ids citable h.1)

-- the query's result: the answer's text, with a citation for each id
abbrev pub Answers : List Scored → GroundedAnswer → Result QueryError QueryResult → Type 0
Answers citable answer r =
    (result : QueryResult) × (r ≡ ok result)
    × (result.answer ≡ answer.answer)
    × CitesEach citable answer.cited_chunk_ids result.citations

grounded-Answers :
    (matches : List EntityMatch) (citable : List Scored) (answer : GroundedAnswer)
    (entries : List Scored)
    → CitesEach citable answer.cited_chunk_ids (map citation_of entries)
    → 1 ≤ length answer.cited_chunk_ids
    → Answers citable answer (grounded matches answer.answer entries)
grounded-Answers matches citable answer [] each enough =
    absurd (none_cited answer.cited_chunk_ids each enough)
  where
    none_cited : (ids : List ℕ) → CitesEach citable ids [] → 1 ≤ length ids → ⊥
    none_cited [] each enough = omega (arith, enough)
    none_cited (id ∷ ids) each enough = each
grounded-Answers matches citable answer (x ∷ xs) each enough = (_, refl, refl, each)

-- What the generator answers from the evidence cites passages of it, at least one and none twice,
-- and the query service gives it as its result: for each of the ids that the answer cites, in their
-- order, the citation of a passage of the evidence that has this id, whatever the model responds.
pub generate-Answers :
    (respond : GenerationConfiguration
      → Text
      → List RetrievedChunk
      → Bool
      → Result QueryError Response)
    (configuration : GenerationConfiguration) (question : Text) (matches : List EntityMatch)
    (citable : List Scored) (answer : GroundedAnswer)
    → generate respond configuration question (map chunk_of citable) ≡ ok answer
    → Cites (map chunk_of citable) answer.cited_chunk_ids
      × Answers citable answer (
          after_generation matches citable
            (generate respond configuration question (map chunk_of citable)))
generate-Answers respond configuration question matches citable answer e =
    let cites = generate-Cites respond configuration question (map chunk_of citable) answer e in
    (
      cites,
      rw e (
          grounded-Answers matches citable answer (cited_entries answer.cited_chunk_ids citable)
            (cited_entries-CitesEach answer.cited_chunk_ids citable cites.given) cites.some_id),
    )
