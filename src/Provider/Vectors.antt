-- ===== src/Provider/Vectors.antt =====
-- The vectors of a batch belong to its texts (infrastructure/mistral/embedding.py).
use mathlib.Core.Path.{subst}
use document_insight.Prelude.{
  ℕ, suc, ◌≡◌, refl, sym, ap, ◌∙◌, inl, inr, Bool, true, ◌&&◌, ◌==◌, Option, none, some, List, [],
  ◌∷◌, length, all, arith, All, In, All-In, order_by-All, Bool-cases,
}
use document_insight.Chunker.Text.{Text}
use document_insight.Configuration.Models.{EmbeddingConfiguration}
use document_insight.Store.Chunks.{Vector}
use document_insight.Store.System.{Result, ok, err}
use document_insight.Processing.Failures.{Failure, embedding_error}
use document_insight.Provider.Generation.{ℤ, pos, negsuc}
use document_insight.Provider.Embedder.{
  EmbeddingItem, HttpReply, Arithmetic, request_from, is_at, is_finite, are_numbered,
  validated_vector, validated_vectors, ordered, from_items, attempts_with, embed,
}

-- an item with the index, of the items given, whose vector has the profile's dimensions and only
-- finite numbers, and passes as this one
abbrev pub VectorAt : Arithmetic → EmbeddingConfiguration → List EmbeddingItem → ℕ → Vector → Type 0
VectorAt arithmetic configuration items i vector =
    (item : EmbeddingItem) × In item items
    × (item.index ≡ pos i)
    × (length item.embedding ≡ configuration.dimensions)
    × (all is_finite item.embedding ≡ true)
    × (validated_vector arithmetic configuration item.embedding ≡ some vector)

-- The vectors from an index on each belong to their index.
abbrev pub VectorsFrom :
    Arithmetic → EmbeddingConfiguration → List EmbeddingItem → ℕ → List Vector → Type 0
VectorsFrom arithmetic configuration items i [] = Unit
VectorsFrom arithmetic configuration items i (v ∷ vs) =
    VectorAt arithmetic configuration items i v
    × VectorsFrom arithmetic configuration items (suc i) vs

is_at-pos : (i : ℕ) (index : ℤ) → is_at i index ≡ true → index ≡ pos i
is_at-pos i (pos n) e = ap pos (ground (arith, e))
is_at-pos i (negsuc n) e = absurd (cc e)

-- What the validation has checked.
validated_vector-checks :
    (arithmetic : Arithmetic) (configuration : EmbeddingConfiguration) (vector v : Vector)
    → validated_vector arithmetic configuration vector ≡ some v
    → (length vector ≡ configuration.dimensions) × (all is_finite vector ≡ true)
unfolding validated_vector
validated_vector-checks arithmetic configuration vector v e =
    elim (Bool-cases (length vector == configuration.dimensions)) [
      | inr other ↦ absurd (cc (rw other at e))
      | inl same ↦ elim (Bool-cases (all is_finite vector)) [
        | inr other ↦ absurd (cc (rw (same, other) at e))
        | inl finite ↦ (ground (arith, same), finite)
      ]
    ]

-- A vector before the rest, where both are there.
both-ok :
    (o : Option Vector) (rest : Result Failure (List Vector)) (vectors : List Vector)
    → elim o [
      | none ↦ err embedding_error
      | some v ↦ elim rest [ err e ↦ err e | ok vs ↦ ok (v ∷ vs) ]
    ]
      ≡ ok vectors
    → (v : Vector) × (vs : List Vector) × (o ≡ some v) × (rest ≡ ok vs) × (vectors ≡ v ∷ vs)
both-ok none rest vectors e = cc
both-ok (some v) (err x) vectors e = cc
both-ok (some v) (ok vs) vectors e = (v, vs, refl, refl, cc e)

module _ (arithmetic : Arithmetic) (configuration : EmbeddingConfiguration) where
  validated_vectors-From :
      (all_items items : List EmbeddingItem) (i : ℕ) (vectors : List Vector)
      → All (λ item. In item all_items) items
      → are_numbered i items ≡ true
      → validated_vectors arithmetic configuration items ≡ ok vectors
      → (length vectors ≡ length items) × VectorsFrom arithmetic configuration all_items i vectors
  unfolding are_numbered validated_vectors
  validated_vectors-From all_items [] i [] h n e = (refl, tt)
  validated_vectors-From all_items [] i (v ∷ vs) h n e = cc e
  validated_vectors-From all_items (item ∷ items) i vectors h n e =
      let (v, vs, valid, rest, same) =
        both-ok (validated_vector arithmetic configuration item.embedding)
          (validated_vectors arithmetic configuration items) vectors e in
      let (count, belong) =
        validated_vectors-From all_items items (suc i) vs h.1 (ground (arith, n)) rest in
      let (dimensions, finite) =
        validated_vector-checks arithmetic configuration item.embedding v valid in
      subst
        (λ ws.
          (length ws ≡ suc (length items)) × VectorsFrom arithmetic configuration all_items i ws)
        (sym same)
        (
          ap suc count,
          (
            (item, h.0, is_at-pos i item.index (ground (arith, n)), dimensions, finite, valid),
            belong,
          ),
        )

-- The vectors of a batch: one for each text, and at each position the vector that the response gave
-- under that index.
abbrev pub Embeds :
    Arithmetic → EmbeddingConfiguration → List Text → List EmbeddingItem → List Vector → Type 0
Embeds arithmetic configuration texts items vectors =
    (length vectors ≡ length texts) × VectorsFrom arithmetic configuration items 0 vectors

from_items-Embeds :
    (arithmetic : Arithmetic) (configuration : EmbeddingConfiguration) (texts : List Text)
    (items : List EmbeddingItem) (vectors : List Vector)
    → from_items arithmetic texts configuration (ok items) ≡ ok vectors
    → Embeds arithmetic configuration texts items vectors
unfolding ordered
from_items-Embeds arithmetic configuration texts items vectors e =
    elim (Bool-cases ((length (ordered items) == length texts) && are_numbered 0 (ordered items))) [
      | inr t ↦ absurd (cc (rw t at e))
      | inl t ↦
          let members : All (λ item. In item items) (ordered items) =
            order_by-All (λ item. In item items) _ items (All-In items) in
          let (count, belong) =
            validated_vectors-From arithmetic configuration items (ordered items) 0 vectors members
              (ground (arith, t)) (rw t at e) in
          let same : length (ordered items) ≡ length texts = ground (arith, t) in
          (count ∙ same, belong)
    ]

-- An embedding that succeeds for some texts had a response with items, and gives one vector for each
-- text: at each position a finite vector of the profile's dimensions, or its quotient by its
-- magnitude, that the response has under that index, in whatever order it lists its items.
pub embed-Embeds :
    (arithmetic : Arithmetic) (retry_rate_limits : Bool) (run : ℕ → HttpReply) (t : Text)
    (texts : List Text) (configuration : EmbeddingConfiguration) (vectors : List Vector)
    → embed arithmetic retry_rate_limits run (t ∷ texts) configuration ≡ ok vectors
    → (items : List EmbeddingItem) × ((request_from
          (attempts_with retry_rate_limits)
          run
          (attempts_with retry_rate_limits)
          0).1
        ≡ ok items)
      × Embeds arithmetic configuration (t ∷ texts) items vectors
unfolding embed
embed-Embeds arithmetic retry_rate_limits run t texts configuration vectors e =
    answered
      (request_from (attempts_with retry_rate_limits) run (attempts_with retry_rate_limits) 0).1 e
  where
    answered :
        (r : Result Failure (List EmbeddingItem))
        → from_items arithmetic (t ∷ texts) configuration r ≡ ok vectors
        → (items : List EmbeddingItem) × (r ≡ ok items)
          × Embeds arithmetic configuration (t ∷ texts) items vectors
    answered (err x) h = cc
    answered (ok items) h =
        (items, refl, from_items-Embeds arithmetic configuration (t ∷ texts) items vectors h)
