-- ===== src/Provider/Embedder.antt =====
-- `MistralTextEmbedder.embed` (infrastructure/mistral/embedding.py). The HTTP client is an argument:
-- what each attempt's request gives. A double is its bit pattern, and the arithmetic of the
-- normalization is an argument too.
use document_insight.Prelude.{
  ℕ, zero, suc, ◌+◌, ◌%◌, ◌^◌, Bool, true, false, not, ◌&&◌, ◌==◌, leb, ltb, Option, none, some,
  List, [], ◌∷◌, all, length, order_by, if◌then◌else◌,
}
use document_insight.Chunker.Text.{Text}
use document_insight.Configuration.Models.{EmbeddingConfiguration}
use document_insight.Store.Chunks.{Vector}
use document_insight.Store.System.{Result, ok, err}
use document_insight.Processing.Failures.{Failure, embedding_error, other}
use document_insight.Provider.Attempts.{max_rate_limit_attempts, retry_delay_seconds}
use document_insight.Provider.Generation.{ℤ, pos, negsuc}

pub record EmbeddingItem : Type 0 where
  pub index : ℤ
  pub embedding : Vector

-- A status with the body's items, if the body is such a response, or a transport's failure.
pub data HttpReply : Type 0 where
  response : ℕ → Option (List EmbeddingItem) → HttpReply
  no_response : HttpReply

pub record Arithmetic : Type 0 where
  pub magnitude : Vector → ℕ
  pub divide : ℕ → ℕ → ℕ

abbrev pub is_success : ℕ → Bool
is_success status = leb 200 status && leb status 299

abbrev pub body_of : Option (List EmbeddingItem) → Result Failure (List EmbeddingItem)
body_of none = err embedding_error
body_of (some items) = ok items

-- `raise_for_status` and the model of the body
abbrev pub settled : ℕ → Option (List EmbeddingItem) → Result Failure (List EmbeddingItem)
settled status body = if is_success status then body_of body else err embedding_error

-- the attempts from one on, with the seconds that were slept
unfoldable pub request_from :
    ℕ → (ℕ → HttpReply) → ℕ → ℕ → List ℕ × Result Failure (List EmbeddingItem)
unfolding retry_delay_seconds
request_from max_attempts run zero attempt = ([], err other)
request_from max_attempts run (suc remaining) attempt =
    let later = request_from max_attempts run remaining (suc attempt) in
    elim (run attempt) [
      | no_response ↦ ([], err embedding_error)
      | response status body ↦
          if (status == 429) && ltb (attempt + 1) max_attempts
          then (retry_delay_seconds attempt ∷ later.0, later.1)
          else ([], settled status body)
    ]

abbrev pub index_leb : ℤ → ℤ → Bool
index_leb (negsuc m) (negsuc n) = leb n m
index_leb (negsuc m) (pos n) = true
index_leb (pos m) (negsuc n) = false
index_leb (pos m) (pos n) = leb m n

abbrev pub is_at : ℕ → ℤ → Bool
is_at i (pos n) = n == i
is_at i (negsuc n) = false

-- the indices are those of a range from one on
unfoldable pub are_numbered : ℕ → List EmbeddingItem → Bool
are_numbered i [] = true
are_numbered i (item ∷ items) = is_at i item.index && are_numbered (suc i) items

-- `isfinite` of a double
abbrev pub is_finite : ℕ → Bool
is_finite x = ltb (x % 2 ^ 63) 0x7ff0000000000000

abbrev divided : Arithmetic → ℕ → Vector → Vector
divided arithmetic by [] = []
divided arithmetic by (x ∷ xs) = arithmetic.divide x by ∷ divided arithmetic by xs

-- `magnitude == 0`, for either sign
abbrev is_zero : ℕ → Bool
is_zero x = x % 2 ^ 63 == 0

-- `_validated_vector`
unfoldable pub validated_vector : Arithmetic → EmbeddingConfiguration → Vector → Option Vector
validated_vector arithmetic configuration vector =
    if not (length vector == configuration.dimensions)
    then none
    else if not (all is_finite vector)
    then none
    else if not configuration.normalize
    then some vector
    else if is_zero (arithmetic.magnitude vector)
    then none
    else some (divided arithmetic (arithmetic.magnitude vector) vector)

unfoldable pub validated_vectors :
    Arithmetic → EmbeddingConfiguration → List EmbeddingItem → Result Failure (List Vector)
unfolding validated_vector
validated_vectors arithmetic configuration [] = ok []
validated_vectors arithmetic configuration (item ∷ items) =
    let rest = validated_vectors arithmetic configuration items in
    elim (validated_vector arithmetic configuration item.embedding) [
      | none ↦ err embedding_error
      | some vector ↦ elim rest [ err e ↦ err e | ok vectors ↦ ok (vector ∷ vectors) ]
    ]

-- the items in the order of their indices
unfoldable pub ordered : List EmbeddingItem → List EmbeddingItem
unfolding order_by
ordered items = order_by (λ a b. index_leb a.index b.index) items

abbrev pub from_items :
    Arithmetic
    → List Text
    → EmbeddingConfiguration
    → Result Failure (List EmbeddingItem)
    → Result Failure (List Vector)
from_items arithmetic texts configuration (err e) = err e
from_items arithmetic texts configuration (ok items) =
    if (length (ordered items) == length texts) && are_numbered 0 (ordered items)
    then validated_vectors arithmetic configuration (ordered items)
    else err embedding_error

-- `retry_rate_limits` is whether an attempt may be made again.
abbrev pub attempts_with : Bool → ℕ
attempts_with true = max_rate_limit_attempts
attempts_with false = 1

unfoldable pub embed :
    Arithmetic
    → Bool
    → (ℕ → HttpReply)
    → List Text
    → EmbeddingConfiguration
    → Result Failure (List Vector)
unfolding request_from ordered are_numbered validated_vectors
embed arithmetic retry_rate_limits run [] configuration = ok []
embed arithmetic retry_rate_limits run (t ∷ texts) configuration =
    let max_attempts = attempts_with retry_rate_limits in
    from_items arithmetic (t ∷ texts) configuration (request_from max_attempts run max_attempts 0).1
