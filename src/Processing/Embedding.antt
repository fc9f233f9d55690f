-- ===== src/Processing/Embedding.antt =====
-- `_embed_chunks`: all chunks in order, or an error; the loop over the batches ends.
use document_insight.Prelude.{
  ℕ, zero, suc, ◌≤◌, ◌<◌, ◌≡◌, ◌==◌, refl, ap, sym, ◌∙◌, inl, inr, false, List, [], ◌∷◌, ◌++◌, map,
  length, take, drop, arith, Bool-cases, length-map, length-drop, if◌then◌else◌, ==_iff,
}
use document_insight.Chunker.Text.{Text}
use document_insight.Configuration.Models.{EmbeddingConfiguration}
use document_insight.Store.Chunks.{ChunkForEmbedding, ChunkEmbedding, Vector}
use document_insight.Store.System.{Result, ok, err}
use document_insight.Processing.Failures.{Failure, value_error, Outside}
use document_insight.Processing.Stages.Embedding.{
  embed_batches, embed_chunks, append_batch, pair_up, chunk_text,
}

abbrev pub ids : List ChunkForEmbedding → List ℕ
ids = map (λ c. c.chunk_id)

abbrev pub embedded_ids : List ChunkEmbedding → List ℕ
embedded_ids = map (λ e. e.chunk_id)

ids-pair_up :
    (cs : List ChunkForEmbedding) (vs : List Vector)
    → length vs ≡ length cs
    → embedded_ids (pair_up cs vs) ≡ ids cs
ids-pair_up [] vs e = refl
ids-pair_up (c ∷ cs) [] e = absurd (omega arith)
ids-pair_up (c ∷ cs) (v ∷ vs) e = ap (λ r. c.chunk_id ∷ r) (ids-pair_up cs vs (omega arith))

ids-append :
    (es fs : List ChunkEmbedding) → embedded_ids (es ++ fs) ≡ embedded_ids es ++ embedded_ids fs
ids-append [] fs = refl
ids-append (e ∷ es) fs = ap (λ r. e.chunk_id ∷ r) (ids-append es fs)

ids-take-drop : (n : ℕ) (cs : List ChunkForEmbedding) → ids (take n cs) ++ ids (drop n cs) ≡ ids cs
ids-take-drop zero cs = refl
ids-take-drop (suc n) [] = refl
ids-take-drop (suc n) (c ∷ cs) = ap (λ r. c.chunk_id ∷ r) (ids-take-drop n cs)

-- What a successful batch adds.
append_batch-ok :
    (batch : List ChunkForEmbedding) (r : Result Failure (List Vector))
    (rest : Result Failure (List ChunkEmbedding)) {es : List ChunkEmbedding}
    → append_batch batch r rest ≡ ok es
    → (fs : List ChunkEmbedding) × (rest ≡ ok fs) × (embedded_ids es ≡ ids batch ++ embedded_ids fs)
append_batch-ok batch (err x) rest e = cc
append_batch-ok batch (ok vs) (err x) e = ground (arith, e)
append_batch-ok batch (ok vs) (ok fs) {es} e = elim (Bool-cases (length vs == length batch)) [
  | inl same ↦
      let whole : ok (pair_up batch vs ++ fs) ≡ ok es = rw same at e in
      let lists : pair_up batch vs ++ fs ≡ es = cc whole in
      (
        fs,
        refl,
        ap embedded_ids (sym lists)
            ∙ ids-append (pair_up batch vs) fs
            ∙ ap (λ r. r ++ embedded_ids fs)
                (ids-pair_up batch vs ((==_iff (length vs) (length batch)).0 same)),
      )
  | inr short ↦ cc (rw short at e)
]

embed_batches-ids :
    (o : Outside) (c : EmbeddingConfiguration) (fuel : ℕ) (cs : List ChunkForEmbedding)
    {es : List ChunkEmbedding}
    → embed_batches o c fuel cs ≡ ok es
    → embedded_ids es ≡ ids cs
unfolding embed_batches
embed_batches-ids o c zero [] e = cc
embed_batches-ids o c (suc fuel) [] e = cc
embed_batches-ids o c zero (x ∷ cs) e = cc
embed_batches-ids o c (suc fuel) (x ∷ cs) e =
    let batch = take c.batch_size (x ∷ cs) in
    let rest = drop c.batch_size (x ∷ cs) in
    let (fs, more, whole) =
      append_batch-ok batch (o.embed c (map chunk_text batch)) (embed_batches o c fuel rest) e in
    whole
    ∙ ap (λ r. ids batch ++ r) (embed_batches-ids o c fuel rest more)
    ∙ ids-take-drop c.batch_size (x ∷ cs)

-- If embedding succeeds, every chunk has got exactly one vector, in the order of the chunks.
pub embed_chunks-ids :
    (o : Outside) (c : EmbeddingConfiguration) (cs : List ChunkForEmbedding)
    {es : List ChunkEmbedding}
    → embed_chunks o c cs ≡ ok es
    → embedded_ids es ≡ ids cs
unfolding embed_chunks
embed_chunks-ids o c cs e = created (o.create_embedder c) e
  where
    created :
        (r : Result Failure (Unit {0})) {es : List ChunkEmbedding}
        → elim r [
          | err x ↦ err x
          | ok _ ↦ if c.batch_size == 0 then err value_error else embed_batches o c (length cs) cs
        ]
          ≡ ok es
        → embedded_ids es ≡ ids cs
    created (err x) e = cc
    created (ok _) e = elim (Bool-cases (c.batch_size == 0)) [
      | inl none_at_all ↦ cc (rw none_at_all at e)
      | inr some_batch ↦ embed_batches-ids o c (length cs) cs (rw some_batch at e)
    ]

-- An embedder that answers with as many vectors as it is given texts.
abbrev pub Answers : Outside → EmbeddingConfiguration → Type 0
Answers o c =
    (texts : List Text)
    → (vs : List Vector) × (o.embed c texts ≡ ok vs) × (length vs ≡ length texts)

append_batch-answers :
    (batch : List ChunkForEmbedding) (vs : List Vector) (r : Result Failure (List Vector))
    (rest : Result Failure (List ChunkEmbedding)) (fs : List ChunkEmbedding)
    → r ≡ ok vs
    → length vs ≡ length batch
    → rest ≡ ok fs
    → append_batch batch r rest ≡ ok (pair_up batch vs ++ fs)
append_batch-answers batch vs r rest fs e n m =
    rw e (rw ((==_iff (length vs) (length batch)).1 n) (rw m))

embed_batches-Answers :
    (o : Outside) (c : EmbeddingConfiguration)
    → Answers o c
    → 0 < c.batch_size
    → (fuel : ℕ) (cs : List ChunkForEmbedding) → length cs ≤ fuel
    → (es : List ChunkEmbedding) × (embed_batches o c fuel cs ≡ ok es)
unfolding embed_batches
embed_batches-Answers o c answers pos zero [] h = ([], refl)
embed_batches-Answers o c answers pos (suc fuel) [] h = ([], refl)
embed_batches-Answers o c answers pos zero (x ∷ cs) h = absurd (omega arith)
embed_batches-Answers o c answers pos (suc fuel) (x ∷ cs) h =
    let batch = take c.batch_size (x ∷ cs) in
    let rest = drop c.batch_size (x ∷ cs) in
    let (vs, got, whole) = answers (map chunk_text batch) in
    let (fs, more) =
      embed_batches-Answers o c answers pos fuel rest
        (omega (arith, length-drop c.batch_size (x ∷ cs))) in
    (
      pair_up batch vs ++ fs,
      append_batch-answers batch vs (o.embed c (map chunk_text batch)) (embed_batches o c fuel rest)
          fs got (whole ∙ length-map chunk_text batch) more,
    )

-- With an embedder that answers and a batch of at least one chunk, embedding ends with a vector for
-- every chunk, whatever their number.
pub embed_chunks-Answers :
    (o : Outside) (c : EmbeddingConfiguration) (cs : List ChunkForEmbedding)
    → o.create_embedder c ≡ ok tt
    → Answers o c
    → 0 < c.batch_size
    → (es : List ChunkEmbedding) × (embed_chunks o c cs ≡ ok es) × (embedded_ids es ≡ ids cs)
unfolding embed_chunks
embed_chunks-Answers o c cs created answers pos =
    let (es, e) = embed_batches-Answers o c answers pos (length cs) cs (omega arith) in
    let some_batch : (c.batch_size == 0) ≡ false = ground arith in
    let whole : embed_chunks o c cs ≡ ok es = rw (created, embed_chunks) (rw some_batch e) in
    (es, whole, embed_chunks-ids o c cs whole)
