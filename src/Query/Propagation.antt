-- ===== src/Query/Propagation.antt =====
-- A property of the retrieved chunks, kept by every stage up to the evidence.
use mathlib.Core.Path.{subst}
use document_insight.Prelude.{
  ℕ, ◌+◌, ◌≡◌, refl, ◌∙◌, inl, inr, Option, none, some, List, [], ◌∷◌, ◌==◌, take, All, All-take,
  All-map, Bool-cases, Option-cases,
}
use document_insight.Chunker.Text.{Text}
use document_insight.Configuration.Models.{EmbeddingConfiguration, RerankingConfiguration}
use document_insight.Store.System.{Result, ok, err}
use document_insight.Query.Models.{
  RetrievedChunk, RetrievalScope, RerankScore, QueryError, Providers,
}
use document_insight.Query.Fusion.{
  Scored, comes_first, insert_scored, sort_scored, add_candidate, add_list, add_lists, boosted,
  chunk_of, fuse,
}
use document_insight.Query.Evidence.{
  ◌>>=◌, attach_scores, score_of, attach, cite, entry_of, cited_entries, unavailable_if,
  is_value_error, is_embedding_failure,
}
use document_insight.Query.Service.{lexical_lists, vector_lists, rerank_capped, rerank}

-- what a result gives has the property
unfoldable pub AllOk : {A : Type 0} → (A → Type 0) → Result QueryError A → Type 0
AllOk P (err e) = Unit
AllOk P (ok a) = P a

module _ {A B : Type 0} (P : A → Type 0) (Q : B → Type 0) where
  pub bind-AllOk :
      (r : Result QueryError A) (f : A → Result QueryError B)
      → AllOk P r
      → ((a : A) → P a → AllOk Q (f a))
      → AllOk Q (r >>= f)
  unfolding AllOk
  bind-AllOk (err e) f h k = tt
  bind-AllOk (ok a) f h k = k a h

unfoldable pub AnyOk : {A : Type 0} → A → Type 0
AnyOk a = Unit

pub always : {A : Type 0} (r : Result QueryError A) → AllOk AnyOk r
unfolding AllOk AnyOk
always (err e) = tt
always (ok a) = tt

pub to_AllOk :
    {A : Type 0} (Q : A → Type 0) (r : Result QueryError A) → ((a : A) → r ≡ ok a → Q a) → AllOk Q r
unfolding AllOk
to_AllOk Q (err e) h = tt
to_AllOk Q (ok a) h = h a refl

module _ (P : RetrievedChunk → Type 0) where
  abbrev pub On : Scored → Type 0
  On x = P x.chunk

  insert_scored-On :
      (x : Scored) (ys : List Scored) → On x → All On ys → All On (insert_scored x ys)
  unfolding insert_scored
  insert_scored-On x [] p h = (p, tt)
  insert_scored-On x (y ∷ ys) p h = elim (Bool-cases (comes_first x y)) [
    | inl e ↦ rw e (p, h)
    | inr e ↦ rw e (h.0, insert_scored-On x ys p h.1)
  ]

  sort_scored-On : (xs : List Scored) → All On xs → All On (sort_scored xs)
  unfolding sort_scored
  sort_scored-On [] h = tt
  sort_scored-On (x ∷ xs) h = insert_scored-On x (sort_scored xs) h.0 (sort_scored-On xs h.1)

  attach-On :
      (c : RetrievedChunk) (score : Option ℕ) (rest : Result QueryError (List Scored))
      → P c
      → AllOk (All On) rest
      → AllOk (All On) (attach c score rest)
  unfolding AllOk
  attach-On c none rest p h = tt
  attach-On c (some score) rest p h = bind-AllOk (All On) (All On) rest _ h (λ xs k. (p, k))

  attach_scores-On :
      (scores : List RerankScore) (cs : List RetrievedChunk)
      → All P cs
      → AllOk (All On) (attach_scores scores cs)
  unfolding AllOk attach_scores
  attach_scores-On scores [] h = tt
  attach_scores-On scores (c ∷ cs) h =
      attach-On c (score_of c.chunk_id scores) (attach_scores scores cs) h.0
        (attach_scores-On scores cs h.1)

  entry_of-On :
      (Q : Scored → Type 0) (id : ℕ) (xs : List Scored)
      → All Q xs
      → (x : Scored) → entry_of id xs ≡ some x
      → Q x
  unfolding entry_of
  entry_of-On Q id [] h x e = cc
  entry_of-On Q id (y ∷ ys) h x e = elim (Option-cases (entry_of id ys)) [
    | inr (later, found) ↦ entry_of-On Q id ys h.1 x (found ∙ (rw found at e))
    | inl missing ↦ elim (Bool-cases (y.chunk.chunk_id == id)) [
      | inl own ↦ subst Q (cc (rw (missing, own) at e)) h.0
      | inr other ↦ cc (rw (missing, other) at e)
    ]
  ]

  cite-On :
      (Q : Scored → Type 0) (found : Option Scored) (rest : List Scored)
      → ((x : Scored) → found ≡ some x → Q x)
      → All Q rest
      → All Q (cite found rest)
  cite-On Q none rest p h = h
  cite-On Q (some x) rest p h = (p x refl, h)

  pub cited_entries-On :
      (Q : Scored → Type 0) (ids : List ℕ) (xs : List Scored)
      → All Q xs
      → All Q (cited_entries ids xs)
  unfolding cited_entries
  cited_entries-On Q [] xs h = tt
  cited_entries-On Q (id ∷ ids) xs h =
      cite-On Q (entry_of id xs) (cited_entries ids xs) (entry_of-On Q id xs h)
        (cited_entries-On Q ids xs h)

  module _ (providers : Providers) where
    add_candidate-On :
        (c : RetrievedChunk) (gain : ℕ) (entries : List Scored)
        → P c
        → All On entries
        → All On (add_candidate providers c gain entries)
    unfolding add_candidate
    add_candidate-On c gain [] p h = (p, tt)
    add_candidate-On c gain (x ∷ xs) p h = elim (Bool-cases (x.chunk.chunk_id == c.chunk_id)) [
      | inl e ↦ rw e (p, h.1)
      | inr e ↦ rw e (h.0, add_candidate-On c gain xs p h.1)
    ]

    add_list-On :
        (k rank : ℕ) (cs : List RetrievedChunk) (entries : List Scored)
        → All P cs
        → All On entries
        → All On (add_list providers k rank cs entries)
    unfolding add_list
    add_list-On k rank [] entries p h = h
    add_list-On k rank (c ∷ cs) entries p h =
        add_list-On k (rank + 1) cs _ p.1 (add_candidate-On c _ entries p.0 h)

    add_lists-On :
        (k : ℕ) (lists : List (List RetrievedChunk)) (entries : List Scored)
        → All (All P) lists
        → All On entries
        → All On (add_lists providers k lists entries)
    unfolding add_lists
    add_lists-On k [] entries p h = h
    add_lists-On k (cs ∷ lists) entries p h =
        add_lists-On k lists _ p.1 (add_list-On k 1 cs entries p.0 h)

    pub fuse-All :
        (lists : List (List RetrievedChunk)) (ids : List ℕ) (k boost : ℕ)
        → All (All P) lists
        → All P (fuse providers lists ids k boost)
    unfolding fuse
    fuse-All lists ids k boost h = All-map P chunk_of _ (
        sort_scored-On _ (
          All-map On (boosted providers ids boost) (add_lists providers k lists [])
            (add_lists-On k lists [] h tt)))

    -- Every branch of retrieval within the scope keeps to `P`.
    abbrev pub Retrieves : RetrievalScope → Type 0
    Retrieves scope =
        ((cohort : ℕ) (text : Text) (limit : ℕ) (cs : List RetrievedChunk)
          → providers.lexical_search scope cohort text limit ≡ ok cs
          → All P cs)
        × ((cohort : ℕ) (vector : _) (limit : ℕ) (cs : List RetrievedChunk)
            → providers.vector_search scope cohort vector limit ≡ ok cs
            → All P cs)

    pub lexical_lists-AllOk :
        (scope : RetrievalScope)
        → Retrieves scope
        → (text : Text) (limit : ℕ) (cohorts : List ℕ)
        → AllOk (All (All P)) (lexical_lists providers scope text limit cohorts)
    unfolding AllOk lexical_lists
    lexical_lists-AllOk scope r text limit [] = tt
    lexical_lists-AllOk scope r text limit (cohort ∷ cohorts) =
        bind-AllOk (All P) (All (All P)) (providers.lexical_search scope cohort text limit) _
          (to_AllOk (All P) _ (r.0 cohort text limit))
          (λ cs p.
            bind-AllOk (All (All P)) (All (All P))
              (lexical_lists providers scope text limit cohorts) _
              (lexical_lists-AllOk scope r text limit cohorts) (λ rest q. (p, q)))

    pub vector_lists-AllOk :
        (scope : RetrievalScope)
        → Retrieves scope
        → (question : Text) (limit : ℕ) (cohorts : List (ℕ × EmbeddingConfiguration))
        → AllOk (All (All P)) (vector_lists providers scope question limit cohorts)
    unfolding AllOk vector_lists
    vector_lists-AllOk scope r question limit [] = tt
    vector_lists-AllOk scope r question limit ((id, configuration) ∷ cohorts) =
        bind-AllOk AnyOk (All (All P))
          (unavailable_if is_embedding_failure (providers.embed configuration question)) _
          (always _)
          (λ vector u.
            bind-AllOk (All P) (All (All P)) (providers.vector_search scope id vector limit) _
              (to_AllOk (All P) _ (r.1 id vector limit))
              (λ cs p.
                bind-AllOk (All (All P)) (All (All P))
                  (vector_lists providers scope question limit cohorts) _
                  (vector_lists-AllOk scope r question limit cohorts) (λ rest q. (p, q))))

    pub rerank-AllOk :
        (configuration : RerankingConfiguration) (question : Text) (cs : List RetrievedChunk)
        (limit : ℕ)
        → All P cs
        → AllOk (All On) (rerank providers configuration question cs limit)
    unfolding rerank AllOk
    rerank-AllOk configuration question cs limit h = capped (take limit cs) (All-take P limit cs h)
      where
        capped :
            (ds : List RetrievedChunk)
            → All P ds
            → AllOk (All On) (rerank_capped providers configuration question ds)
        capped [] h = tt
        capped (d ∷ ds) h =
            bind-AllOk AnyOk (All On)
              (unavailable_if is_value_error (providers.rerank configuration question (d ∷ ds))) _
              (always _)
              (λ scores u.
                bind-AllOk (All On) (All On) (attach_scores scores (d ∷ ds)) _
                  (attach_scores-On scores (d ∷ ds) h) (λ scored k. sort_scored-On scored k))
