-- ===== src/Retrieval/Scope.antt =====
-- What every search returns lies in the scope that it is given.
use document_insight.Prelude.{
  ℕ, ◌≡◌, refl, inl, inr, true, Option, none, some, List, [], ◌∷◌, ◌==◌, keep_if, order_by-All, In,
  All, All-In, any-witness, flat_map-All, All-map, All-take, All-kept, All-keep_if, All-and,
  All-imp, arith, Bool-cases,
}
use document_insight.Chunker.Text.{Text}
use document_insight.Store.Documents.{DocumentRow, AssignmentRow, contains}
use document_insight.Store.Chunks.{ChunkRow, Vector}
use document_insight.Store.System.{Database}
use document_insight.Query.Models.{RetrievedChunk, RetrievalScope}
use document_insight.Retrieval.Repository.{
  Engine, authorized_document, is_allowed, is_current, unless_empty, visible, chunk_statement,
  documents_of, Ranked, to_retrieved, with_distance, lexical_search, vector_search,
}

-- the scope's departments include one that the document is assigned to
pub record IsShared (scope : RetrievalScope) (d : Database) (document_id : ℕ) : Type 0 where
  pub assignment : AssignmentRow
  pub stored : In assignment d.assignments
  pub of_document : assignment.document_id ≡ document_id
  pub of_tenant : assignment.tenant_id ≡ scope.tenant_id
  pub in_scope : In assignment.department_id scope.department_ids

abbrev pub Allows : Option (List ℕ) → ℕ → Type 0
Allows none version_id = Unit
Allows (some allowed) version_id = In version_id allowed

-- A chunk of a document of the tenant, out of the version that the document shows now, in a
-- department of the scope, and of an allowed version if the scope lists some.
pub record IsInScope (scope : RetrievalScope) (d : Database) (c : RetrievedChunk) : Type 0 where
  pub chunk : ChunkRow
  pub document : DocumentRow
  pub chunk_stored : In chunk d.chunks
  pub document_stored : In document d.documents
  pub same_chunk : c.chunk_id ≡ chunk.id
  pub same_text : c.text ≡ chunk.text
  pub same_page : c.page_number ≡ some chunk.page_number
  pub same_document : c.document_id ≡ document.id
  pub same_version : c.document_version_id ≡ chunk.document_version_id
  pub current : document.current_ready_version_id ≡ some chunk.document_version_id
  pub chunk_tenant : chunk.tenant_id ≡ scope.tenant_id
  pub document_tenant : document.tenant_id ≡ scope.tenant_id
  pub shared : IsShared scope d document.id
  pub allowed : Allows scope.allowed_version_ids chunk.document_version_id

contains-In : (xs : List ℕ) (x : ℕ) → contains xs x ≡ true → In x xs
unfolding contains
contains-In [] x e = cc
contains-In (y ∷ xs) x e = elim (Bool-cases (y == x)) [
  | inl own ↦ inl (ground (arith, own))
  | inr other ↦ inr (contains-In xs x (rw other at e))
]

authorized_document-IsShared :
    (scope : RetrievalScope) (d : Database) (document_id : ℕ)
    → authorized_document scope d document_id ≡ true
    → IsShared scope d document_id
unfolding authorized_document
authorized_document-IsShared scope d document_id e =
    let (a, stored, passes) = any-witness _ d.assignments e in
    record {
      assignment = a;
      stored = stored;
      of_document = ground (arith, passes);
      of_tenant = ground (arith, passes);
      in_scope = contains-In scope.department_ids a.department_id (ground (arith, passes));
    }

module _ (scope : RetrievalScope) (d : Database) where
  record IsRowInScope (chunk : ChunkRow) (document : DocumentRow) : Type 0 where
    pub chunk_stored : In chunk d.chunks
    pub document_stored : In document d.documents
    pub current : document.current_ready_version_id ≡ some chunk.document_version_id
    pub chunk_tenant : chunk.tenant_id ≡ scope.tenant_id
    pub document_tenant : document.tenant_id ≡ scope.tenant_id
    pub shared : IsShared scope d document.id
    pub allowed : Allows scope.allowed_version_ids chunk.document_version_id

  allowed-Allows :
      (versions : Option (List ℕ)) (version_id : ℕ)
      → is_allowed versions version_id ≡ true
      → Allows versions version_id
  allowed-Allows none version_id e = tt
  allowed-Allows (some versions) version_id e = contains-In versions version_id e

  current-eq :
      (current : Option ℕ) (version_id : ℕ)
      → is_current current version_id ≡ true
      → current ≡ some version_id
  current-eq none version_id e = cc
  current-eq (some current) version_id e = ground (arith, e)

  visible-IsRowInScope :
      (chunk : ChunkRow) (document : DocumentRow)
      → In chunk d.chunks
      → In document d.documents
      → visible scope d chunk.tenant_id chunk.document_version_id document ≡ true
      → IsRowInScope chunk document
  unfolding visible
  visible-IsRowInScope chunk document chunk_stored document_stored e = record {
    chunk_stored = chunk_stored;
    document_stored = document_stored;
    current =
        current-eq document.current_ready_version_id chunk.document_version_id (ground (arith, e));
    chunk_tenant = ground (arith, e);
    document_tenant = ground (arith, e);
    shared = authorized_document-IsShared scope d document.id (ground (arith, e));
    allowed =
        allowed-Allows scope.allowed_version_ids chunk.document_version_id (ground (arith, e));
  }

  abbrev OfScope : ChunkRow × DocumentRow → Type 0
  OfScope row = IsRowInScope row.0 row.1

  chunk_statement-OfScope : All OfScope (chunk_statement scope d)
  unfolding chunk_statement
  chunk_statement-OfScope =
      flat_map-All (λ chunk. In chunk d.chunks) OfScope (documents_of scope d)
        (λ chunk stored.
          let test = visible scope d chunk.tenant_id chunk.document_version_id in
          All-map OfScope (λ document. (chunk, document)) (keep_if test d.documents)
            (All-imp (λ document. In document d.documents × (test document ≡ true)) _
              (λ document h. visible-IsRowInScope chunk document stored h.0 h.1)
              (keep_if test d.documents)
              (All-and (λ document. In document d.documents) (λ document. test document ≡ true) _
                (All-kept _ test d.documents (All-In d.documents))
                (All-keep_if _ test (λ document t. t) d.documents))))
        d.chunks (All-In d.chunks)

  abbrev OfRanked : Ranked → Type 0
  OfRanked row = IsRowInScope row.1 row.2

  retrieved-IsInScope : (row : Ranked) → OfRanked row → IsInScope scope d (to_retrieved row)
  retrieved-IsInScope (score, chunk, document) h = record {
    chunk = chunk;
    document = document;
    chunk_stored = h.chunk_stored;
    document_stored = h.document_stored;
    same_chunk = refl;
    same_text = refl;
    same_page = refl;
    same_document = refl;
    same_version = refl;
    current = h.current;
    chunk_tenant = h.chunk_tenant;
    document_tenant = h.document_tenant;
    shared = h.shared;
    allowed = h.allowed;
  }

  unless_empty-All :
      {A B : Type 0} (P : B → Type 0) (xs : List A) (ys : List B)
      → All P ys
      → All P (unless_empty xs ys)
  unless_empty-All P [] ys h = tt
  unless_empty-All P (x ∷ xs) ys h = h

  module _ (engine : Engine) where
    -- A lexical search returns chunks of its scope only.
    pub lexical_search-IsInScope :
        (profile_id : ℕ) (text : Text) (limit : ℕ)
        → All (IsInScope scope d) (lexical_search engine d scope profile_id text limit)
    unfolding lexical_search
    lexical_search-IsInScope profile_id text limit =
        unless_empty-All (IsInScope scope d) scope.department_ids _ (
          All-map (IsInScope scope d) to_retrieved _ (
            All-imp OfRanked _ retrieved-IsInScope _ (
              All-take OfRanked limit _ (
                order_by-All OfRanked _ _
                  (All-map OfRanked _ _ (All-kept OfScope _ _ chunk_statement-OfScope))))))

    with_distance-All :
        (profile_id : ℕ) (vector : Vector) (row : ChunkRow × DocumentRow)
        → OfScope row
        → All OfRanked (with_distance engine d profile_id vector row)
    with_distance-All profile_id vector (chunk, document) h =
        All-map OfRanked _ _ (All-imp (λ e. In e _) _ (λ e member. h) _ (All-In _))

    -- A vector search returns chunks of its scope only.
    pub vector_search-IsInScope :
        (profile_id : ℕ) (vector : Vector) (limit : ℕ)
        → All (IsInScope scope d) (vector_search engine d scope profile_id vector limit)
    unfolding vector_search
    vector_search-IsInScope profile_id vector limit =
        unless_empty-All (IsInScope scope d) scope.department_ids _ (
          All-map (IsInScope scope d) to_retrieved _ (
            All-imp OfRanked _ retrieved-IsInScope _ (
              All-map OfRanked _ _ (
                All-take OfRanked limit _ (
                  order_by-All OfRanked _ _ (
                    flat_map-All OfScope OfRanked (with_distance engine d profile_id vector)
                      (with_distance-All profile_id vector) _
                      (All-kept OfScope _ _ chunk_statement-OfScope)))))))
