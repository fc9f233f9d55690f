-- ===== src/Chunker/Loop.antt =====
-- The loops of the chunker end within their fuel, and their chunks promise what one window does.
use document_insight.Prelude.{
  ℕ, zero, suc, ◌+◌, ◌-◌, ◌≤◌, ◌<◌, ◌≡◌, ◌==◌, inl, inr, false, Option, none, some, List, ◌++◌,
  length, ltb, arith, Bool-cases, ==_iff, ltb→lt,
}
use mathlib.Core.Path.{subst}
use document_insight.Chunker.Text.{Text}
use document_insight.Chunker.Window.{
  DocumentChunk, Chunker, window_end, next_start, window_chunk, chunk_from, chunk_page, prepend,
}
use document_insight.Chunker.Bounds.{window_end_bounds, next_start_bounds}
use document_insight.Chunker.Passage.{Chunked, Chunked-append, Chunked-nil}
use document_insight.Chunker.Pages.{PageAt}
use document_insight.Chunker.Exact.{window_chunk-Chunked}

-- The fuel was enough, and the chunks satisfy `P`.
abbrev pub Returns : Option (List DocumentChunk) → (List DocumentChunk → Type 0) → Type 0
Returns none P = ⊥
Returns (some cs) P = P cs

pub Returns-prepend :
    (P Q : List DocumentChunk → Type 0) (cs : List DocumentChunk) (r : Option (List DocumentChunk))
    → Returns r Q
    → ((ds : List DocumentChunk) → Q ds → P (cs ++ ds))
    → Returns (prepend cs r) P
Returns-prepend P Q cs none h k = absurd h
Returns-prepend P Q cs (some ds) h k = k ds h

ltb-false : (a b : ℕ) → ltb a b ≡ false → b ≤ a
ltb-false a b h = ground (arith, h)

module _ (c : Chunker) (text page : Text) (base page_number : ℕ)
    (at : PageAt text page base page_number) (pos : 0 < c.max_chars) where
  Result : ℕ → ℕ → List DocumentChunk → Type 0
  Result start ordinal = Chunked text c.max_chars (base + start) (base + length page) ordinal

  chunk_from-Returns :
      (fuel ordinal start : ℕ)
      → length page - start < fuel
      → Returns (chunk_from c page base page_number fuel ordinal start) (Result start ordinal)
  unfolding chunk_from Result
  chunk_from-Returns zero ordinal start h = elim h [ ]
  chunk_from-Returns (suc fuel) ordinal start h = elim (Bool-cases (ltb start (length page))) [
    | inr done ↦ rw done (
        Chunked-nil text c.max_chars (base + start) (base + length page) ordinal
          (λ p ch low high here solid. absurd (omega (arith, ltb-false start (length page) done))))
    | inl more ↦
        let inside : start < length page = ltb→lt start (length page) more in
        let end = window_end c page start in
        let bounds = window_end_bounds c page start pos inside in
        let cs = window_chunk page base page_number ordinal start end in
        let here =
          window_chunk-Chunked text page base page_number at c.max_chars ordinal start end bounds.0
            bounds.2 bounds.1 in
        let next = next_start c page start end in
        let moves = next_start_bounds c page start end bounds.0 in
        rw more (elim (Bool-cases (end == length page)) [
          | inl last ↦ rw last (
              subst (λ t. Chunked text c.max_chars (base + start) (base + t) ordinal cs)
                ((==_iff end (length page)).0 last) here)
          | inr not_last ↦ rw not_last (
              Returns-prepend (Result start ordinal) (Result next (ordinal + length cs)) cs
                (chunk_from c page base page_number fuel (ordinal + length cs) next)
                (chunk_from-Returns fuel (ordinal + length cs) next (omega arith))
                (λ ds k.
                  Chunked-append text c.max_chars (base + start) (base + end) (base + next)
                    (base + length page) ordinal cs ds here k (omega arith)))
        ])
  ]

  -- `_chunk_page` over a page of the document.
  pub chunk_page-Returns :
      (ordinal : ℕ)
      → Returns
          (chunk_page c page base page_number ordinal)
          (Chunked text c.max_chars base (base + length page) ordinal)
  unfolding chunk_page Result
  chunk_page-Returns ordinal =
      let e : base + 0 ≡ base = omega arith in
      subst
        (λ b.
          Returns (chunk_from c page base page_number (suc (length page)) ordinal 0)
            (Chunked text c.max_chars b (base + length page) ordinal))
        e (chunk_from-Returns (suc (length page)) ordinal 0 (omega arith))
