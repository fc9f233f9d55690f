-- ===== src/Chunker/Document.antt =====
-- The whole document: what `chunk` returns, for every text and every usable configuration.
use document_insight.Prelude.{
  ℕ, suc, ◌+◌, ◌-◌, ◌≤◌, ◌<◌, ◌≡◌, ◌≢◌, ◌⊎◌, ◌==◌, refl, ap, sym, ◌∙◌, inl, inr, false, Option,
  none, some, List, [], ◌∷◌, ◌++◌, length, get_elem?, take, drop, arith, Bool-cases, ==_iff,
  length-drop, get_elem?-drop, drop-add, if◌then◌else◌,
}
use document_insight.Chunker.Text.{
  Text, is_space, strip, lstrip, split_pages, join_pages, form_feed,
}
use document_insight.Chunker.Strip.{
  leading_spaces, leading_lem, strip_keeps, join-split, split_pages-ne_nil,
}
use document_insight.Chunker.Window.{
  DocumentChunk, Chunker, chunk_page, chunk_pages, chunk, then_pages,
}
use document_insight.Chunker.Passage.{form_feeds, Chunked, Chunked-append, Chunked-nil}
use document_insight.Chunker.Pages.{PageAt, form_feeds-take-add, page-get_elem?}
use document_insight.Chunker.Join.{
  Whole, split_pages-Whole, take_self, take_all, get_elem?_past, drop_past, form_feeds_past,
  strip-PageAt,
}
use document_insight.Chunker.Loop.{Returns, Returns-prepend, chunk_page-Returns}

Chunked-widen :
    (text : Text) (max_chars lo hi lo' hi' n : ℕ) (cs : List DocumentChunk)
    → ((p c : ℕ)
        → lo' ≤ p
        → p < hi'
        → get_elem? text p ≡ some c
        → is_space c ≡ false
        → (lo ≤ p) × (p < hi))
    → Chunked text max_chars lo hi n cs
    → Chunked text max_chars lo' hi' n cs
Chunked-widen text max_chars lo hi lo' hi' n cs inner h = record {
  passages = h.passages;
  ordinals = h.ordinals;
  covers = λ p c low high at solid.
      let (l, r) = inner p c low high at solid in h.covers p c l r at solid;
}

Returns-some :
    (P : List DocumentChunk → Type 0) (r : Option (List DocumentChunk))
    → Returns r P
    → (cs : List DocumentChunk) × (r ≡ some cs) × P cs
Returns-some P none h = absurd h
Returns-some P (some cs) h = (cs, refl, h)

lt_or_eq : (a b : ℕ) → a < b + 1 → (a < b) ⊎ (a ≡ b)
lt_or_eq a b h = ground arith

Returns-map :
    (P Q : List DocumentChunk → Type 0) (r : Option (List DocumentChunk))
    → ((cs : List DocumentChunk) → P cs → Q cs)
    → Returns r P
    → Returns r Q
Returns-map P Q none k h = h
Returns-map P Q (some cs) k h = k cs h

-- The chunks of one page of `str.split`, before the next form feed.
abbrev page_chunks : Chunker → Text → ℕ → ℕ → ℕ → Option (List DocumentChunk)
page_chunks c raw page_start n ordinal =
    if length (strip raw) == 0
    then some []
    else chunk_page c (strip raw) (page_start + (length raw - length (lstrip raw))) n ordinal

module _ (c : Chunker) (text : Text) (pos : 0 < c.max_chars) where
  page_inner :
      (raw : Text) (base n p ch : ℕ)
      → PageAt text raw base n
      → base ≤ p
      → p < base + length raw
      → get_elem? text p ≡ some ch
      → is_space ch ≡ false
      → (base + leading_spaces raw ≤ p) × (p < base + leading_spaces raw + length (strip raw))
  page_inner raw base n p ch at low high here solid =
      let same : base + (p - base) ≡ p = omega arith in
      let found : get_elem? raw (p - base) ≡ some ch =
        page-get_elem? text raw base n at (p - base) (omega arith)
        ∙ ap (get_elem? text) same
        ∙ here in
      omega (arith, strip_keeps raw (p - base) found solid)

  page_chunks-Returns :
      (raw : Text) (base n ordinal : ℕ)
      → PageAt text raw base n
      → Returns
          (page_chunks c raw base n ordinal)
          (Chunked text c.max_chars base (base + length raw) ordinal)
  page_chunks-Returns raw base n ordinal at =
      let l = leading_spaces raw in
      let k = length (strip raw) in
      elim (Bool-cases (k == 0)) [
        | inl e ↦ rw e (
            Chunked-nil text c.max_chars base (base + length raw) ordinal
              (λ p ch low high here solid. absurd (
                omega
                  (arith, page_inner raw base n p ch at low high here solid, (==_iff k 0).0 e))))
        | inr e ↦
            rw (e, leading_lem raw)
              (Returns-map (Chunked text c.max_chars (base + l) (base + l + k) ordinal)
                (Chunked text c.max_chars base (base + length raw) ordinal)
                (chunk_page c (strip raw) (base + l) n ordinal)
                (λ cs h.
                  Chunked-widen text c.max_chars (base + l) (base + l + k) base (base + length raw)
                    ordinal cs
                    (λ p ch low high here solid. page_inner raw base n p ch at low high here solid)
                    h)
                (chunk_page-Returns c text (strip raw) (base + l) n
                  (strip-PageAt text raw base n at) pos ordinal))
      ]

Returns-then_pages :
    (Q P : List DocumentChunk → Type 0) (R : List DocumentChunk → List DocumentChunk → Type 0)
    (here : Option (List DocumentChunk)) (k : ℕ → Option (List DocumentChunk))
    → Returns here Q
    → ((cs : List DocumentChunk) → Q cs → Returns (k (length cs)) (R cs))
    → ((cs ds : List DocumentChunk) → Q cs → R cs ds → P (cs ++ ds))
    → Returns (then_pages here k) P
Returns-then_pages Q P R none k h more join = absurd h
Returns-then_pages Q P R (some cs) k h more join =
    Returns-prepend P (R cs) cs (k (length cs)) (more cs h) (λ ds r. join cs ds h r)

-- The form feed behind a page is a space, so the page's chunks cover the stretch up to the next.
form_feed_not_solid :
    (text raw rest : Text) (base p c : ℕ)
    → raw ++ form_feed ∷ rest ≡ drop base text
    → p ≡ base + length raw
    → get_elem? text p ≡ some c
    → is_space c ≡ false
    → ⊥
unfolding is_space
form_feed_not_solid text raw rest base p c joined here found solid =
    let at : get_elem? text p ≡ some form_feed =
      ap (get_elem? text) here
      ∙ sym (get_elem?-drop base (length raw) text)
      ∙ ap (λ t. get_elem? t (length raw)) (sym joined)
      ∙ get_elem?_past raw rest form_feed in
    let same : c ≡ form_feed = cc (found, at) in cc (ap is_space same)

module _ (c : Chunker) (text : Text) (pos : 0 < c.max_chars) (raw : Text) (base n ordinal : ℕ) where
  last_page-Returns :
      raw ≡ drop base text
      → form_feeds raw ≡ 0
      → n ≡ suc (form_feeds (take base text))
      → Returns
          (page_chunks c raw base n ordinal)
          (Chunked text c.max_chars base (length text) ordinal)
  last_page-Returns joined whole numbered =
      let at : PageAt text raw base n = record {
        cut = sym (take_all raw) ∙ ap (take (length raw)) joined;
        whole = whole;
        numbered = numbered;
      } in
      let long : length raw ≡ length text - base = ap length joined ∙ length-drop base text in
      Returns-map (Chunked text c.max_chars base (base + length raw) ordinal)
        (Chunked text c.max_chars base (length text) ordinal) (page_chunks c raw base n ordinal)
        (λ cs h.
          Chunked-widen text c.max_chars base (base + length raw) base (length text) ordinal cs
            (λ p ch low high here solid. omega arith) h)
        (page_chunks-Returns c text pos raw base n ordinal at)

  inner_page-Returns :
      (rest : Text)
      → raw ++ form_feed ∷ rest ≡ drop base text
      → form_feeds raw ≡ 0
      → n ≡ suc (form_feeds (take base text))
      → Returns
          (page_chunks c raw base n ordinal)
          (Chunked text c.max_chars base (base + (length raw + 1)) ordinal)
  inner_page-Returns rest joined whole numbered =
      let at : PageAt text raw base n = record {
        cut = sym (take_self raw (form_feed ∷ rest)) ∙ ap (take (length raw)) joined;
        whole = whole;
        numbered = numbered;
      } in
      Returns-map (Chunked text c.max_chars base (base + length raw) ordinal)
        (Chunked text c.max_chars base (base + (length raw + 1)) ordinal)
        (page_chunks c raw base n ordinal)
        (λ cs h.
          Chunked-widen text c.max_chars base (base + length raw) base (base + (length raw + 1))
            ordinal cs
            (λ p ch low high here solid. elim (lt_or_eq p (base + length raw) (omega arith)) [
              | inl before ↦ omega arith
              | inr equal ↦
                  absurd (form_feed_not_solid text raw rest base p ch joined equal here solid)
            ])
            h)
        (page_chunks-Returns c text pos raw base n ordinal at)

  next_numbered :
      (rest : Text)
      → raw ++ form_feed ∷ rest ≡ drop base text
      → form_feeds raw ≡ 0
      → n ≡ suc (form_feeds (take base text))
      → n + 1 ≡ suc (form_feeds (take (base + (length raw + 1)) text))
  next_numbered rest joined whole numbered = omega (
    arith,
    form_feeds-take-add base (length raw + 1) text,
    ap (λ t. form_feeds (take (length raw + 1) t)) joined,
    form_feeds_past raw rest,
  )

module _ (c : Chunker) (text : Text) (pos : 0 < c.max_chars) where
  chunk_pages-Returns :
      (pages : List Text) (base n ordinal : ℕ)
      → pages ≢ []
      → join_pages pages ≡ drop base text
      → Whole pages
      → n ≡ suc (form_feeds (take base text))
      → Returns
          (chunk_pages c pages base n ordinal)
          (Chunked text c.max_chars base (length text) ordinal)
  unfolding chunk_pages join_pages
  chunk_pages-Returns [] base n ordinal some_page joined whole numbered = absurd (some_page refl)
  chunk_pages-Returns (raw ∷ []) base n ordinal some_page joined whole numbered =
      Returns-then_pages (Chunked text c.max_chars base (length text) ordinal)
        (Chunked text c.max_chars base (length text) ordinal)
        (λ cs. Chunked text c.max_chars (length text) (length text) (ordinal + length cs))
        (page_chunks c raw base n ordinal) (λ added. some [])
        (last_page-Returns c text pos raw base n ordinal joined whole.0 numbered)
        (λ cs h.
          Chunked-nil text c.max_chars (length text) (length text) (ordinal + length cs)
            (λ p ch low high. absurd (omega arith)))
        (λ cs ds h k.
          Chunked-append text c.max_chars base (length text) (length text) (length text) ordinal cs
            ds h k (omega arith))
  chunk_pages-Returns (raw ∷ q ∷ pages) base n ordinal some_page joined whole numbered =
      let rest = join_pages (q ∷ pages) in
      let base' = base + (length raw + 1) in
      Returns-then_pages (Chunked text c.max_chars base base' ordinal)
        (Chunked text c.max_chars base (length text) ordinal)
        (λ cs. Chunked text c.max_chars base' (length text) (ordinal + length cs))
        (page_chunks c raw base n ordinal)
        (λ added. chunk_pages c (q ∷ pages) base' (n + 1) (ordinal + added))
        (inner_page-Returns c text pos raw base n ordinal rest joined whole.0 numbered)
        (λ cs h.
          chunk_pages-Returns (q ∷ pages) base' (n + 1) (ordinal + length cs) (λ e. cc)
            (sym (drop_past raw rest form_feed)
              ∙ ap (drop (length raw + 1)) joined
              ∙ sym (drop-add base (length raw + 1) text))
            whole.1 (next_numbered c text pos raw base n ordinal rest joined whole.0 numbered))
        (λ cs ds h k.
          Chunked-append text c.max_chars base base' base' (length text) ordinal cs ds h k
            (omega arith))

-- The chunker ends on every document, whatever the overlap, as soon as the window is not empty.
-- Its chunks are exact passages of the document that lie on one page and are no longer than the
-- window, their ordinals count up from 0, and every character but spaces stands in a chunk.
pub chunk-Chunked :
    (c : Chunker) (text : Text)
    → 0 < c.max_chars
    → (cs : List DocumentChunk) × (chunk c text ≡ some cs)
      × Chunked text c.max_chars 0 (length text) 0 cs
unfolding chunk
chunk-Chunked c text pos =
    Returns-some (Chunked text c.max_chars 0 (length text) 0)
      (chunk_pages c (split_pages text) 0 1 0)
      (chunk_pages-Returns c text pos (split_pages text) 0 1 0 (split_pages-ne_nil text)
        (join-split text) (split_pages-Whole text) refl)
