-- ===== src/Chunker/Exact.antt =====
-- Every chunk that the chunker makes is an exact passage of the document, the ordinals count up,
-- no character but spaces is lost, and the loops end.
use document_insight.Prelude.{
  ℕ, ◌+◌, ◌-◌, ◌≤◌, ◌<◌, ◌≡◌, ◌==◌, refl, ap, ◌∙◌, inl, inr, false, some, length, get_elem?, drop,
  slice, arith, Bool-cases, ==_iff, length-take, get_elem?-drop, get_elem?-take,
}
use document_insight.Chunker.Text.{Text, is_space, strip}
use document_insight.Chunker.Strip.{
  leading_spaces, leading_lem, strip-slice, strip_keeps, length-strip-le,
}
use document_insight.Chunker.Window.{window_chunk}
use document_insight.Chunker.Passage.{form_feeds, IsPassage, Chunked, Chunked-nil}
use document_insight.Chunker.Pages.{
  PageAt, page_fits, page-slice, page-slice-whole, page-numbered, page-get_elem?,
}

module _ (text page : Text) (base page_number : ℕ) (at : PageAt text page base page_number) where
  -- A character of the document inside the window stands in the stripped window text.
  window_keeps :
      (start end p c : ℕ)
      → end ≤ length page
      → base + start ≤ p
      → p < base + end
      → get_elem? text p ≡ some c
      → is_space c ≡ false
      → let raw = slice page start end in
        (base + start + leading_spaces raw ≤ p)
        × (p < base + start + leading_spaces raw + length (strip raw))
  window_keeps start end p c inside low high here solid =
      let i = p - (base + start) in
      let raw = slice page start end in
      let same : base + (start + i) ≡ p = omega arith in
      let found : get_elem? raw i ≡ some c =
        get_elem?-take (end - start) i (drop start page) (omega arith)
        ∙ get_elem?-drop start i page
        ∙ page-get_elem? text page base page_number at (start + i) (omega arith)
        ∙ ap (get_elem? text) same
        ∙ here in
      omega (arith, strip_keeps raw i found solid)

  window_fits :
      (start end : ℕ)
      → let raw = slice page start end in
        start ≤ end → start + leading_spaces raw + length (strip raw) ≤ end
  window_fits start end h =
      let raw = slice page start end in
      omega (arith, length-strip-le raw, length-take (end - start) (drop start page))

  window_IsPassage :
      (max_chars ordinal start end : ℕ)
      → start < end
      → end ≤ length page
      → end ≤ start + max_chars
      → let raw = slice page start end in
        let from = base + (start + leading_spaces raw) in
        (length (strip raw) == 0) ≡ false
        → IsPassage text max_chars (record {
          ordinal = ordinal;
          text = strip raw;
          start_offset = from;
          end_offset = from + length (strip raw);
          page_number = page_number;
        })
  window_IsPassage max_chars ordinal start end grows inside short full =
      let raw = slice page start end in
      let l = leading_spaces raw in
      let k = length (strip raw) in
      let fits = window_fits start end (omega arith) in
      let regroup : base + (start + l + k) ≡ base + (start + l) + k = omega arith in
      let some_text : 0 < k = ground (arith, full) in
      record {
        exact =
            strip-slice page start end
            ∙ page-slice text page base page_number at (start + l) (start + l + k) (omega arith)
                (omega arith)
            ∙ ap (slice text (base + (start + l))) regroup;
        nonempty = omega arith;
        inside = omega (arith, page_fits text page base page_number at (omega arith));
        bounded = omega arith;
        one_page =
            ap form_feeds (strip-slice page start end)
            ∙ page-slice-whole text page base page_number at (start + l) (start + l + k);
        numbered = page-numbered text page base page_number at (start + l) (omega arith);
      }

  pub window_chunk-Chunked :
      (max_chars ordinal start end : ℕ)
      → start < end
      → end ≤ length page
      → end ≤ start + max_chars
      → Chunked text max_chars
          (base + start)
          (base + end)
          ordinal
          (window_chunk page base page_number ordinal start end)
  unfolding window_chunk
  window_chunk-Chunked max_chars ordinal start end grows inside short =
      let raw = slice page start end in
      elim (Bool-cases (length (strip raw) == 0)) [
        | inl e ↦ rw e (
            Chunked-nil text max_chars (base + start) (base + end) ordinal
              (λ p c low high here solid. absurd (
                omega (
                  arith,
                  window_keeps start end p c inside low high here solid,
                  (==_iff (length (strip raw)) 0).0 e,
                ))))
        | inr e ↦
            rw (e, leading_lem raw)
              (record {
                passages = (window_IsPassage max_chars ordinal start end grows inside short e, tt);
                ordinals = (refl, tt);
                covers = λ p c low high here solid.
                    inl (omega (arith, window_keeps start end p c inside low high here solid));
              })
      ]
