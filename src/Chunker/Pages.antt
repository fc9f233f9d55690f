-- ===== src/Chunker/Pages.antt =====
-- A page as a stretch of the document: slices of it are slices of the document, with no form feed.
use document_insight.Prelude.{
  ℕ, zero, suc, ◌+◌, ◌-◌, ◌≤◌, ◌<◌, ◌≡◌, refl, ap, sym, ◌∙◌, [], ◌∷◌, length, get_elem?, take, drop,
  slice, arith, length-take, length-drop, get_elem?-drop, get_elem?-take, take-drop-take, drop-add,
}
use native.Mathlib.Nat.{zero-add, suc-add}
use document_insight.Chunker.Text.{Text}
use document_insight.Chunker.Passage.{form_feeds}

-- `page` stands at offset `base` of the document, and its page number counts the form feeds
-- before it.
pub record PageAt (text page : Text) (base page_number : ℕ) : Type 0 where
  pub cut : page ≡ take (length page) (drop base text)
  pub whole : form_feeds page ≡ 0
  pub numbered : page_number ≡ suc (form_feeds (take base text))

form_feeds-take-le : (n : ℕ) (s : Text) → form_feeds (take n s) ≤ form_feeds s
form_feeds-take-le zero s = omega arith
form_feeds-take-le (suc n) [] = omega arith
form_feeds-take-le (suc n) (c ∷ s) = ground (arith, form_feeds-take-le n s)

form_feeds-drop-le : (n : ℕ) (s : Text) → form_feeds (drop n s) ≤ form_feeds s
form_feeds-drop-le zero s = omega arith
form_feeds-drop-le (suc n) [] = omega arith
form_feeds-drop-le (suc n) (c ∷ s) = ground (arith, form_feeds-drop-le n s)

take-nil : (n : ℕ) → take {A = ℕ} n [] ≡ []
take-nil zero = refl
take-nil (suc n) = refl

pub form_feeds-take-add :
    (n m : ℕ) (s : Text)
    → form_feeds (take (n + m) s) ≡ form_feeds (take n s) + form_feeds (take m (drop n s))
form_feeds-take-add zero m s =
    ap (λ n. form_feeds (take n s)) (zero-add m) ∙ sym (zero-add (form_feeds (take m s)))
form_feeds-take-add (suc n) m [] = rw (suc-add, take-nil m)
form_feeds-take-add (suc n) m (c ∷ s) = rw suc-add (ground (arith, form_feeds-take-add n m s))

module _ (text page : Text) (base page_number : ℕ) (at : PageAt text page base page_number) where
  pub page_fits : 0 < length page → base + length page ≤ length text
  page_fits pos =
      omega
        (arith, ap length at.cut, length-take (length page) (drop base text), length-drop base text)

  pub page-slice :
      (i j : ℕ) → j ≤ length page → i ≤ j → slice page i j ≡ slice text (base + i) (base + j)
  page-slice i j h k =
      let same : base + j - (base + i) ≡ j - i = omega arith in
      rw same (
        ap (λ t. take (j - i) (drop i t)) at.cut
        ∙ take-drop-take (j - i) i (length page) (drop base text) (omega arith)
        ∙ ap (take (j - i)) (sym (drop-add base i text)))

  pub page-slice-whole : (i j : ℕ) → form_feeds (slice page i j) ≡ 0
  page-slice-whole i j =
      omega (arith, form_feeds-take-le (j - i) (drop i page), form_feeds-drop-le i page, at.whole)

  -- Every offset inside the page has the page's number of form feeds before it.
  pub page-numbered :
      (i : ℕ) → i ≤ length page → page_number ≡ suc (form_feeds (take (base + i) text))
  page-numbered i h =
      let same : take i page ≡ take i (drop base text) =
        ap (take i) at.cut ∙ take-drop-take i 0 (length page) (drop base text) (omega arith) in
      omega (
        arith,
        form_feeds-take-add base i text,
        ap form_feeds same,
        form_feeds-take-le i page,
        at.whole,
        at.numbered,
      )

  pub page-get_elem? : (i : ℕ) → i < length page → get_elem? page i ≡ get_elem? text (base + i)
  page-get_elem? i h =
      ap (λ t. get_elem? t i) at.cut
      ∙ get_elem?-take (length page) i (drop base text) h
      ∙ get_elem?-drop base i text
