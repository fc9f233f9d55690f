-- ===== src/Chunker/Join.antt =====
-- Documents as joined pages: the page before a form feed, what follows it, and stripped pages.
use document_insight.Prelude.{
  ℕ, ◌+◌, ◌-◌, ◌≡◌, ◌==◌, refl, ap, ◌∙◌, inl, inr, false, some, List, [], ◌∷◌, ◌++◌, length,
  get_elem?, take, drop, slice, arith, Bool-cases,
}
use native.Mathlib.Nat.{suc-add}
use document_insight.Chunker.Text.{Text, strip, split_pages, form_feed, push_first}
use document_insight.Chunker.Strip.{leading_spaces, strip-eq-take, length-strip-le}
use document_insight.Chunker.Passage.{form_feeds}
use document_insight.Chunker.Pages.{PageAt, page-slice, page-numbered, page-slice-whole}

-- No page holds a form feed.
abbrev pub Whole : List Text → Type 0
Whole [] = Unit
Whole (p ∷ ps) = (form_feeds p ≡ 0) × Whole ps

push_first-Whole :
    (c : ℕ) (ps : List Text) → (c == form_feed) ≡ false → Whole ps → Whole (push_first c ps)
push_first-Whole c [] e h = ground (arith, e)
push_first-Whole c (p ∷ ps) e h = ground (arith, e, h.0, h.1)

pub split_pages-Whole : (s : Text) → Whole (split_pages s)
unfolding split_pages
split_pages-Whole [] = (refl, tt)
split_pages-Whole (c ∷ s) = elim (Bool-cases (c == form_feed)) [
  | inl e ↦ rw e (refl, split_pages-Whole s)
  | inr e ↦ rw e (push_first-Whole c (split_pages s) e (split_pages-Whole s))
]

pub take_self : (s r : Text) → take (length s) (s ++ r) ≡ s
take_self [] r = refl
take_self (c ∷ s) r = ap (λ t. c ∷ t) (take_self s r)

pub take_all : (s : Text) → take (length s) s ≡ s
take_all [] = refl
take_all (c ∷ s) = ap (λ t. c ∷ t) (take_all s)

pub get_elem?_past : (s r : Text) (x : ℕ) → get_elem? (s ++ x ∷ r) (length s) ≡ some x
get_elem?_past [] r x = refl
get_elem?_past (c ∷ s) r x = get_elem?_past s r x

pub drop_past : (s r : Text) (x : ℕ) → drop (length s + 1) (s ++ x ∷ r) ≡ r
drop_past [] r x = refl
drop_past (c ∷ s) r x = rw suc-add (drop_past s r x)

pub form_feeds_past :
    (s r : Text) → form_feeds (take (length s + 1) (s ++ form_feed ∷ r)) ≡ form_feeds s + 1
form_feeds_past [] r = refl
form_feeds_past (c ∷ s) r = rw suc-add (ground (arith, form_feeds_past s r))

-- The stripped page stands where the source says.
pub strip-PageAt :
    (text raw : Text) (base n : ℕ)
    → PageAt text raw base n
    → PageAt text (strip raw) (base + leading_spaces raw) n
strip-PageAt text raw base n at =
    let l = leading_spaces raw in
    let k = length (strip raw) in
    let same : l + k - l ≡ k = omega arith in
    let cut : strip raw ≡ slice raw l (l + k) = rw same (strip-eq-take raw) in
    let regroup : base + (l + k) - (base + l) ≡ k = omega arith in
    record {
      cut =
          rw regroup at
            (cut ∙ page-slice text raw base n at l (l + k) (length-strip-le raw) (omega arith));
      whole = ap form_feeds cut ∙ page-slice-whole text raw base n at l (l + k);
      numbered = page-numbered text raw base n at l (omega (arith, length-strip-le raw));
    }
