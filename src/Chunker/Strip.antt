-- ===== src/Chunker/Strip.antt =====
-- Stripping, slicing and splitting: where a stripped text stands in its source, what it keeps, and
-- that the pages joined again are the document.
use document_insight.Prelude.{
  ℕ, zero, suc, ◌+◌, ◌-◌, ◌≤◌, ◌<◌, ◌≡◌, ◌≢◌, ◌==◌, refl, ap, sym, ◌∙◌, inl, inr, false, some, List,
  [], ◌∷◌, length, get_elem?, take, drop, slice, if◌then◌else◌, arith, Bool-cases, length-take,
  get_elem?-drop, take-drop-take, drop-add,
}
use document_insight.Chunker.Text.{
  Text, is_space, lstrip, rstrip, rstrip_cons, strip, split_pages, join_pages, form_feed,
  push_first,
}

-- how many spaces stand first
unfoldable pub leading_spaces : Text → ℕ
leading_spaces [] = 0
leading_spaces (c ∷ s) = if is_space c then suc (leading_spaces s) else 0

pub length-lstrip : (s : Text) → length (lstrip s) + leading_spaces s ≡ length s
unfolding lstrip leading_spaces
length-lstrip [] = omega arith
length-lstrip (c ∷ s) = ground (arith, length-lstrip s)

-- the source counts the leading spaces by a difference of lengths
pub leading_lem : (s : Text) → length s - length (lstrip s) ≡ leading_spaces s
leading_lem s = omega (arith, length-lstrip s)

lstrip-eq-drop : (s : Text) → lstrip s ≡ drop (leading_spaces s) s
unfolding lstrip leading_spaces
lstrip-eq-drop [] = refl
lstrip-eq-drop (c ∷ s) = ground (arith, lstrip-eq-drop s)

length-rstrip-le : (s : Text) → length (rstrip s) ≤ length s
unfolding rstrip
length-rstrip-le [] = omega arith
length-rstrip-le (c ∷ s) = ground (arith, length-rstrip-le s)

rstrip_cons-eq-take :
    (c : ℕ) (s r : Text)
    → r ≡ take (length r) s
    → rstrip_cons c r ≡ take (length (rstrip_cons c r)) (c ∷ s)
rstrip_cons-eq-take c s [] h = elim (Bool-cases (is_space c)) [ inl e ↦ rw e | inr e ↦ rw e ]
rstrip_cons-eq-take c s (d ∷ r) h = ap (λ t. c ∷ t) h

rstrip-eq-take : (s : Text) → rstrip s ≡ take (length (rstrip s)) s
unfolding rstrip
rstrip-eq-take [] = refl
rstrip-eq-take (c ∷ s) = rstrip_cons-eq-take c s (rstrip s) (rstrip-eq-take s)

-- A stripped text is a slice of its source that begins behind the leading spaces.
pub strip-eq-take : (s : Text) → strip s ≡ take (length (strip s)) (drop (leading_spaces s) s)
unfolding strip
strip-eq-take s = rw (← lstrip-eq-drop) (rstrip-eq-take (lstrip s))

pub length-strip-le : (s : Text) → leading_spaces s + length (strip s) ≤ length s
unfolding strip
length-strip-le s = omega (arith, length-lstrip s, length-rstrip-le (lstrip s))

-- The stripped slice is a slice of the whole text.
pub strip-slice :
    (s : Text) (i j : ℕ)
    → let raw = slice s i j in
      strip raw ≡ slice s (i + leading_spaces raw) (i + leading_spaces raw + length (strip raw))
strip-slice s i j =
    let raw = slice s i j in
    let l = leading_spaces raw in
    let k = length (strip raw) in
    let fits : l + k ≤ j - i = omega (arith, length-strip-le raw, length-take (j - i) (drop i s)) in
    let same : i + l + k - (i + l) ≡ k = omega arith in
    rw same (
      strip-eq-take raw
      ∙ take-drop-take k l (j - i) (drop i s) fits
      ∙ ap (take k) (sym (drop-add i l s)))

leading_spaces-le :
    (s : Text) (p : ℕ) {c : ℕ} → get_elem? s p ≡ some c → is_space c ≡ false → leading_spaces s ≤ p
unfolding leading_spaces
leading_spaces-le [] p e h = cc
leading_spaces-le (d ∷ s) zero e h = ground arith
leading_spaces-le (d ∷ s) (suc p) e h = ground (arith, leading_spaces-le s p e h)

rstrip_keeps :
    (s : Text) (p : ℕ) {c : ℕ} → get_elem? s p ≡ some c → is_space c ≡ false → p < length (rstrip s)
unfolding rstrip
rstrip_keeps [] p e h = cc
rstrip_keeps (d ∷ s) zero e h = ground arith
rstrip_keeps (d ∷ s) (suc p) e h = ground (arith, rstrip_keeps s p e h)

-- A character that is no space stands inside the stripped text.
pub strip_keeps :
    (s : Text) (p : ℕ) {c : ℕ}
    → get_elem? s p ≡ some c
    → is_space c ≡ false
    → (leading_spaces s ≤ p) × (p < leading_spaces s + length (strip s))
unfolding strip
strip_keeps s p e h =
    let low = leading_spaces-le s p e h in
    let same : leading_spaces s + (p - leading_spaces s) ≡ p = omega arith in
    let at : get_elem? (lstrip s) (p - leading_spaces s) ≡ get_elem? s p =
      rw (lstrip-eq-drop s)
        (get_elem?-drop (leading_spaces s) (p - leading_spaces s) s ∙ ap (get_elem? s) same) in
    omega (arith, rstrip_keeps (lstrip s) (p - leading_spaces s) (at ∙ e) h)

push_first-ne_nil : (c : ℕ) (ps : List Text) → push_first c ps ≢ []
push_first-ne_nil c [] = λ e. cc
push_first-ne_nil c (p ∷ ps) = λ e. cc

pub split_pages-ne_nil : (s : Text) → split_pages s ≢ []
unfolding split_pages
split_pages-ne_nil [] = λ e. cc
split_pages-ne_nil (c ∷ s) = ground (arith, push_first-ne_nil c (split_pages s))

join-nil_cons : (ps : List Text) → ps ≢ [] → join_pages ([] ∷ ps) ≡ form_feed ∷ join_pages ps
unfolding join_pages
join-nil_cons [] h = absurd (h refl)
join-nil_cons (p ∷ ps) h = refl

join-push_first : (c : ℕ) (ps : List Text) → join_pages (push_first c ps) ≡ c ∷ join_pages ps
unfolding join_pages
join-push_first c [] = refl
join-push_first c (p ∷ []) = refl
join-push_first c (p ∷ q ∷ ps) = refl

-- The pages, joined by form feeds, are the document.
pub join-split : (s : Text) → join_pages (split_pages s) ≡ s
unfolding split_pages
join-split [] = unfold join_pages in refl
join-split (c ∷ s) = elim (Bool-cases (c == form_feed)) [
  | inl e ↦
      rw e (join-nil_cons (split_pages s) (split_pages-ne_nil s) ∙ ground (arith, join-split s))
  | inr e ↦ rw e (join-push_first c (split_pages s) ∙ ap (λ t. c ∷ t) (join-split s))
]
