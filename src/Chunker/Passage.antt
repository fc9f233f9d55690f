-- ===== src/Chunker/Passage.antt =====
-- What a chunk promises of the document that it is cut from, and how such lists of chunks join.
use document_insight.Prelude.{
  ℕ, suc, ◌+◌, ◌≤◌, ◌<◌, ◌≡◌, ◌==◌, ◌⊎◌, inl, inr, false, some, List, [], ◌∷◌, ◌++◌, length,
  get_elem?, take, slice, count_if, arith,
}
use document_insight.Chunker.Text.{Text, is_space, form_feed}
use document_insight.Chunker.Window.{DocumentChunk}

-- how many form feeds a text has
abbrev pub form_feeds : Text → ℕ
form_feeds = count_if (λ c. c == form_feed)

-- One chunk, against the document and the window size: the text is the passage between the
-- offsets, is not empty, is no longer than the window, lies on one page, and is given that page's
-- number.
pub record IsPassage (text : Text) (max_chars : ℕ) (c : DocumentChunk) : Type 0 where
  pub exact : c.text ≡ slice text c.start_offset c.end_offset
  pub nonempty : c.start_offset < c.end_offset
  pub inside : c.end_offset ≤ length text
  pub bounded : c.end_offset ≤ c.start_offset + max_chars
  pub one_page : form_feeds c.text ≡ 0
  pub numbered : c.page_number ≡ suc (form_feeds (take c.start_offset text))

abbrev pub All : (DocumentChunk → Type 0) → List DocumentChunk → Type 0
All P [] = Unit
All P (c ∷ cs) = P c × All P cs

-- The ordinals count up from `n`.
abbrev pub Ordinals : ℕ → List DocumentChunk → Type 0
Ordinals n [] = Unit
Ordinals n (c ∷ cs) = (c.ordinal ≡ n) × Ordinals (n + 1) cs

-- Some chunk holds the offset.
abbrev pub Within : ℕ → List DocumentChunk → Type 0
Within p [] = ⊥
Within p (c ∷ cs) = ((c.start_offset ≤ p) × (p < c.end_offset)) ⊎ Within p cs

-- No character between the offsets is lost, but for spaces.
abbrev pub Covers : Text → ℕ → ℕ → List DocumentChunk → Type 0
Covers text lo hi cs =
    (p c : ℕ) → lo ≤ p → p < hi → get_elem? text p ≡ some c → is_space c ≡ false → Within p cs

pub record Chunked (text : Text) (max_chars lo hi ordinal : ℕ) (cs : List DocumentChunk)
    : Type 0 where
  pub passages : All (IsPassage text max_chars) cs
  pub ordinals : Ordinals ordinal cs
  pub covers : Covers text lo hi cs

All-append :
    (P : DocumentChunk → Type 0) (cs ds : List DocumentChunk)
    → All P cs
    → All P ds
    → All P (cs ++ ds)
All-append P [] ds h k = k
All-append P (c ∷ cs) ds h k = (h.0, All-append P cs ds h.1 k)

Ordinals-append :
    (n : ℕ) (cs ds : List DocumentChunk)
    → Ordinals n cs
    → Ordinals (n + length cs) ds
    → Ordinals n (cs ++ ds)
Ordinals-append n [] ds h k = let e : n + 0 ≡ n = omega arith in rw e at k
Ordinals-append n (c ∷ cs) ds h k =
    let e : n + suc (length cs) ≡ n + 1 + length cs = omega arith in
    (h.0, Ordinals-append (n + 1) cs ds h.1 (rw e at k))

Within-append_left : (p : ℕ) (cs ds : List DocumentChunk) → Within p cs → Within p (cs ++ ds)
Within-append_left p [] ds h = absurd h
Within-append_left p (c ∷ cs) ds (inl h) = inl h
Within-append_left p (c ∷ cs) ds (inr h) = inr (Within-append_left p cs ds h)

Within-append_right : (p : ℕ) (cs ds : List DocumentChunk) → Within p ds → Within p (cs ++ ds)
Within-append_right p [] ds h = h
Within-append_right p (c ∷ cs) ds h = inr (Within-append_right p cs ds h)

lt_or_ge : (a b : ℕ) → (a < b) ⊎ (b ≤ a)
lt_or_ge a b = ground arith

-- Chunks of two stretches with no gap between them.
pub Chunked-append :
    (text : Text) (max_chars lo mid mid' hi n : ℕ) (cs ds : List DocumentChunk)
    → Chunked text max_chars lo mid n cs
    → Chunked text max_chars mid' hi (n + length cs) ds
    → mid' ≤ mid
    → Chunked text max_chars lo hi n (cs ++ ds)
Chunked-append text max_chars lo mid mid' hi n cs ds h k meet = record {
  passages = All-append (IsPassage text max_chars) cs ds h.passages k.passages;
  ordinals = Ordinals-append n cs ds h.ordinals k.ordinals;
  covers = λ p c low high at solid. elim (lt_or_ge p mid) [
    | inl before ↦ Within-append_left p cs ds (h.covers p c low before at solid)
    | inr behind ↦ Within-append_right p cs ds (k.covers p c (omega arith) high at solid)
  ];
}

-- A stretch with nothing but spaces needs no chunk.
pub Chunked-nil :
    (text : Text) (max_chars lo hi n : ℕ) → Covers text lo hi [] → Chunked text max_chars lo hi n []
Chunked-nil text max_chars lo hi n h = record { passages = tt; ordinals = tt; covers = h }
