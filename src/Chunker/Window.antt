-- ===== src/Chunker/Window.antt =====
-- `PageWindowDocumentChunker` and its factory, method by method. Offsets are code-point counts.
use document_insight.Prelude.{
  ℕ, zero, suc, ◌+◌, ◌-◌, ◌/◌, not, Option, none, some, List, [], ◌∷◌, ◌++◌, leb, ltb, ◌==◌,
  if◌then◌else◌, length, slice, min, max,
}
use document_insight.Chunker.Text.{Text, space_at, lstrip, strip, split_pages}

-- `DocumentChunk`
pub record DocumentChunk : Type 0 where
  pub ordinal : ℕ
  pub text : Text
  pub start_offset : ℕ
  pub end_offset : ℕ
  pub page_number : ℕ

-- the fields that `__init__` sets
pub record Chunker : Type 0 where
  pub max_chars : ℕ
  pub overlap_chars : ℕ

-- `__init__`; `none` is the `ValueError`
unfoldable pub new_chunker : ℕ → ℕ → Option Chunker
new_chunker max_chars overlap_chars =
    if leb max_chars overlap_chars
    then none
    else some (record { max_chars = max_chars; overlap_chars = overlap_chars })

-- the `for` loop of `_preferred_break`: `index` runs from `minimum + rounds` down to `minimum + 1`
unfoldable pub break_from : Text → ℕ → ℕ → ℕ → ℕ
break_from text end minimum zero = end
break_from text end minimum (suc rounds) =
    let rest = break_from text end minimum rounds in
    if space_at text (minimum + rounds) then minimum + suc rounds else rest

unfoldable pub preferred_break : Text → ℕ → ℕ → ℕ
preferred_break text start end =
    let minimum = start + (end - start) / 2 in break_from text end minimum (end - minimum)

-- the `while` loop of `_next_start`, where `candidate` is `base + rounds`
unfoldable pub back_from : Text → ℕ → ℕ → ℕ
back_from text base zero = base
back_from text base (suc rounds) =
    let rest = back_from text base rounds in
    if not (space_at text (base + rounds)) then rest else base + suc rounds

-- `end - overlap` may be negative in Python; the `max` hides the difference.
unfoldable pub next_start : Chunker → Text → ℕ → ℕ → ℕ
next_start c text current_start end =
    let candidate = max (end - c.overlap_chars) (current_start + 1) in
    back_from text (current_start + 1) (candidate - (current_start + 1))

unfoldable pub window_end : Chunker → Text → ℕ → ℕ
window_end c page start =
    let end = min (start + c.max_chars) (length page) in
    if ltb end (length page) then preferred_break page start end else end

-- the chunk of the window `page[start:end]`, if it has text
unfoldable pub window_chunk : Text → ℕ → ℕ → ℕ → ℕ → ℕ → List DocumentChunk
window_chunk page page_start page_number ordinal start end =
    let raw_chunk = slice page start end in
    let leading = length raw_chunk - length (lstrip raw_chunk) in
    let chunk_text = strip raw_chunk in
    let chunk_start = start + leading in
    if length chunk_text == 0
    then []
    else record {
      ordinal = ordinal;
      text = chunk_text;
      start_offset = page_start + chunk_start;
      end_offset = page_start + chunk_start + length chunk_text;
      page_number = page_number;
    }
      ∷ []

abbrev pub prepend : List DocumentChunk → Option (List DocumentChunk) → Option (List DocumentChunk)
prepend cs none = none
prepend cs (some r) = some (cs ++ r)

-- the `while` loop of `_chunk_page`; `ordinal` is `ordinal_start + len(chunks)`, and `none` means
-- that the fuel ran out
unfoldable pub chunk_from : Chunker → Text → ℕ → ℕ → ℕ → ℕ → ℕ → Option (List DocumentChunk)
chunk_from c page page_start page_number zero ordinal start = none
chunk_from c page page_start page_number (suc fuel) ordinal start =
    let end = window_end c page start in
    let chunk = window_chunk page page_start page_number ordinal start end in
    let rest =
      chunk_from c page page_start page_number fuel (ordinal + length chunk)
        (next_start c page start end) in
    if ltb start (length page)
    then (if end == length page then some chunk else prepend chunk rest)
    else some []

unfoldable pub chunk_page : Chunker → Text → ℕ → ℕ → ℕ → Option (List DocumentChunk)
chunk_page c page page_start page_number ordinal_start =
    chunk_from c page page_start page_number (suc (length page)) ordinal_start 0

abbrev pub then_pages :
    Option (List DocumentChunk) → (ℕ → Option (List DocumentChunk)) → Option (List DocumentChunk)
then_pages none k = none
then_pages (some cs) k = prepend cs (k (length cs))

-- the loop of `chunk` over the pages; `ordinal` is `len(chunks)`
unfoldable pub chunk_pages : Chunker → List Text → ℕ → ℕ → ℕ → Option (List DocumentChunk)
chunk_pages c [] page_start page_number ordinal = some []
chunk_pages c (raw_page ∷ pages) page_start page_number ordinal =
    let leading = length raw_page - length (lstrip raw_page) in
    let page = strip raw_page in
    let here =
      if length page == 0
      then some []
      else chunk_page c page (page_start + leading) page_number ordinal in
    then_pages here (λ added.
      chunk_pages c pages (page_start + (length raw_page + 1)) (page_number + 1) (ordinal + added))

unfoldable pub chunk : Chunker → Text → Option (List DocumentChunk)
chunk c text = chunk_pages c (split_pages text) 0 1 0
