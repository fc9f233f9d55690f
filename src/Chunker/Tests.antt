-- ===== src/Chunker/Tests.antt =====
-- The chunker on the inputs of tests/infrastructure/test_page_window_chunker.py.
use document_insight.Prelude.{◌≡◌, refl, some, none, List, [], ◌∷◌, map, arith}
use mathlib.Core.Option
use document_insight.Chunker.Text.{
  Text, code_points, strip, lstrip, rstrip, split_pages, space_at, is_space,
}
use document_insight.Chunker.Window.{
  DocumentChunk, Chunker, chunk, new_chunker, chunk_pages, chunk_page, chunk_from, window_end,
  preferred_break, break_from, next_start, back_from, window_chunk,
}
use document_insight.Chunker.Passage.{Chunked}
use document_insight.Chunker.Document.{chunk-Chunked}

abbrev bravo : Text
bravo = code_points "alpha bravo charlie delta"

abbrev window_13 : Chunker
window_13 = record { max_chars = 13; overlap_chars = 4 }

abbrev text_of : DocumentChunk → Text
text_of c = c.text

-- test_chunker_keeps_overlap_on_word_boundaries
chunk_test :
    Option.map (map text_of) (chunk window_13 bravo)
    ≡ some
        (code_points "alpha bravo" ∷ code_points "bravo charlie" ∷ code_points "charlie delta" ∷ [])
unfolding chunk chunk_pages chunk_page chunk_from window_end preferred_break break_from next_start
    back_from window_chunk split_pages strip lstrip rstrip space_at is_space
chunk_test = refl

new_chunker_test : new_chunker 4 4 ≡ none
unfolding new_chunker
new_chunker_test = refl

chunk-Chunked_example :
    (cs : List DocumentChunk) × (chunk window_13 bravo ≡ some cs) × Chunked bravo 13 0 25 0 cs
chunk-Chunked_example = chunk-Chunked window_13 bravo (omega arith)
