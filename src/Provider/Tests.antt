-- ===== src/Provider/Tests.antt =====
-- The adapters at concrete replies.
use document_insight.Prelude.{
  ℕ, zero, suc, ◌≡◌, refl, Bool, true, false, some, List, [], ◌∷◌, map, insert_by, order_by,
}
use document_insight.Chunker.Text.{Text, code_points, strip, lstrip, rstrip, is_space}
use document_insight.Configuration.Models.{RerankingConfiguration, GenerationConfiguration}
use document_insight.Store.System.{Result, ok}
use document_insight.Query.Models.{RetrievedChunk, RerankScore, GroundedAnswer, QueryError}
use document_insight.Query.Fusion.{Scored, chunk_of}
use document_insight.Query.Evidence.{attach_scores, after_generation}
use document_insight.Retrieval.Sample.{reranking, generation, embedding}
use document_insight.Provider.Attempts.{
  Reply, replied, failed, complete, attempts_from, retry_delay_seconds,
}
use document_insight.Provider.Retries.{Settled, complete-Settled}
use document_insight.Provider.Reranker.{rerank}
use document_insight.Provider.Scores.{Ranked, rerank-Ranked}
use document_insight.Provider.Markers.{remove_markers, remove_covered, after_marker}
use document_insight.Provider.Generation.{
  pos, Response, generate, generate_from, ids_at, first_uses,
}
use document_insight.Provider.Citing.{Cites}
use document_insight.Provider.Grounded.{Answers, generate-Answers}
use document_insight.Provider.Embedder.{
  EmbeddingItem, HttpReply, response, Arithmetic, embed, request_from, ordered, are_numbered,
  validated_vector, validated_vectors, attempts_with,
}
use document_insight.Provider.Vectors.{Embeds, embed-Embeds}

-- the first two attempts meet a rate limit
abbrev busy : ℕ → Reply ℕ
busy zero = failed (some 429)
busy (suc zero) = failed (some 429)
busy (suc (suc n)) = replied (some 8)

busy_test : complete busy ≡ (5 ∷ 10 ∷ [], ok 8)
unfolding complete attempts_from retry_delay_seconds
busy_test = refl

complete-Settled_example : Settled busy (complete busy)
complete-Settled_example = complete-Settled busy

abbrev passage : ℕ → RetrievedChunk
passage id = record {
  chunk_id = id;
  document_id = 1;
  document_version_id = 2;
  title = code_points "Report";
  text = code_points "Revenue rose.";
  page_number = some 1;
  score = 1;
  start_offset = 0;
  end_offset = 13;
}

abbrev passages : List RetrievedChunk
passages = passage 30 ∷ passage 31 ∷ []

-- The model left one passage out.
abbrev one_score : RerankingConfiguration → Text → List RetrievedChunk → Result QueryError (List ℕ)
one_score configuration question candidates = ok (7 ∷ [])

abbrev halved : ℕ → ℕ
halved n = 9

abbrev by_order : List RerankScore
by_order = record { chunk_id = 30; score = 9 } ∷ record { chunk_id = 31; score = 9 } ∷ []

reranked : rerank one_score halved reranking (code_points "Why?") passages ≡ ok by_order
unfolding rerank
reranked = refl

rerank-Ranked_example :
    (xs : List Scored) × (attach_scores by_order passages ≡ ok xs) × Ranked passages xs
rerank-Ranked_example =
    rerank-Ranked one_score halved reranking (code_points "Why?") passages by_order reranked

marker_test :
    remove_markers (code_points "It rose (chunk_id: 0000000a-000B-0000-0000-00000000000c).")
    ≡ code_points "It rose."
unfolding remove_markers remove_covered after_marker lstrip is_space
marker_test = refl

-- The first response cites a third passage, the correction the second one twice.
abbrev corrected :
    GenerationConfiguration → Text → List RetrievedChunk → Bool → Result QueryError Response
corrected configuration question given false =
    ok (record { answer = code_points "It rose."; cited_passage_indices = pos 3 ∷ [] })
corrected configuration question given true =
    ok (record { answer = code_points "It rose."; cited_passage_indices = pos 2 ∷ pos 2 ∷ [] })

abbrev evidence : List Scored
evidence = record { chunk = passage 30; score = 8 } ∷ record { chunk = passage 31; score = 7 } ∷ []

abbrev answer : GroundedAnswer
answer = record { answer = code_points "It rose."; cited_chunk_ids = 31 ∷ [] }

generated : generate corrected generation (code_points "Why?") passages ≡ ok answer
unfolding generate generate_from ids_at first_uses remove_markers remove_covered after_marker strip
    lstrip rstrip is_space
generated = refl

generate-Answers_example :
    Cites passages answer.cited_chunk_ids
    × Answers evidence answer (
        after_generation [] evidence
          (generate corrected generation (code_points "Why?") (map chunk_of evidence)))
generate-Answers_example =
    generate-Answers corrected generation (code_points "Why?") [] evidence answer generated

-- a response in the reverse order
abbrev reversed : ℕ → HttpReply
reversed attempt = response 200 (
    some (
      record { index = pos 1; embedding = 6 ∷ [] }
      ∷ record { index = pos 0; embedding = 5 ∷ [] }
      ∷ []))

abbrev plain : Arithmetic
plain = record { magnitude = λ vector. 1; divide = λ x y. x }

abbrev texts : List Text
texts = code_points "a" ∷ code_points "b" ∷ []

embedded : embed plain true reversed texts embedding ≡ ok ((5 ∷ []) ∷ (6 ∷ []) ∷ [])
unfolding embed request_from ordered are_numbered validated_vectors validated_vector order_by
    insert_by
embedded = refl

embed-Embeds_example :
    (items : List EmbeddingItem) × ((request_from
        (attempts_with true)
        reversed
        (attempts_with true)
        0).1
      ≡ ok items)
    × Embeds plain embedding texts items ((5 ∷ []) ∷ (6 ∷ []) ∷ [])
embed-Embeds_example =
    embed-Embeds plain true reversed (code_points "a") (code_points "b" ∷ []) embedding
      ((5 ∷ []) ∷ (6 ∷ []) ∷ []) embedded
