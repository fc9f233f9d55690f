-- ===== src/Retrieval/Like.antt =====
-- The text operations of `find_entity_matches`: the terms of a filter and SQL's LIKE.
use document_insight.Prelude.{
  ℕ, Bool, true, false, ◌&&◌, List, [], ◌∷◌, ◌++◌, ◌==◌, any, if◌then◌else◌,
}
use document_insight.Chunker.Text.{Text, is_space}

abbrev add_to_first : ℕ → List Text → List Text
add_to_first c [] = (c ∷ []) ∷ []
add_to_first c (w ∷ ws) = (c ∷ w) ∷ ws

-- the pieces between single spaces, empty ones included
unfoldable pieces : Text → List Text
pieces [] = [] ∷ []
pieces (c ∷ s) = if is_space c then [] ∷ pieces s else add_to_first c (pieces s)

abbrev drop_empty : List Text → List Text
drop_empty [] = []
drop_empty ([] ∷ ws) = drop_empty ws
drop_empty ((c ∷ w) ∷ ws) = (c ∷ w) ∷ drop_empty ws

-- `str.split()`
unfoldable pub split : Text → List Text
unfolding pieces
split s = drop_empty (pieces s)

abbrev suffixes : Text → List Text
suffixes [] = [] ∷ []
suffixes (c ∷ s) = (c ∷ s) ∷ suffixes s

-- one character of the text, by a test, and the rest by another
abbrev after_one : (ℕ → Bool) → (Text → Bool) → Text → Bool
after_one test rest [] = false
after_one test rest (c ∷ s) = test c && rest s

-- `text LIKE pattern`: `%` stands for any text, `_` for any character, and `\` makes the next
-- character stand for itself
unfoldable pub like : Text → Text → Bool
unfolding is_space
like [] [] = true
like [] (c ∷ s) = false
like (p ∷ []) s =
    if p == 37 then true else after_one (λ c. if p == 95 then true else p == c) (like []) s
like (p ∷ q ∷ ps) s =
    let rest = like (q ∷ ps) in
    let escaped = like ps in
    if p == 37
    then any rest (suffixes s)
    else if p == 92
    then after_one (λ c. q == c) escaped s
    else after_one (λ c. if p == 95 then true else p == c) rest s

-- `column.contains(term)`, which leaves the wildcards of the term alone
unfoldable pub contains_term : Text → Text → Bool
unfolding like
contains_term value term = like (37 ∷ term ++ 37 ∷ []) value
