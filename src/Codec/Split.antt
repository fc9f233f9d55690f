-- ===== src/Codec/Split.antt =====
-- Reading texts: character by character, and up to a separator.
use document_insight.Prelude.{
  ℕ, ◌≡◌, refl, false, Option, none, some, List, [], ◌∷◌, ◌++◌, ◌==◌, map, arith, All,
  if◌then◌else◌,
}
use document_insight.Chunker.Text.{Text}

abbrev pub read_next : Option ℕ → Option (List ℕ) → Option (List ℕ)
read_next none rest = none
read_next (some d) none = none
read_next (some d) (some ds) = some (d ∷ ds)

-- the digits that the characters stand for; `none` if one stands for none
unfoldable pub read_digits : (ℕ → Option ℕ) → Text → Option (List ℕ)
read_digits digit [] = some []
read_digits digit (c ∷ s) = read_next (digit c) (read_digits digit s)

pub read_digits-map :
    (digit : ℕ → Option ℕ) (char : ℕ → ℕ) (ds : List ℕ)
    → All (λ d. digit (char d) ≡ some d) ds
    → read_digits digit (map char ds) ≡ some ds
unfolding read_digits
read_digits-map digit char [] h = refl
read_digits-map digit char (d ∷ ds) h = rw (h.0, read_digits-map digit char ds h.1) refl

abbrev put_first : ℕ → Option (Text × Text) → Option (Text × Text)
put_first c none = none
put_first c (some (xs, ys)) = some (c ∷ xs, ys)

-- `value.split(separator, 1)` where it gives two parts
unfoldable pub split_once : ℕ → Text → Option (Text × Text)
split_once separator [] = none
split_once separator (c ∷ s) =
    let rest = split_once separator s in if c == separator then some ([], s) else put_first c rest

-- a text without the character
abbrev pub Lacks : ℕ → Text → Type 0
Lacks separator = All (λ c. (c == separator) ≡ false)

pub split_once-append :
    (separator : ℕ) (xs ys : Text)
    → Lacks separator xs
    → split_once separator (xs ++ separator ∷ ys) ≡ some (xs, ys)
unfolding split_once
split_once-append separator [] ys h = ground arith
split_once-append separator (x ∷ xs) ys h = rw (h.0, split_once-append separator xs ys h.1) refl
