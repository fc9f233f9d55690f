-- ===== src/Provider/Markers.antt =====
-- `_INTERNAL_CITATION_MARKER.sub("", answer)` (infrastructure/generation/mistral.py): the text of a
-- chunk's id in parentheses, without regard to case.
use document_insight.Prelude.{
  ℕ, zero, suc, ◌-◌, Bool, ◌&&◌, ◌||◌, ◌==◌, leb, length, Option, none, some, List, [], ◌∷◌, ◌++◌,
  if◌then◌else◌,
}
use document_insight.Chunker.Text.{Text, lstrip}
use document_insight.Configuration.Resolver.{◌>>=◌}

abbrev between : ℕ → ℕ → ℕ → Bool
between low high c = leb low c && leb c high

abbrev hex : ℕ → Bool
hex c = between 48 57 c || between 97 102 c || between 65 70 c

-- a letter in either case
abbrev letter : ℕ → ℕ → Bool
letter lower c = c == lower || c == lower - 32

-- the letters that `re.IGNORECASE` takes for an i and for a k
abbrev letter_i : ℕ → Bool
letter_i c = letter 105 c || c == 0x130 || c == 0x131

abbrev letter_k : ℕ → Bool
letter_k c = letter 107 c || c == 0x212a

abbrev exactly : ℕ → ℕ → Bool
exactly d c = c == d

-- `chunk_id`
abbrev chunk_id_classes : List (ℕ → Bool)
chunk_id_classes =
    letter 99
    ∷ letter 104
    ∷ letter 117
    ∷ letter 110
    ∷ letter_k
    ∷ exactly 95
    ∷ letter_i
    ∷ letter 100
    ∷ []

abbrev hex_group : ℕ → List (ℕ → Bool)
hex_group zero = []
hex_group (suc n) = hex ∷ hex_group n

abbrev uuid_classes : List (ℕ → Bool)
uuid_classes =
    hex_group 8
    ++ exactly 45
      ∷ (hex_group 4
          ++ exactly 45 ∷ (hex_group 4 ++ exactly 45 ∷ (hex_group 4 ++ exactly 45 ∷ hex_group 12)))

-- what follows the characters of the classes
abbrev follow : List (ℕ → Bool) → Text → Option Text
follow [] s = some s
follow (test ∷ tests) [] = none
follow (test ∷ tests) (c ∷ s) = if test c then follow tests s else none

-- What follows a marker at the start of the text. A class after the spaces has no space in it, so
-- taking all of them gives up no match.
unfoldable pub after_marker : Text → Option Text
unfolding lstrip
after_marker s = do
  opened ← follow (exactly 40 ∷ []) (lstrip s)
  named ← follow chunk_id_classes (lstrip opened)
  separated ← follow (exactly 58 ∷ []) (lstrip named)
  identified ← follow uuid_classes (lstrip separated)
  follow (exactly 41 ∷ []) (lstrip identified)

abbrev pub marker_length : Text → Option Text → ℕ
marker_length s none = 0
marker_length s (some rest) = length s - length rest

-- the text from a place on, of which a marker still covers the first characters
unfoldable pub remove_covered : ℕ → Text → Text
unfolding after_marker
remove_covered covered [] = []
remove_covered (suc covered) (c ∷ s) = remove_covered covered s
remove_covered zero (c ∷ s) = elim (marker_length (c ∷ s) (after_marker (c ∷ s))) [
  | zero ↦ c ∷ remove_covered zero s
  | suc n ↦ remove_covered n s
]

unfoldable pub remove_markers : Text → Text
unfolding remove_covered
remove_markers s = remove_covered 0 s
