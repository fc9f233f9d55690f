-- ===== src/Chunker/Text.antt =====
-- The string operations of Python that page_window.py uses, over lists of code points.
use Prim.Native.Char.{code}
use Prim.Native.String.{String}
use document_insight.Prelude.{
  ℕ, Bool, false, ◌&&◌, ◌||◌, none, some, List, [], ◌∷◌, ◌++◌, leb, ◌==◌, if◌then◌else◌, get_elem?,
}

abbrev pub Text : Type 0
Text = List ℕ

-- `str.isspace` of one character
unfoldable pub is_space : ℕ → Bool
is_space c =
    (leb 9 c && leb c 13)
    || (leb 28 c && leb c 32)
    || c == 0x85
    || c == 0xa0
    || c == 0x1680
    || (leb 0x2000 c && leb c 0x200a)
    || c == 0x2028
    || c == 0x2029
    || c == 0x202f
    || c == 0x205f
    || c == 0x3000

-- `str.lstrip()`
unfoldable pub lstrip : Text → Text
lstrip [] = []
lstrip (c ∷ s) = if is_space c then lstrip s else c ∷ s

abbrev pub rstrip_cons : ℕ → Text → Text
rstrip_cons c [] = if is_space c then [] else c ∷ []
rstrip_cons c (d ∷ s) = c ∷ d ∷ s

-- `str.rstrip()`
unfoldable pub rstrip : Text → Text
rstrip [] = []
rstrip (c ∷ s) = rstrip_cons c (rstrip s)

-- `str.strip()`
unfoldable pub strip : Text → Text
strip s = rstrip (lstrip s)

-- `text[index].isspace()`; the callers stay in bounds
unfoldable pub space_at : Text → ℕ → Bool
space_at s i = elim (get_elem? s i) [ none ↦ false | some c ↦ is_space c ]

abbrev pub form_feed : ℕ
form_feed = 12

abbrev pub push_first : ℕ → List Text → List Text
push_first c [] = (c ∷ []) ∷ []
push_first c (p ∷ ps) = (c ∷ p) ∷ ps

-- `str.split("\f")`
unfoldable pub split_pages : Text → List Text
split_pages [] = [] ∷ []
split_pages (c ∷ s) = if c == form_feed then [] ∷ split_pages s else push_first c (split_pages s)

-- `"\f".join(pages)`
unfoldable pub join_pages : List Text → Text
join_pages [] = []
join_pages (p ∷ []) = p
join_pages (p ∷ q ∷ ps) = p ++ form_feed ∷ join_pages (q ∷ ps)

-- a literal's code points
abbrev pub code_points : String → Text
code_points String.[] = []
code_points (String.◌∷◌ c s) = code c ∷ code_points s
