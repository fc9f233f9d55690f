-- ===== src/Codec/Uuid.antt =====
-- `str` and the constructor of `uuid.UUID`, a number below 2 ^ 128. The constructor also takes braces
-- and a prefix, which nothing here writes.
use document_insight.Prelude.{
  ℕ, zero, suc, All-take, All-append, ◌+◌, ◌-◌, ◌<◌, ◌^◌, ◌≡◌, refl, ap, ◌∙◌, Bool, ◌&&◌, not,
  Option, none, some, List, [], ◌∷◌, ◌++◌, map, leb, ltb, length, arith, All, All-imp, All-map,
  ◌==◌, false, if◌then◌else◌, take, drop, keep_if,
}
use document_insight.Chunker.Text.{Text}
use document_insight.Codec.Digits.{
  value_from, hex_digits, value-hex_digits, length-hex_digits, hex_digits-All, bound,
}
use document_insight.Codec.Split.{read_digits, read_digits-map, Lacks}

abbrev hex_char : ℕ → ℕ
hex_char d = if ltb d 10 then 48 + d else 87 + d

-- either case
abbrev hex_digit : ℕ → Option ℕ
hex_digit c =
    if leb 48 c && leb c 57
    then some (c - 48)
    else if leb 97 c && leb c 102
    then some (c - 87)
    else if leb 65 c && leb c 70
    then some (c - 55)
    else none

-- groups of the given lengths, each with a dash behind it, and the rest
unfoldable pub group : List ℕ → Text → Text
group [] s = s
group (k ∷ ks) s = take k s ++ 45 ∷ group ks (drop k s)

-- `str(uuid)`
unfoldable pub uuid_text : ℕ → Text
unfolding group
uuid_text n = group (8 ∷ 4 ∷ 4 ∷ 4 ∷ []) (map hex_char (hex_digits 32 n))

abbrev is_dash : ℕ → Bool
is_dash c = c == 45

abbrev remove_dashes : Text → Text
remove_dashes = keep_if (λ c. not (is_dash c))

abbrev uuid_of : Option (List ℕ) → Option ℕ
uuid_of none = none
uuid_of (some ds) = if length ds == 32 then some (value_from 16 0 ds) else none

-- `UUID(text)`
unfoldable pub parse_uuid : Text → Option ℕ
unfolding read_digits value_from
parse_uuid text = uuid_of (read_digits hex_digit (remove_dashes text))

take-append-drop : {A : Type 0} (k : ℕ) (xs : List A) → take k xs ++ drop k xs ≡ xs
take-append-drop zero xs = refl
take-append-drop (suc k) [] = refl
take-append-drop (suc k) (x ∷ xs) = ap (λ ys. x ∷ ys) (take-append-drop k xs)

All-drop : {A : Type 0} (P : A → Type 0) (k : ℕ) (xs : List A) → All P xs → All P (drop k xs)
All-drop P zero xs h = h
All-drop P (suc k) [] h = tt
All-drop P (suc k) (x ∷ xs) h = All-drop P k xs h.1

remove_dashes-keep : (s t : Text) → Lacks 45 s → remove_dashes (s ++ t) ≡ s ++ remove_dashes t
remove_dashes-keep [] t h = refl
remove_dashes-keep (c ∷ s) t h = rw (h.0, remove_dashes-keep s t h.1) refl

remove_dashes-none : (s : Text) → Lacks 45 s → remove_dashes s ≡ s
remove_dashes-none [] h = refl
remove_dashes-none (c ∷ s) h = rw (h.0, remove_dashes-none s h.1) refl

remove_dashes-group : (ks : List ℕ) (s : Text) → Lacks 45 s → remove_dashes (group ks s) ≡ s
unfolding group
remove_dashes-group [] s h = remove_dashes-none s h
remove_dashes-group (k ∷ ks) s h =
    remove_dashes-keep (take k s) (45 ∷ group ks (drop k s)) (All-take _ k s h)
    ∙ ap (λ t. take k s ++ t) (remove_dashes-group ks (drop k s) (All-drop _ k s h))
    ∙ take-append-drop k s

group-All : (P : ℕ → Type 0) (ks : List ℕ) (s : Text) → P 45 → All P s → All P (group ks s)
unfolding group
group-All P [] s dash h = h
group-All P (k ∷ ks) s dash h =
    All-append P (take k s) _ (All-take P k s h)
      (dash, group-All P ks (drop k s) dash (All-drop P k s h))

hex-All :
    (P : ℕ → Type 0) (n : ℕ)
    → ((d : ℕ) → d < 16 → P (hex_char d))
    → All P (map hex_char (hex_digits 32 n))
hex-All P n h = All-map P hex_char (hex_digits 32 n) (All-imp _ _ h _ (hex_digits-All 32 n))

-- A UUID's text reads as the UUID.
pub parse_uuid-uuid_text : (n : ℕ) → n < 2 ^ 128 → parse_uuid (uuid_text n) ≡ some n
unfolding parse_uuid uuid_text bound
parse_uuid-uuid_text n h =
    let ds = hex_digits 32 n in
    rw
      (
        remove_dashes-group (8 ∷ 4 ∷ 4 ∷ 4 ∷ []) (map hex_char ds)
            (hex-All (λ c. (c == 45) ≡ false) n (λ d small. ground arith)),
        read_digits-map hex_digit hex_char ds (
            All-imp (λ d. d < 16) (λ d. hex_digit (hex_char d) ≡ some d) (λ d small. ground arith)
              ds (hex_digits-All 32 n)),
        length-hex_digits 32 n,
        value-hex_digits 32 n h,
      )
      refl

-- It is made of hexadecimal digits and dashes.
pub uuid_text-Lacks :
    (c n : ℕ) → leb 45 c && leb c 57 ≡ false → leb 97 c && leb c 102 ≡ false → Lacks c (uuid_text n)
unfolding uuid_text
uuid_text-Lacks c n digits letters =
    group-All (λ x. (x == c) ≡ false) (8 ∷ 4 ∷ 4 ∷ 4 ∷ []) (map hex_char (hex_digits 32 n))
      (ground arith) (hex-All (λ x. (x == c) ≡ false) n (λ d small. ground arith))
