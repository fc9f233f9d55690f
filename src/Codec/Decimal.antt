-- ===== src/Codec/Decimal.antt =====
-- `str` and `int` of a natural number. Python's `int` also takes a sign, spaces and underscores, which
-- nothing here writes.
use document_insight.Prelude.{
  ℕ, ◌+◌, ◌-◌, ◌<◌, suc, ◌≡◌, refl, ◌&&◌, Option, none, some, List, map, leb, ltb, length, arith,
  All, All-imp, All-map, false, if◌then◌else◌,
}
use document_insight.Chunker.Text.{Text}
use document_insight.Codec.Digits.{
  value_from, decimal_digits, value-decimal_digits, decimal_digits-All, decimal_digits-nonempty,
}
use document_insight.Codec.Split.{read_digits, read_digits-map, Lacks}

abbrev decimal_char : ℕ → ℕ
decimal_char d = 48 + d

abbrev decimal_digit : ℕ → Option ℕ
decimal_digit c = if leb 48 c && leb c 57 then some (c - 48) else none

-- `str(n)`
unfoldable pub decimal_text : ℕ → Text
unfolding decimal_digits
decimal_text n = map decimal_char (decimal_digits (suc n) n)

abbrev number_of : Option (List ℕ) → Option ℕ
number_of none = none
number_of (some ds) = if ltb 0 (length ds) then some (value_from 10 0 ds) else none

-- `int(text)`
unfoldable pub parse_int : Text → Option ℕ
unfolding read_digits value_from
parse_int text = number_of (read_digits decimal_digit text)

digits-of_chars :
    (ds : List ℕ) → All (λ d. d < 10) ds → read_digits decimal_digit (map decimal_char ds) ≡ some ds
digits-of_chars ds h =
    read_digits-map decimal_digit decimal_char ds
      (All-imp (λ d. d < 10) _ (λ d small. ground arith) ds h)

pub parse_int-decimal_text : (n : ℕ) → parse_int (decimal_text n) ≡ some n
unfolding parse_int decimal_text
parse_int-decimal_text n =
    let ds = decimal_digits (suc n) n in
    rw
      (
        digits-of_chars ds (decimal_digits-All (suc n) n),
        decimal_digits-nonempty n n,
        value-decimal_digits (suc n) n (omega arith),
      )
      refl

-- A number's text is made of the digits alone.
pub decimal_text-Lacks : (c n : ℕ) → leb 48 c && leb c 57 ≡ false → Lacks c (decimal_text n)
unfolding decimal_text
decimal_text-Lacks c n outside =
    All-map _ decimal_char (decimal_digits (suc n) n)
      (All-imp (λ d. d < 10) _ (λ d small. ground arith) _ (decimal_digits-All (suc n) n))
