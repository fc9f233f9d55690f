-- ===== src/Codec/Digits.antt =====
-- Numbers as lists of digits, the highest first.
use document_insight.Prelude.{
  ℕ, zero, suc, ◌+◌, ◌*◌, ◌/◌, ◌%◌, ◌<◌, ◌≡◌, refl, ◌∙◌, List, [], ◌∷◌, ◌++◌, length, length-append,
  arith, All, All-append, if◌then◌else◌, leb, ltb, lt→ltb, true, Bool-cases, inl, inr,
}

-- the number that digits come to, behind what was read before
unfoldable pub value_from : ℕ → ℕ → List ℕ → ℕ
value_from base acc [] = acc
value_from base acc (d ∷ ds) = value_from base (acc * base + d) ds

pub value_from-append :
    (base acc : ℕ) (xs : List ℕ) (d : ℕ)
    → value_from base acc (xs ++ d ∷ []) ≡ value_from base acc xs * base + d
unfolding value_from
value_from-append base acc [] d = refl
value_from-append base acc (x ∷ xs) d = value_from-append base (acc * base + x) xs d

-- `count` hexadecimal digits
unfoldable pub hex_digits : ℕ → ℕ → List ℕ
hex_digits zero n = []
hex_digits (suc count) n = hex_digits count (n / 16) ++ (n % 16) ∷ []

-- what so many digits can hold
unfoldable pub bound : ℕ → ℕ
bound zero = 1
bound (suc count) = bound count * 16

pub value-hex_digits : (count n : ℕ) → n < bound count → value_from 16 0 (hex_digits count n) ≡ n
unfolding hex_digits bound value_from
value-hex_digits zero n h = omega arith
value-hex_digits (suc count) n h =
    value_from-append 16 0 (hex_digits count (n / 16)) (n % 16)
    ∙ omega (arith, value-hex_digits count (n / 16) (omega arith))

pub length-hex_digits : (count n : ℕ) → length (hex_digits count n) ≡ count
unfolding hex_digits
length-hex_digits zero n = refl
length-hex_digits (suc count) n =
    length-append (hex_digits count (n / 16)) _ ∙ omega (arith, length-hex_digits count (n / 16))

pub hex_digits-All : (count n : ℕ) → All (λ d. d < 16) (hex_digits count n)
unfolding hex_digits
hex_digits-All zero n = tt
hex_digits-All (suc count) n =
    All-append (λ d. d < 16) (hex_digits count (n / 16)) _ (hex_digits-All count (n / 16))
      (omega arith, tt)

-- The decimal digits of a number, on as much fuel as the number and one more: each round divides
-- it by ten.
unfoldable pub decimal_digits : ℕ → ℕ → List ℕ
decimal_digits zero n = []
decimal_digits (suc fuel) n =
    let rest = decimal_digits fuel (n / 10) in if leb 10 n then rest ++ (n % 10) ∷ [] else n ∷ []

pub value-decimal_digits : (fuel n : ℕ) → n < fuel → value_from 10 0 (decimal_digits fuel n) ≡ n
unfolding decimal_digits value_from
value-decimal_digits zero n h = elim h [ ]
value-decimal_digits (suc fuel) n h = elim (Bool-cases (leb 10 n)) [
  | inl more ↦ rw more (
      value_from-append 10 0 (decimal_digits fuel (n / 10)) (n % 10)
      ∙ ground (arith, more, value-decimal_digits fuel (n / 10)))
  | inr last ↦ rw last (omega arith)
]

pub decimal_digits-All : (fuel n : ℕ) → All (λ d. d < 10) (decimal_digits fuel n)
unfolding decimal_digits
decimal_digits-All zero n = tt
decimal_digits-All (suc fuel) n = elim (Bool-cases (leb 10 n)) [
  | inl more ↦ rw more (
      All-append (λ d. d < 10) (decimal_digits fuel (n / 10)) _ (decimal_digits-All fuel (n / 10))
        (omega arith, tt))
  | inr last ↦ rw last (ground arith, tt)
]

pub decimal_digits-nonempty : (fuel n : ℕ) → ltb 0 (length (decimal_digits (suc fuel) n)) ≡ true
unfolding decimal_digits
decimal_digits-nonempty fuel n = elim (Bool-cases (leb 10 n)) [
  | inl more ↦
      rw more
        (lt→ltb 0 _ (omega (arith, length-append (decimal_digits fuel (n / 10)) ((n % 10) ∷ []))))
  | inr last ↦ rw last refl
]
