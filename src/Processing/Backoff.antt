-- ===== src/Processing/Backoff.antt =====
-- The delays of `RetryConfig.calculate_backoff` (application/processing/retry.py).
use Prim.Native.Nat.{◌^◌}
use native.Mathlib.Nat.{
  min_comm, min-eq_left, min-le_left, mul-le-mul_right, mul-suc, mul-zero, pow-suc, mul_assoc,
}
use document_insight.Prelude.{
  ltb, Bool-cases, inl, inr, zero, ℕ, suc, ◌+◌, ◌*◌, ◌-◌, ◌≤◌, ◌≡◌, refl, arith, min,
}
use document_insight.Processing.Retry.{RetryConfig, base_delay, calculate_backoff}

window : (x y draw : ℕ) → draw ≤ 2 * y → (x + draw - y ≤ x + y) × (x ≤ x + draw - y + y)
window x y draw h = (omega arith, omega arith)

one_le-scale : (M k : ℕ) → M ≤ M * suc k
one_le-scale M k = omega (arith, mul-suc M k)

min-scale : (M X m : ℕ) → min M (X * m) ≡ min M (min M X * m)
min-scale M X zero = rw (mul-zero X, mul-zero (min M X)) refl
min-scale M X (suc k) = elim (Bool-cases (ltb M X)) [
  | inr e ↦ let under : X ≤ M = ground arith in rw (min_comm M X, min-eq_left under) refl
  | inl e ↦
      let over : M ≤ X = ground arith in
      let grown : M * suc k ≤ X * suc k = mul-le-mul_right (suc k) over in
      let same : min M X ≡ M = min-eq_left over in
      let more : M ≤ M * suc k = one_le-scale M k in
      rw (same, min-eq_left more) (min-eq_left (omega (arith, more, grown)))
]

-- For a jitter drawn within its range, the delay departs from the capped exponential delay by at most
-- the jitter's share of it, and the exponential delay is at most the cap.
pub calculate_backoff-within :
    (c : RetryConfig) (attempt draw : ℕ)
    → draw ≤ 2 * (base_delay c attempt * c.jitter_percent)
    → (calculate_backoff c attempt draw
        ≤ base_delay c attempt * 100 + base_delay c attempt * c.jitter_percent)
      × (base_delay c attempt * 100
          ≤ calculate_backoff c attempt draw + base_delay c attempt * c.jitter_percent)
      × (base_delay c attempt ≤ c.max_backoff_seconds)
unfolding calculate_backoff base_delay
calculate_backoff-within c attempt draw h =
    let (a, b) =
      window (base_delay c attempt * 100) (base_delay c attempt * c.jitter_percent) draw h in
    (a, b, min-le_left c.max_backoff_seconds _)

-- The delay of the next attempt is the multiple of this one's, cut at the cap.
pub base_delay-next :
    (c : RetryConfig) (attempt : ℕ)
    → base_delay c (suc attempt)
      ≡ min c.max_backoff_seconds (base_delay c attempt * c.backoff_multiplier)
unfolding base_delay
base_delay-next c attempt =
    rw (pow-suc c.backoff_multiplier attempt, ← mul_assoc)
      (min-scale c.max_backoff_seconds (c.base_backoff_seconds * c.backoff_multiplier ^ attempt)
        c.backoff_multiplier)
