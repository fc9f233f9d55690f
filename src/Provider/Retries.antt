-- ===== src/Provider/Retries.antt =====
-- A completion settles on one attempt (infrastructure/mistral/agents.py).
use mathlib.Core.Path.{subst}
use document_insight.Prelude.{
  ℕ, zero, suc, ◌+◌, ◌<◌, ◌≡◌, ◌⊎◌, refl, sym, take, true, false, inl, inr, List, [], ◌∷◌, ltb,
  arith, Bool-cases,
}
use document_insight.Store.System.{Result, err}
use document_insight.Query.Models.{QueryError, query_provider_unavailable}
use document_insight.Provider.Attempts.{
  max_rate_limit_attempts, retry_delay_seconds, Reply, replied, failed, is_rate_limited, output_of,
  after_delay, after_reply, attempts_from, complete,
}

abbrev pub RateLimited : {A : Type 0} → Reply A → Type 0
RateLimited (replied output) = ⊥
RateLimited (failed status) = is_rate_limited status ≡ true

-- what the reply of the last attempt comes to
abbrev pub outcome_of : {A : Type 0} → Reply A → Result QueryError A
outcome_of (replied output) = output_of output
outcome_of (failed status) = err query_provider_unavailable

-- the delays of the attempts from one on, up to another
abbrev pub delays : ℕ → ℕ → List ℕ
delays attempt zero = []
delays attempt (suc n) = retry_delay_seconds attempt ∷ delays (suc attempt) n

abbrev pub IsNotLimited : {A : Type 0} → Reply A → Type 0
IsNotLimited (replied output) = Unit
IsNotLimited (failed status) = is_rate_limited status ≡ false

-- After `n` retries from the attempt on, whose replies were rate limits, the outcome is the reply's;
-- it is no rate limit, or the attempts are used up.
abbrev pub Retried : {A : Type 0} → (ℕ → Reply A) → ℕ → List ℕ × Result QueryError A → Type 0
Retried run attempt r =
    (n : ℕ) × (attempt + n < max_rate_limit_attempts)
    × ((k : ℕ) → k < n → RateLimited (run (attempt + k)))
    × (IsNotLimited (run (attempt + n)) ⊎ (attempt + n + 1 ≡ max_rate_limit_attempts))
    × (r ≡ (delays attempt n, outcome_of (run (attempt + n))))

module _ {A : Type 0} (run : ℕ → Reply A) where
  at_once :
      (attempt : ℕ) (reply : Reply A) (r : List ℕ × Result QueryError A)
      → run attempt ≡ reply
      → attempt < max_rate_limit_attempts
      → IsNotLimited reply ⊎ (attempt + 1 ≡ max_rate_limit_attempts)
      → r ≡ ([], outcome_of reply)
      → Retried run attempt r
  at_once attempt reply r same bound ended e =
      let here : attempt + 0 ≡ attempt = omega arith in
      (0, omega arith, λ k h. absurd (omega arith), rw (here, same) ended, rw (here, same) e)

  one_later :
      (attempt : ℕ) (later : List ℕ × Result QueryError A)
      → RateLimited (run attempt)
      → Retried run (suc attempt) later
      → Retried run attempt (after_delay (retry_delay_seconds attempt) later)
  one_later attempt later limited (n, bound, before, ended, e) =
      let there : attempt + suc n ≡ suc attempt + n = omega arith in
      (suc n, omega arith, earlier, rw there ended, rw (there, e) refl)
    where
      earlier : (k : ℕ) → k < suc n → RateLimited (run (attempt + k))
      earlier zero h = let here : attempt + 0 ≡ attempt = omega arith in rw here limited
      earlier (suc k) h =
          let there : attempt + suc k ≡ suc attempt + k = omega arith in
          rw there (before k (omega arith))

  last-Retried :
      (attempt : ℕ) (reply : Reply A) (later : List ℕ × Result QueryError A)
      → run attempt ≡ reply
      → attempt + 1 ≡ max_rate_limit_attempts
      → Retried run attempt (after_reply attempt reply later)
  last-Retried attempt (replied output) later same e =
      at_once attempt (replied output) _ same (omega (arith, e)) (inl tt) refl
  last-Retried attempt (failed status) later same e =
      let last : ltb (attempt + 1) max_rate_limit_attempts ≡ false = ground (arith, e) in
      at_once attempt (failed status) _ same (omega (arith, e)) (inr e) (
        rw last
          (elim (Bool-cases (is_rate_limited status)) [ inl t ↦ rw t refl | inr t ↦ rw t refl ]))

  earlier-Retried :
      (attempt : ℕ) (reply : Reply A) (later : List ℕ × Result QueryError A)
      → run attempt ≡ reply
      → attempt + 1 < max_rate_limit_attempts
      → Retried run (suc attempt) later
      → Retried run attempt (after_reply attempt reply later)
  earlier-Retried attempt (replied output) later same bound h =
      at_once attempt (replied output) _ same (omega arith) (inl tt) refl
  earlier-Retried attempt (failed status) later same bound h =
      let more : ltb (attempt + 1) max_rate_limit_attempts ≡ true = ground (arith, bound) in
      elim (Bool-cases (is_rate_limited status)) [
        | inl t ↦ rw (t, more) (one_later attempt later (subst RateLimited (sym same) t) h)
        | inr t ↦ rw t (at_once attempt (failed status) _ same (omega arith) (inl t) refl)
      ]

  attempts_from-Retried :
      (remaining attempt : ℕ)
      → attempt + suc remaining ≡ max_rate_limit_attempts
      → Retried run attempt (attempts_from run (suc remaining) attempt)
  unfolding attempts_from
  attempts_from-Retried zero attempt e = last-Retried attempt (run attempt) _ refl e
  attempts_from-Retried (suc m) attempt e =
      earlier-Retried attempt (run attempt) _ refl (omega (arith, e))
        (attempts_from-Retried m (suc attempt) (omega (arith, e)))

delays-take : (n : ℕ) → n < 4 → delays 0 n ≡ take n (5 ∷ 10 ∷ 20 ∷ [])
unfolding retry_delay_seconds
delays-take zero h = refl
delays-take (suc zero) h = refl
delays-take (suc (suc zero)) h = refl
delays-take (suc (suc (suc zero))) h = refl
delays-take (suc (suc (suc (suc n)))) h = absurd (omega (arith, h))

-- The attempts before `n` were rate limits. The reply of attempt `n` is none, or `n` is 3, the last
-- attempt; and the outcome is what this reply comes to.
abbrev pub Settled : {A : Type 0} → (ℕ → Reply A) → List ℕ × Result QueryError A → Type 0
Settled run r =
    (n : ℕ) × (n < 4)
    × ((k : ℕ) → k < n → RateLimited (run k))
    × (IsNotLimited (run n) ⊎ (n ≡ 3))
    × (r ≡ (take n (5 ∷ 10 ∷ 20 ∷ []), outcome_of (run n)))

Retried-Settled :
    {A : Type 0} (run : ℕ → Reply A) (r : List ℕ × Result QueryError A)
    → Retried run 0 r
    → Settled run r
Retried-Settled run r (n, bound, before, ended, e) =
    let same : (k : ℕ) → 0 + k ≡ k = λ k. omega arith in
    let few : n < 4 = omega (arith, bound) in
    let settled : IsNotLimited (run n) ⊎ (n + 1 ≡ max_rate_limit_attempts) =
      subst (λ m. IsNotLimited (run m) ⊎ (m + 1 ≡ max_rate_limit_attempts)) (same n) ended in
    (
      n,
      few,
      λ k h. subst (λ m. RateLimited (run m)) (same k) (before k h),
      elim settled [ inl other ↦ inl other | inr last ↦ inr (omega (arith, last)) ],
      rw (sym (delays-take n few)) (subst (λ m. r ≡ (delays 0 n, outcome_of (run m))) (same n) e),
    )

-- A completion goes on exactly while an attempt is answered with a rate limit, for four attempts at
-- most; between them it sleeps 5, 10 and 20 seconds. Its outcome is that of the last reply: an
-- output of the type that was asked for, or the provider is unavailable.
pub complete-Settled : {A : Type 0} (run : ℕ → Reply A) → Settled run (complete run)
unfolding complete
complete-Settled run = Retried-Settled run _ (attempts_from-Retried run 3 0 refl)
