-- ===== src/Provider/Attempts.antt =====
-- One completion with its retries: `MistralStructuredAgentClient.complete`
-- (infrastructure/mistral/agents.py) and infrastructure/mistral/rate_limit.py. The SDK's run is an
-- argument: what the call of each attempt gives.
use document_insight.Prelude.{
  ℕ, zero, suc, ◌+◌, ◌*◌, ◌^◌, Bool, false, ◌&&◌, ◌==◌, Option, none, some, List, [], ◌∷◌, ltb,
  if◌then◌else◌,
}
use document_insight.Store.System.{Result, ok, err}
use document_insight.Query.Models.{QueryError, query_provider_unavailable, other}

abbrev pub max_rate_limit_attempts : ℕ
max_rate_limit_attempts = 4

-- in seconds
abbrev pub initial_rate_limit_delay : ℕ
initial_rate_limit_delay = 5

unfoldable pub retry_delay_seconds : ℕ → ℕ
retry_delay_seconds attempt = initial_rate_limit_delay * 2 ^ attempt

-- A run's `final_output`, if it is of the output type, or an exception with its `status_code`.
pub data Reply (A : Type 0) : Type 0 where
  replied : Option A → Reply A
  failed : Option ℕ → Reply A

abbrev pub is_rate_limited : Option ℕ → Bool
is_rate_limited none = false
is_rate_limited (some code) = code == 429

abbrev pub output_of : {A : Type 0} → Option A → Result QueryError A
output_of none = err query_provider_unavailable
output_of (some output) = ok output

module _ {A : Type 0} where
  -- The seconds slept, and the outcome.
  abbrev pub after_delay : ℕ → List ℕ × Result QueryError A → List ℕ × Result QueryError A
  after_delay delay later = (delay ∷ later.0, later.1)

  abbrev pub after_reply : ℕ → Reply A → List ℕ × Result QueryError A → List ℕ × Result QueryError A
  after_reply attempt (replied output) later = ([], output_of output)
  after_reply attempt (failed status) later =
      if is_rate_limited status && ltb (attempt + 1) max_rate_limit_attempts
      then after_delay (retry_delay_seconds attempt) later
      else ([], err query_provider_unavailable)

  -- the attempts from one on; the loop ends by a return or an exception, never by its range
  unfoldable pub attempts_from : (ℕ → Reply A) → ℕ → ℕ → List ℕ × Result QueryError A
  unfolding retry_delay_seconds
  attempts_from run zero attempt = ([], err other)
  attempts_from run (suc remaining) attempt =
      after_reply attempt (run attempt) (attempts_from run remaining (suc attempt))

  unfoldable pub complete : (ℕ → Reply A) → List ℕ × Result QueryError A
  unfolding attempts_from
  complete run = attempts_from run max_rate_limit_attempts 0
