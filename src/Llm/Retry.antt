-- ===== src/Llm/Retry.antt =====
-- crates/localpilot-llm/src/retry.rs: retries with exponential backoff. The product of a duration
-- with a random fraction below one, a float, is the parameter `jittered`; the operation gives a
-- result for each attempt. Durations are in nanoseconds.
use Prim.Native.Nat.{min}
use unshackled.Prelude.{
  ℕ, zero, suc, ◌+◌, ◌-◌, ◌*◌, ◌/◌, ◌^◌, Bool, true, false, not, ◌||◌, Option, none, some, List, [],
  ◌∷◌, leb, if◌then◌else◌,
}
use unshackled.Llm.Errors.{QuotaInfo, ProviderError, quota, is_retryable}
pub mod Facts

pub record RetryPolicy : Type 0 where
  pub max_attempts : ℕ
  pub base_delay : ℕ
  pub max_delay : ℕ

abbrev pub default_policy : RetryPolicy
default_policy = record { max_attempts = 4; base_delay = 500_000_000; max_delay = 30_000_000_000 }

-- `Duration::MAX`: 2^64 - 1 seconds and 999999999 nanoseconds.
abbrev pub duration_max : ℕ
duration_max = 2 ^ 64 * 1_000_000_000 - 1

abbrev pub retry_after_in : Option QuotaInfo → Option ℕ
retry_after_in none = none
retry_after_in (some q) = q.retry_after

unfoldable pub retry_after_of : ProviderError → Option ℕ
unfolding quota
retry_after_of e = retry_after_in (quota e)

abbrev pub backoff : ℕ → ℕ → ℕ → ℕ
backoff base cap attempt = min (min (base * 2 ^ min (attempt - 1) 16) duration_max) cap

abbrev pub spread : (ℕ → ℕ) → ℕ → ℕ
spread jittered exponential = exponential / 2 + jittered (exponential / 2)

abbrev pub delay_or : (ℕ → ℕ) → RetryPolicy → ℕ → Option ℕ → ℕ
delay_or jittered p attempt (some after) = min after p.max_delay
delay_or jittered p attempt none = spread jittered (backoff p.base_delay p.max_delay attempt)

unfoldable pub delay_for : (ℕ → ℕ) → RetryPolicy → ℕ → ProviderError → ℕ
unfolding retry_after_of
delay_for jittered p attempt e = delay_or jittered p attempt (retry_after_of e)

pub data Result {ℓ} (A : Type ℓ) : Type ℓ where
  ok : A → Result A
  err : ProviderError → Result A

-- What a call of `retry` did: its result, the number of the last attempt, and the delays slept.
pub record Trace (A : Type 0) : Type 0 where
  pub result : Result A
  pub last : ℕ
  pub sleeps : List ℕ

abbrev pub slept : {A : Type 0} → ℕ → Option (Trace A) → Option (Trace A)
slept d none = none
slept d (some t) = some (record t { sleeps = d ∷ t.sleeps })

module _ {A : Type 0} (jittered : ℕ → ℕ) (p : RetryPolicy) (operation : ℕ → Result A) where
  -- One round for each unit of fuel; `none` means that the fuel ran out.
  unfoldable pub retry_from : ℕ → ℕ → Option (Trace A)
  unfolding delay_for is_retryable
  retry_from zero attempt = none
  retry_from (suc fuel) attempt = elim (operation attempt) [
    | ok value ↦ some (record { result = ok value; last = attempt; sleeps = [] })
    | err error ↦
        let again = retry_from fuel (attempt + 1) in
        if leb p.max_attempts attempt || not (is_retryable error)
        then some (record { result = err error; last = attempt; sleeps = [] })
        else slept (delay_for jittered p attempt error) again
  ]

  unfoldable pub retry : Option (Trace A)
  unfolding retry_from
  retry = retry_from (suc p.max_attempts) 1
