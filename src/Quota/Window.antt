-- ===== src/Quota/Window.antt =====
-- The length of the wait.
use Prim.Native.Nat.{min}
use unshackled.Prelude.{ℕ, zero, suc, ◌-◌, ◌^◌, ◌*◌, ◌/◌, ◌≤◌, ◌≡◌, none, arith}
use unshackled.Llm.Errors.{QuotaInfo}
use unshackled.Quota.{second, backoff_with_jitter, backoff_base, estimate_window}

one_le_pow : (k : ℕ) → 1 ≤ 2 ^ k
one_le_pow zero = omega arith
one_le_pow (suc k) = omega (arith, one_le_pow k)

-- Where the provider states no time, the wait is between 7.5 seconds and 15 minutes, provided that
-- the jitter does not exceed what it is taken of.
pub estimate_window-wait_bounds :
    (jittered : ℕ → ℕ) (now : ℕ) (info : QuotaInfo) (attempt : ℕ)
    → ((d : ℕ) → jittered d ≤ d)
    → info.retry_after ≡ none
    → info.reset_at ≡ none
    → (7_500_000_000 ≤ (estimate_window jittered now info attempt).wait)
      × ((estimate_window jittered now info attempt).wait ≤ 15 * 60 * second)
unfolding estimate_window
estimate_window-wait_bounds jittered now info attempt h r s =
    let p = one_le_pow (min (attempt - 1) 16) in
    let q = h (backoff_base attempt / 2) in
    rw (r, s) (unfold backoff_with_jitter in (omega (arith, p, q), omega (arith, p, q)))
