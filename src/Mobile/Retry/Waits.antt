-- ===== src/Mobile/Retry/Waits.antt =====
-- How long the retries of retry.ts wait altogether.
use rosa_pay_application.Base.{ℕ, zero, suc, ◌+◌, ◌*◌, ◌-◌, ◌^◌, ◌≡◌, ap, ◌∙◌, arith}
use native.Mathlib.Nat.{two-pow-succ, mul-add}
use rosa_pay_application.Mobile.Retry.{RetryPolicy, retry_delay_ms}

-- The waits before the first `n` retries.
pub total_delay : ℕ → RetryPolicy → ℕ
total_delay zero policy = 0
total_delay (suc n) policy = total_delay n policy + retry_delay_ms (suc n) policy

-- All the waits before `n` retries, and the base delay once more, are the base delay times two to
-- the `n`: the waits double.
pub total_delay-doubles :
    (n : ℕ) (policy : RetryPolicy)
    → total_delay n policy + policy.base_delay_ms ≡ policy.base_delay_ms * 2 ^ n
unfolding total_delay retry_delay_ms
total_delay-doubles zero policy = omega arith
total_delay-doubles (suc n) policy =
    let b = policy.base_delay_ms in
    let index : suc n - 1 ≡ n = omega arith in
    let delay : b * 2 ^ (suc n - 1) ≡ b * 2 ^ n = ap (λ k. b * 2 ^ k) index in
    let doubled : b * 2 ^ suc n ≡ b * 2 ^ n + b * 2 ^ n =
      ap (λ k. b * k) (two-pow-succ n) ∙ mul-add b (2 ^ n) (2 ^ n) in
    omega (arith, delay, doubled, total_delay-doubles n policy)
