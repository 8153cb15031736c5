-- ===== src/Mobile/Retry.antt =====
-- apps/mobile/src/api/retry.ts: which failures are tried again, and after how long. An error that is
-- no `ApiClientError` is `none`; waits are whole milliseconds.
pub mod Waits
use rosa_pay_application.Base.{
  ℕ, zero, suc, ◌+◌, ◌*◌, ◌-◌, ◌^◌, String, Bool, true, false, ◌||◌, Option, none, some, leb, ◌==◌,
  str_eq,
}

pub record RetryPolicy : Type 0 where
  pub attempts : ℕ
  pub base_delay_ms : ℕ

abbrev pub default_retry_policy : RetryPolicy
default_retry_policy = record { attempts = 3; base_delay_ms = 400 }

pub record ApiClientError : Type 0 where
  pub status : Option ℕ
  pub code : String

unfoldable pub is_retryable : Option ApiClientError → Bool
is_retryable none = false
is_retryable (some error) = elim error.status [
  | none ↦ str_eq error.code "NETWORK_ERROR" || str_eq error.code "REQUEST_TIMEOUT"
  | some status ↦ status == 429 || leb 500 status
]

-- For the first retry and later ones.
unfoldable pub retry_delay_ms : ℕ → RetryPolicy → ℕ
retry_delay_ms attempt policy = policy.base_delay_ms * 2 ^ (attempt - 1)
