-- ===== src/Api/RateLimiter.antt =====
-- apps/api/src/application/RateLimiter.ts: a fixed window for each key. Times are milliseconds, and
-- `now` is an argument.
pub mod Bounds
mod Tests
use rosa_pay_application.Base.{
  ℕ, ◌+◌, ◌-◌, ◌/◌, ◌^◌, String, Bool, true, false, ◌&&◌, ◌||◌, Option, none, some, Result, ok, err,
  ltb, leb, if◌then◌else◌,
}
use rosa_pay_application.Base.Dict.{Dict, get, put, purge}

pub record RateLimitDecision : Type 0 where
  pub allowed : Bool
  pub retry_after_seconds : ℕ

pub record RateLimiterOptions : Type 0 where
  pub limit : ℕ
  pub window_ms : ℕ

pub record Window : Type 0 where
  pub count : ℕ
  pub reset_at : ℕ

pub data LimiterError : Type 0 where
  no_requests_allowed empty_window : LimiterError

-- `Number.isSafeInteger(n) && n > 0`
abbrev pub is_positive : ℕ → Bool
is_positive n = leb n (2 ^ 53 - 1) && ltb 0 n

-- The constructor: the options, and no window yet.
unfoldable pub create : RateLimiterOptions → Result LimiterError RateLimiterOptions
create options =
    if is_positive options.limit
    then (if is_positive options.window_ms then ok options else err empty_window)
    else err no_requests_allowed

abbrev pub is_expired : ℕ → Window → Bool
is_expired now w = leb w.reset_at now

unfoldable pub evict_expired : ℕ → Dict Window → Dict Window
evict_expired now windows = purge (is_expired now) windows

abbrev pub allow : RateLimitDecision
allow = record { allowed = true; retry_after_seconds = 0 }

-- The window of a key is missing or has passed.
unfoldable pub open_window :
    RateLimiterOptions → ℕ → String → Dict Window → RateLimitDecision × Dict Window
unfolding evict_expired
open_window options now key windows = (
  allow,
  evict_expired now (put key (record { count = 1; reset_at = now + options.window_ms }) windows),
)

-- The window of a key is open. `Math.ceil(ms / 1000)` is `(ms + 999) / 1000`.
unfoldable pub use_window :
    RateLimiterOptions → ℕ → String → Window → Dict Window → RateLimitDecision × Dict Window
use_window options now key window windows =
    if leb options.limit window.count
    then (
      record { allowed = false; retry_after_seconds = (window.reset_at - now + 999) / 1000 },
      windows,
    )
    else (allow, put key (record window { count = window.count + 1 }) windows)

unfoldable pub check :
    RateLimiterOptions → ℕ → String → Dict Window → RateLimitDecision × Dict Window
check options now key windows = elim (get key windows) [
  | none ↦ open_window options now key windows
  | some window ↦
      if is_expired now window
      then open_window options now key windows
      else use_window options now key window windows
]

pub data RateLimitError : Type 0 where
  too_many_requests : ℕ → RateLimitError

-- `assert`, with the windows after it.
unfoldable pub assert_allowed :
    RateLimiterOptions → ℕ → String → Dict Window → Result RateLimitError (Unit {0}) × Dict Window
assert_allowed options now key windows =
    let (decision, windows') = check options now key windows in
    (
      if decision.allowed then ok tt else err (too_many_requests decision.retry_after_seconds),
      windows',
    )
