-- ===== src/Api/RateLimiter/Tests.antt =====
-- Two requests for each minute.
use rosa_pay_application.Base.{◌≡◌, ◌≤◌, refl, inl, true, List, [], ◌∷◌, arith}
use rosa_pay_application.Base.Dict.{Dict, get}
use rosa_pay_application.Api.RateLimiter.{RateLimiterOptions, Window, check, use_window}
use rosa_pay_application.Api.RateLimiter.Bounds.{
  Call, granted, window_bounded, retry_after_suffices,
}

abbrev options : RateLimiterOptions
options = record { limit = 2; window_ms = 60000 }

abbrev calls : List Call
calls = (2000, "a") ∷ (3000, "b") ∷ (4000, "a") ∷ (5000, "a") ∷ []

window_bounded_example : granted options "a" ((1000, "a") ∷ calls) [] ≤ 2
unfolding get
window_bounded_example =
    window_bounded options "a" 1000 calls [] (omega arith) (omega arith) (inl refl)
      (omega arith, (omega arith, (omega arith, (omega arith, tt))))

abbrev used_up : Dict Window
used_up = ("a", record { count = 2; reset_at = 61000 }) ∷ []

retry_after_suffices_example :
    (check options 62000 "a" (check options 2500 "a" used_up).1).0.allowed ≡ true
unfolding check use_window get
retry_after_suffices_example =
    retry_after_suffices options 2500 62000 "a" used_up 59 refl (omega arith)
