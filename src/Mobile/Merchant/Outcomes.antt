-- ===== src/Mobile/Merchant/Outcomes.antt =====
-- The outcomes that a merchant is shown, beside the lifecycle of the payment.
use rosa_pay_application.Base.{
  ℕ, ◌+◌, ◌<◌, ◌≤◌, ◌≡◌, refl, ◌↔◌, ◌⊎◌, inl, inr, false, Option, none, some, arith,
}
use rosa_pay_application.Domain.Payment.{PaymentStatus, is_terminal_payment_status}
use rosa_pay_application.Domain.Payment.Lifecycle.{
  ◌⟶◌, publish, approve, reject, submit, confirm, expire_created, expire_awaiting,
  expire_authorized, fail_created, fail_awaiting, fail_authorized, fail_submitted,
}
use rosa_pay_application.Mobile.Merchant.{
  paid, open_still, payment_outcome, is_offerable, should_lock_on_foreground,
}

-- A request is shown as open exactly while its settlement can still move.
pub payment_outcome-open_iff :
    (s : PaymentStatus) → (payment_outcome s ≡ open_still) ↔ (is_terminal_payment_status s ≡ false)
unfolding payment_outcome is_terminal_payment_status
payment_outcome-open_iff s = ground arith

-- A move of the settlement that ends as paid starts where the request was shown as open and no
-- longer offered.
pub paid-after_offer :
    {s t : PaymentStatus}
    → s ⟶ t
    → payment_outcome t ≡ paid
    → (payment_outcome s ≡ open_still) × (is_offerable s ≡ false)
unfolding payment_outcome
paid-after_offer confirm h = (refl, refl)
paid-after_offer publish h = ground arith
paid-after_offer approve h = ground arith
paid-after_offer reject h = ground arith
paid-after_offer submit h = ground arith
paid-after_offer expire_created h = ground arith
paid-after_offer expire_awaiting h = ground arith
paid-after_offer expire_authorized h = ground arith
paid-after_offer fail_created h = ground arith
paid-after_offer fail_awaiting h = ground arith
paid-after_offer fail_authorized h = ground arith
paid-after_offer fail_submitted h = ground arith

-- The app stays open on return exactly if it was in front, or less than a minute has passed and the
-- clock has not gone back.
pub should_lock_iff :
    (backgrounded_at : Option ℕ) (now : ℕ)
    → (should_lock_on_foreground backgrounded_at now ≡ false) ↔ (
        (backgrounded_at ≡ none)
        ⊎ ((since : ℕ) × (backgrounded_at ≡ some since) × (since ≤ now) × (now < since + 60000)))
unfolding should_lock_on_foreground
should_lock_iff none now = (λ _. inl refl, λ _. refl)
should_lock_iff (some at_time) now =
    (λ h. inr (at_time, refl, ground arith, ground arith), λ h. ground arith)
