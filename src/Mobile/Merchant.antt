-- ===== src/Mobile/Merchant.antt =====
-- What a merchant is shown: features/merchant/paymentOutcome.ts and state/autoLock.ts of
-- apps/mobile/src.
pub mod Outcomes
pub mod Order
mod Tests
use rosa_pay_application.Base.{
  ℕ, ◌-◌, Bool, true, false, Option, none, some, ltb, leb, if◌then◌else◌, ◌||◌, ◌≡◌, refl,
}
use rosa_pay_application.Domain.Payment.{PaymentStatus}

pub data PaymentOutcome : Type 0 where
  paid open_still closed : PaymentOutcome

abbrev pub lock_after_background_ms : ℕ
lock_after_background_ms = 60000

-- `elapsed < 0 || elapsed >= graceMs`, with the grace period that the app uses by default.
unfoldable pub should_lock_on_foreground : Option ℕ → ℕ → Bool
should_lock_on_foreground none now = false
should_lock_on_foreground (some backgrounded_at) now =
    ltb now backgrounded_at || leb lock_after_background_ms (now - backgrounded_at)

-- For the statuses of the domain; the code takes any other text for closed.
unfoldable pub payment_outcome : PaymentStatus → PaymentOutcome
payment_outcome PaymentStatus.confirmed = paid
payment_outcome PaymentStatus.created = open_still
payment_outcome PaymentStatus.awaiting_approval = open_still
payment_outcome PaymentStatus.authorized = open_still
payment_outcome PaymentStatus.submitted = open_still
payment_outcome PaymentStatus.rejected = closed
payment_outcome PaymentStatus.expired = closed
payment_outcome PaymentStatus.failed = closed

abbrev pub is_offerable : PaymentStatus → Bool
is_offerable PaymentStatus.awaiting_approval = true
is_offerable _ = false
