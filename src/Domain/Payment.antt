-- ===== src/Domain/Payment.antt =====
-- packages/domain/src/payment.ts: the statuses of a payment, the table of allowed transitions and
-- the guard that every writer of a settlement runs.
pub mod Lifecycle
mod Tests
use rosa_pay_application.Base.{
  ℕ, ◌≡◌, refl, ◌↔◌, Bool, true, false, Option, none, some, List, [], ◌∷◌, String, Result, ok, err,
  any, length, ◌==◌, if◌then◌else◌, arith,
}

pub data PaymentStatus : Type 0 where
  created awaiting_approval authorized submitted confirmed rejected expired failed : PaymentStatus

-- The place of a status in the union type; `===` on statuses compares it.
abbrev pub ordinal : PaymentStatus → ℕ
ordinal created = 0
ordinal awaiting_approval = 1
ordinal authorized = 2
ordinal submitted = 3
ordinal confirmed = 4
ordinal rejected = 5
ordinal expired = 6
ordinal failed = 7

unfoldable pub status_eq : PaymentStatus → PaymentStatus → Bool
status_eq s t = ordinal s == ordinal t

pub status_eq_iff : (s t : PaymentStatus) → (status_eq s t ≡ true) ↔ (s ≡ t)
unfolding status_eq
status_eq_iff s t = (λ h. ground arith, λ e. ground arith)

pub status_eq_refl : (s : PaymentStatus) → status_eq s s ≡ true
status_eq_refl s = (status_eq_iff s s).1 refl

unfoldable pub allowed_transitions : PaymentStatus → List PaymentStatus
allowed_transitions created = awaiting_approval ∷ expired ∷ failed ∷ []
allowed_transitions awaiting_approval = authorized ∷ rejected ∷ expired ∷ failed ∷ []
allowed_transitions authorized = submitted ∷ expired ∷ failed ∷ []
allowed_transitions submitted = confirmed ∷ failed ∷ []
allowed_transitions confirmed = []
allowed_transitions rejected = []
allowed_transitions expired = []
allowed_transitions failed = []

pub record Payment : Type 0 where
  pub intent_id : String
  pub status : PaymentStatus
  pub transaction_hash : Option String
  pub failure_code : Option String

pub data TransitionError : Type 0 where
  invalid_payment_transition : PaymentStatus → PaymentStatus → TransitionError

-- `allowedTransitions[from].includes(next)`
unfoldable pub is_allowed : PaymentStatus → PaymentStatus → Bool
unfolding allowed_transitions status_eq
is_allowed from next = any (status_eq next) (allowed_transitions from)

unfoldable pub transition_payment : Payment → PaymentStatus → Result TransitionError Payment
transition_payment payment next =
    if is_allowed payment.status next
    then ok (record payment { status = next })
    else err (invalid_payment_transition payment.status next)

unfoldable pub is_terminal_payment_status : PaymentStatus → Bool
unfolding allowed_transitions
is_terminal_payment_status status = length (allowed_transitions status) == 0
