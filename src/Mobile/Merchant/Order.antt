-- ===== src/Mobile/Merchant/Order.antt =====
-- apps/mobile/src/features/merchant/paymentOrder.ts: the order in which a merchant's payments are
-- listed. `parse` is `Date.parse`, with `none` for NaN.
pub mod Sorted
use rosa_pay_application.Base.{
  ℕ, String, Bool, true, false, not, Option, none, some, List, [], ◌∷◌, ltb, if◌then◌else◌,
}
use rosa_pay_application.Domain.Payment.{PaymentStatus}
use rosa_pay_application.Mobile.Merchant.{PaymentOutcome, paid, open_still, closed, payment_outcome}

pub record OrderablePayment : Type 0 where
  pub intent_id : String
  pub status : PaymentStatus
  pub created_at : String

unfoldable pub is_open : OrderablePayment → Bool
unfolding payment_outcome
is_open payment = elim (payment_outcome payment.status) [
  | paid ↦ false
  | open_still ↦ true
  | closed ↦ false
]

module _ (parse : String → Option ℕ) where
  unfoldable pub time_of : OrderablePayment → ℕ
  time_of payment = elim (parse payment.created_at) [ none ↦ 0 | some time ↦ time ]

  -- The comparator of the sort is negative.
  unfoldable pub precedes : OrderablePayment → OrderablePayment → Bool
  precedes left right =
      if is_open left
      then if is_open right then ltb (time_of right) (time_of left) else true
      else if is_open right
      then false
      else ltb (time_of right) (time_of left)

  unfoldable pub insert : OrderablePayment → List OrderablePayment → List OrderablePayment
  insert payment [] = payment ∷ []
  insert payment (next ∷ rest) =
      let behind = insert payment rest in
      if precedes next payment then next ∷ behind else payment ∷ next ∷ rest

  -- `sort` of ECMAScript is stable: two payments that neither precede each other keep their places.
  unfoldable pub order_merchant_payments : List OrderablePayment → List OrderablePayment
  order_merchant_payments [] = []
  order_merchant_payments (payment ∷ rest) = insert payment (order_merchant_payments rest)
