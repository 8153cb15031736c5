-- ===== src/Mobile/Merchant/Tests.antt =====
-- One status, one move, one return to the app.
use mathlib.Core.List.{Perm}
use rosa_pay_application.Base.{ℕ, Option, some, String, List, [], ◌∷◌, length}
use rosa_pay_application.Base.Text.{codes}
use rosa_pay_application.Mobile.Merchant.Order.{OrderablePayment, order_merchant_payments}
use rosa_pay_application.Mobile.Merchant.Order.Sorted.{IsListing, order_merchant_payments-IsListing}
use rosa_pay_application.Domain.Payment.{submitted, confirmed}

abbrev left_at : Option ℕ
left_at = some 1000

abbrev times : String → Option ℕ
times text = some (length (codes text))

abbrev payments : List OrderablePayment
payments =
    record { intent_id = "a"; status = confirmed; created_at = "123" }
    ∷ record { intent_id = "b"; status = submitted; created_at = "1" }
    ∷ record { intent_id = "c"; status = submitted; created_at = "12" }
    ∷ []

order_merchant_payments-IsListing_example :
    Perm (order_merchant_payments times payments) payments
    × IsListing times (order_merchant_payments times payments)
order_merchant_payments-IsListing_example = order_merchant_payments-IsListing times payments
