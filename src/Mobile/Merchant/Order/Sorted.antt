-- ===== src/Mobile/Merchant/Order/Sorted.antt =====
-- That the list of paymentOrder.ts is in order and complete.
use mathlib.Core.List.{Perm}
use mathlib.Core.List.Perm
use rosa_pay_application.Base.{
  ℕ, ◌≤◌, ◌≡◌, String, true, false, Option, none, some, List, [], ◌∷◌, arith, All, Bool-cases, ◌⊎◌,
  inl, inr,
}
use rosa_pay_application.Mobile.Merchant.{open_still, payment_outcome}
use rosa_pay_application.Mobile.Merchant.Order.{
  OrderablePayment, is_open, time_of, precedes, insert, order_merchant_payments,
}

abbrev IsOpen : OrderablePayment → Type 0
IsOpen payment = payment_outcome payment.status ≡ open_still

abbrev instant : Option ℕ → ℕ
instant none = 0
instant (some time) = time

abbrev made_at : (String → Option ℕ) → OrderablePayment → ℕ
made_at parse payment = instant (parse payment.created_at)

-- An open payment in front of one that is not, or two alike of which the first is not older.
abbrev pub IsAhead : (String → Option ℕ) → OrderablePayment → OrderablePayment → Type 0
IsAhead parse a b =
    (IsOpen a × ¬ IsOpen b)
    ⊎ ((IsOpen a × IsOpen b × (made_at parse b ≤ made_at parse a))
        ⊎ (¬ IsOpen a × ¬ IsOpen b × (made_at parse b ≤ made_at parse a)))

-- Every payment may stand in front of all that follow it.
abbrev pub IsListing : (String → Option ℕ) → List OrderablePayment → Type 0
IsListing parse [] = Unit
IsListing parse (payment ∷ rest) = All (IsAhead parse payment) rest × IsListing parse rest

module _ (parse : String → Option ℕ) where
  -- Nothing of the list comes before the payment.
  abbrev Leads : OrderablePayment → List OrderablePayment → Type 0
  Leads payment = All (λ other. precedes parse other payment ≡ false)

  -- No payment of the list precedes one in front of it, by the comparator.
  abbrev InOrder : List OrderablePayment → Type 0
  InOrder [] = Unit
  InOrder (payment ∷ rest) = All (λ other. precedes parse other payment ≡ false) rest × InOrder rest

  precedes_trans :
      (a b c : OrderablePayment)
      → precedes parse a b ≡ false
      → precedes parse b c ≡ false
      → precedes parse a c ≡ false
  unfolding precedes
  precedes_trans a b c p q = ground arith

  precedes-asymmetric :
      (a b : OrderablePayment) → precedes parse a b ≡ true → precedes parse b a ≡ false
  unfolding precedes
  precedes-asymmetric a b p = ground arith

  Leads-further :
      (a b : OrderablePayment) (l : List OrderablePayment)
      → precedes parse b a ≡ false
      → Leads b l
      → Leads a l
  Leads-further a b [] p h = tt
  Leads-further a b (c ∷ l) p (q, h) = (precedes_trans c b a q p, Leads-further a b l p h)

  Leads-insert :
      (a b : OrderablePayment) (l : List OrderablePayment)
      → precedes parse b a ≡ false
      → Leads a l
      → Leads a (insert parse b l)
  unfolding insert
  Leads-insert a b [] p h = (p, tt)
  Leads-insert a b (c ∷ l) p (q, h) = elim (Bool-cases (precedes parse c b)) [
    | inl behind ↦ rw behind (q, Leads-insert a b l p h)
    | inr before ↦ rw before (p, (q, h))
  ]

  insert-InOrder :
      (a : OrderablePayment) (l : List OrderablePayment) → InOrder l → InOrder (insert parse a l)
  unfolding insert
  insert-InOrder a [] h = (tt, tt)
  insert-InOrder a (b ∷ l) (p, h) = elim (Bool-cases (precedes parse b a)) [
    | inl behind ↦
        rw behind (Leads-insert b a l (precedes-asymmetric b a behind) p, insert-InOrder a l h)
    | inr before ↦ rw before ((before, Leads-further a b l before p), (p, h))
  ]

  insert-perm : (a : OrderablePayment) (l : List OrderablePayment) → Perm (insert parse a l) (a ∷ l)
  unfolding insert
  insert-perm a [] = Perm.rfl
  insert-perm a (b ∷ l) = elim (Bool-cases (precedes parse b a)) [
    | inl behind ↦ rw behind (Perm.trans (Perm.cons b (insert-perm a l)) (Perm.swap a b l))
    | inr before ↦ rw before Perm.rfl
  ]

  -- What the comparator says of a payment that may stand in front of another.
  precedes-IsAhead : (a b : OrderablePayment) → precedes parse b a ≡ false → IsAhead parse a b
  unfolding precedes is_open time_of
  precedes-IsAhead a b p = ground arith

  Leads-IsAhead :
      (a : OrderablePayment) (l : List OrderablePayment) → Leads a l → All (IsAhead parse a) l
  Leads-IsAhead a [] h = tt
  Leads-IsAhead a (b ∷ l) (p, h) = (precedes-IsAhead a b p, Leads-IsAhead a l h)

  InOrder-IsListing : (l : List OrderablePayment) → InOrder l → IsListing parse l
  InOrder-IsListing [] h = tt
  InOrder-IsListing (a ∷ l) (p, h) = (Leads-IsAhead a l p, InOrder-IsListing l h)

  ordered-InOrder :
      (payments : List OrderablePayment) → InOrder (order_merchant_payments parse payments)
  unfolding order_merchant_payments
  ordered-InOrder [] = tt
  ordered-InOrder (a ∷ l) = insert-InOrder a (order_merchant_payments parse l) (ordered-InOrder l)

  ordered-perm :
      (payments : List OrderablePayment) → Perm (order_merchant_payments parse payments) payments
  unfolding order_merchant_payments
  ordered-perm [] = Perm.rfl
  ordered-perm (a ∷ l) =
      Perm.trans (insert-perm a (order_merchant_payments parse l)) (Perm.cons a (ordered-perm l))

  -- The list is a rearrangement of the payments, none left out or repeated, in which every payment
  -- whose outcome is open stands in front of all whose outcome is another; of two that are both open,
  -- or both not, the one in front is not the older one, a date that cannot be read counting as 0.
  pub order_merchant_payments-IsListing :
      (payments : List OrderablePayment)
      → Perm (order_merchant_payments parse payments) payments
        × IsListing parse (order_merchant_payments parse payments)
  order_merchant_payments-IsListing payments = (
    ordered-perm payments,
    InOrder-IsListing (order_merchant_payments parse payments) (ordered-InOrder payments),
  )
