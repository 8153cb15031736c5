-- ===== src/Protocol/Validation/Policy.antt =====
-- Which requests validation.ts lets through.
use rosa_pay_application.Base.{
  ℕ, ◌+◌, ◌<◌, ◌≤◌, ◌≡◌, ◌↔◌, inl, inr, true, Option, none, some, arith, ok, Bool-cases,
  Option-cases,
}
use rosa_pay_application.Protocol.Schema.{network_eq, PaymentIntentV1}
use rosa_pay_application.Protocol.Validation.{
  IntentValidationContext, check_expiry, validate_payment_intent,
}

-- The request runs out behind the ledger, and not further ahead than the context allows.
abbrev pub IsLive : ℕ → ℕ → Option ℕ → Type 0
IsLive expires latest none = latest < expires
IsLive expires latest (some most) = (latest < expires) × (expires ≤ latest + most)

abbrev pub IsLiveIn : ℕ → Option ℕ → Option ℕ → Type 0
IsLiveIn expires none most = Unit
IsLiveIn expires (some latest) most = IsLive expires latest most

check_expiry-ok_iff :
    (intent : PaymentIntentV1) (latest : ℕ) (most : Option ℕ)
    → (check_expiry intent latest most ≡ ok intent) ↔ IsLive intent.expires_at_ledger latest most
unfolding check_expiry
check_expiry-ok_iff intent latest none = (λ h. ground arith, λ h. ground arith)
check_expiry-ok_iff intent latest (some most) =
    (λ h. (ground arith, ground arith), λ h. ground arith)

-- A request is let through, unchanged, exactly if it is for the reader's network and, where the
-- reader knows a ledger, expires behind it and within the lifetime that the reader accepts.
pub validate_payment_intent-ok_iff :
    (intent : PaymentIntentV1) (context : IntentValidationContext)
    → (validate_payment_intent intent context ≡ ok intent) ↔ (
        (network_eq intent.network context.network ≡ true)
        × IsLiveIn intent.expires_at_ledger context.latest_ledger context.max_ledger_lifetime)
unfolding validate_payment_intent
validate_payment_intent-ok_iff intent context =
    elim (Bool-cases (network_eq intent.network context.network)) [
      | inr other ↦ (λ h. ground arith, λ h. ground arith)
      | inl same ↦ elim (Option-cases context.latest_ledger) [
        | inl unknown ↦ (λ h. (same, rw unknown tt), λ h. ground arith)
        | inr (latest, known) ↦
            let (to, from) = check_expiry-ok_iff intent latest context.max_ledger_lifetime in
            (
              λ h. (same, rw known (to (ground arith))),
              λ h. rw same (rw (known, validate_payment_intent) (from (rw known at h.1))),
            )
      ]
    ]
