-- ===== src/Protocol/Validation.antt =====
-- packages/protocol/src/validation.ts: the policy that a reader applies to a request. The parse in
-- front of it is `parse_payment_intent` of Schema/Parsing; the callers modelled here have parsed.
pub mod Policy
use rosa_pay_application.Base.{
  ℕ, ◌-◌, Bool, false, Option, none, some, ltb, leb, if◌then◌else◌, Result, ok, err,
}
use rosa_pay_application.Protocol.Schema.{Network, network_eq, PaymentIntentV1}

pub record IntentValidationContext : Type 0 where
  pub network : Network
  pub latest_ledger : Option ℕ
  pub max_ledger_lifetime : Option ℕ

pub data IntentPolicyError : Type 0 where
  wrong_network expired expiry_too_far : IntentPolicyError

-- `maxLedgerLifetime !== undefined && lifetime > maxLedgerLifetime`
abbrev pub exceeds : ℕ → Option ℕ → Bool
exceeds lifetime none = false
exceeds lifetime (some most) = ltb most lifetime

-- The checks that follow once a ledger is known. The subtraction is reached only where it is exact.
unfoldable pub check_expiry :
    PaymentIntentV1 → ℕ → Option ℕ → Result IntentPolicyError PaymentIntentV1
check_expiry intent latest most =
    if leb intent.expires_at_ledger latest
    then err expired
    else if exceeds (intent.expires_at_ledger - latest) most
    then err expiry_too_far
    else ok intent

unfoldable pub validate_payment_intent :
    PaymentIntentV1 → IntentValidationContext → Result IntentPolicyError PaymentIntentV1
unfolding check_expiry
validate_payment_intent intent context =
    if network_eq intent.network context.network
    then elim context.latest_ledger [
      | none ↦ ok intent
      | some latest ↦ check_expiry intent latest context.max_ledger_lifetime
    ]
    else err wrong_network
