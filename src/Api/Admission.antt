-- ===== src/Api/Admission.antt =====
-- The route of apps/api/src/app.ts that takes a payment request in, up to the call of the service, and
-- the answers that the error handler of that file gives. What `options.resolve` comes to is an
-- argument, its rejection included.
pub mod Admitted
pub mod Posted
pub mod Refusals
pub mod Refused
mod Tests
use rosa_pay_application.Base.{
  ℕ, String, Bool, true, false, not, ◌&&◌, ◌||◌, Option, none, some, List, Result, ok, err, ltb,
  leb, if◌then◌else◌, ◌>>=◌, ◌>>◌,
}
use rosa_pay_application.Base.Text.{codes}
use rosa_pay_application.Base.{length}
use rosa_pay_application.Protocol.Schema.{Network, PaymentIntentV1, SignedPaymentIntentV1}
use rosa_pay_application.Protocol.Schema.Parsing.{Formats}
use rosa_pay_application.Protocol.Amounts.{
  given_or, is_positive_safe, max_intent_acceptance_ledgers,
}
use rosa_pay_application.Protocol.Validation.{IntentPolicyError, validate_payment_intent}
use rosa_pay_application.Stellar.Signature.{parse_signed_payment_intent}
use rosa_pay_application.Api.Access.{AccessError, ApiPrincipal, authorize_merchant_intent}

-- The errors that the handler tells apart.
pub data ProvisioningCode : Type 0 where
  provisioning_disabled invalid_device_key provisioning_failed ownership_conflict : ProvisioningCode

pub data RelayerCode : Type 0 where
  relayer_disabled admin_disabled invalid_transaction registration_failed : RelayerCode

pub data ApiError : Type 0 where
  invalid_request device_authentication price_unavailable policy_unavailable : ApiError
  refused_by_policy : IntentPolicyError → ApiError
  intent_conflict settlement_not_found countersignature_conflict countersignature_not_found :
      ApiError
  settlement_input settlement_transition : ApiError
  profile_input profile_conflict profile_not_found : ApiError
  rate_limited : ApiError
  provisioning : ProvisioningCode → ApiError
  relayer : RelayerCode → ApiError
  access : AccessError → ApiError
  unknown : ApiError

unfoldable pub status_of : ApiError → ℕ
status_of ApiError.invalid_request = 400
status_of ApiError.device_authentication = 401
status_of ApiError.price_unavailable = 503
status_of ApiError.policy_unavailable = 503
status_of (ApiError.refused_by_policy e) = 400
status_of ApiError.intent_conflict = 409
status_of ApiError.settlement_not_found = 404
status_of ApiError.countersignature_conflict = 409
status_of ApiError.countersignature_not_found = 404
status_of ApiError.settlement_input = 400
status_of ApiError.settlement_transition = 409
status_of ApiError.profile_input = 400
status_of ApiError.profile_conflict = 409
status_of ApiError.profile_not_found = 404
status_of ApiError.rate_limited = 429
status_of (ApiError.provisioning ProvisioningCode.provisioning_disabled) = 503
status_of (ApiError.provisioning ProvisioningCode.invalid_device_key) = 400
status_of (ApiError.provisioning ProvisioningCode.provisioning_failed) = 502
status_of (ApiError.provisioning ProvisioningCode.ownership_conflict) = 502
status_of (ApiError.relayer RelayerCode.relayer_disabled) = 503
status_of (ApiError.relayer RelayerCode.admin_disabled) = 503
status_of (ApiError.relayer RelayerCode.invalid_transaction) = 400
status_of (ApiError.relayer RelayerCode.registration_failed) = 400
status_of (ApiError.access AccessError.authentication_required) = 401
status_of (ApiError.access AccessError.capability_denied) = 403
status_of ApiError.unknown = 500

-- The policy of a deployment; what `latestLedger` comes to is `none` where it throws.
pub record PaymentIntentPolicy : Type 0 where
  pub network : Network
  pub latest_ledger : Option ℕ
  pub max_ledger_lifetime : Option ℕ

abbrev pub parsed_or_throw : Option SignedPaymentIntentV1 → Result ApiError SignedPaymentIntentV1
parsed_or_throw none = err ApiError.invalid_request
parsed_or_throw (some payload) = ok payload

abbrev pub access_or_throw : {A : Type 0} → Result AccessError A → Result ApiError A
access_or_throw (ok a) = ok a
access_or_throw (err e) = err (ApiError.access e)

abbrev pub policy_or_throw : Result IntentPolicyError PaymentIntentV1 → Result ApiError (Unit {0})
policy_or_throw (ok intent) = ok tt
policy_or_throw (err e) = err (ApiError.refused_by_policy e)

abbrev pub ledger_or_throw : Option ℕ → Result ApiError ℕ
ledger_or_throw none = err ApiError.policy_unavailable
ledger_or_throw (some latest) =
    if is_positive_safe latest then ok latest else err ApiError.policy_unavailable

-- The check of the policy, where the deployment has one.
unfoldable pub check_policy :
    Option PaymentIntentPolicy → PaymentIntentV1 → Result ApiError (Unit {0})
check_policy none intent = ok tt
check_policy (some policy) intent = ledger_or_throw policy.latest_ledger >>= (λ latest.
    policy_or_throw (
      validate_payment_intent intent (record {
        network = policy.network;
        latest_ledger = some latest;
        max_ledger_lifetime =
            some (given_or max_intent_acceptance_ledgers policy.max_ledger_lifetime);
      })))

-- `z.string().min(16)`, of a key of ASCII, as a header is.
abbrev pub key_or_throw : Option String → Result ApiError String
key_or_throw none = err ApiError.invalid_request
key_or_throw (some key) =
    if leb 16 (length (codes key)) then ok key else err ApiError.invalid_request

-- The request and the idempotency key that are handed to `intents.create`.
unfoldable pub admit_payment_intent :
    Formats
    → Bool
    → Option PaymentIntentPolicy
    → Result ApiError (Option ApiPrincipal)
    → Option String
    → SignedPaymentIntentV1
    → Result ApiError (SignedPaymentIntentV1 × String)
admit_payment_intent formats auth_required policy resolved idempotency_key body =
    key_or_throw idempotency_key >>= (λ key.
      parsed_or_throw (parse_signed_payment_intent formats body) >>= (λ parsed.
        resolved >>= (λ principal.
          access_or_throw (authorize_merchant_intent auth_required principal parsed)
          >>= (λ payload. check_policy policy payload.intent >> ok (payload, key)))))
