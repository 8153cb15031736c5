-- ===== src/Api/Admission/Admitted.antt =====
-- What the API keeps has been checked.
use rosa_pay_application.Base.{
  ℕ, ◌≡◌, refl, sym, subst, ◌∙◌, String, Bool, true, Option, none, some, Result, ok, err, is_ok,
  bind_ok, arith,
}
use rosa_pay_application.Base.Dict.{values}
use rosa_pay_application.Protocol.Schema.{PaymentIntentV1, SignedPaymentIntentV1}
use rosa_pay_application.Protocol.Schema.Parsing.{Formats}
use rosa_pay_application.Protocol.Amounts.{given_or, max_intent_acceptance_ledgers}
use rosa_pay_application.Protocol.Validation.{IntentPolicyError, validate_payment_intent}
use rosa_pay_application.Stellar.Signature.{parse_signed_payment_intent}
use rosa_pay_application.Api.Profiles.{MerchantProfile, Table}
use rosa_pay_application.Api.Access.{
  AccessError, DeviceSession, resolve_principal, authorize_merchant_intent,
}
use rosa_pay_application.Api.Access.Owned.{In, authorize_merchant_intent-owned}
use rosa_pay_application.Api.Admission.{
  ApiError, PaymentIntentPolicy, parsed_or_throw, access_or_throw, policy_or_throw, ledger_or_throw,
  check_policy, key_or_throw, admit_payment_intent,
}

-- The request is one that the policy's reader accepts, at a ledger that was read.
pub record IsLive (policy : PaymentIntentPolicy) (intent : PaymentIntentV1) : Type 0 where
  pub latest : ℕ
  pub was_read : policy.latest_ledger ≡ some latest
  pub accepted :
      is_ok (
        validate_payment_intent intent (record {
          network = policy.network;
          latest_ledger = some latest;
          max_ledger_lifetime =
              some (given_or max_intent_acceptance_ledgers policy.max_ledger_lifetime);
        }))
      ≡ true

ledger_ok : (o : Option ℕ) (n : ℕ) → ledger_or_throw o ≡ ok n → o ≡ some n
ledger_ok none n h = ground arith
ledger_ok (some m) n h = ground arith

policy_ok :
    (r : Result IntentPolicyError PaymentIntentV1) (u : Unit {0})
    → policy_or_throw r ≡ ok u
    → is_ok r ≡ true
policy_ok (ok i) u h = refl
policy_ok (err e) u h = ground arith

pub access_ok :
    {A : Type 0} (r : Result AccessError A) (a : A) → access_or_throw r ≡ ok a → r ≡ ok a
access_ok (ok b) a h = ground arith
access_ok (err e) a h = ground arith

pub parsed_ok :
    (o : Option SignedPaymentIntentV1) (p : SignedPaymentIntentV1)
    → parsed_or_throw o ≡ ok p
    → o ≡ some p
parsed_ok none p h = ground arith
parsed_ok (some q) p h = ground arith

check_policy-IsLive :
    (policy : PaymentIntentPolicy) (intent : PaymentIntentV1) (u : Unit {0})
    → check_policy (some policy) intent ≡ ok u
    → IsLive policy intent
unfolding check_policy
check_policy-IsLive policy intent u h =
    let (latest, read, accepted) = bind_ok (ledger_or_throw policy.latest_ledger) _ u h in
    record {
      latest = latest;
      was_read = ledger_ok policy.latest_ledger latest read;
      accepted =
          policy_ok
            (validate_payment_intent intent (record {
              network = policy.network;
              latest_ledger = some latest;
              max_ledger_lifetime =
                  some (given_or max_intent_acceptance_ledgers policy.max_ledger_lifetime);
            }))
            u accepted;
    }

-- What a deployment with a policy hands to its service for a signed-in device is the body as the schema
-- parses it; it is accepted by the policy at the ledger that was read, and it is for a merchant
-- profile that the user of the device owns.
pub admit_payment_intent-checked :
    (formats : Formats) (auth_required : Bool) (policy : PaymentIntentPolicy)
    (session : DeviceSession) (t : Table) (wallet idempotency_key : Option String)
    (body payload : SignedPaymentIntentV1) (key : String)
    → admit_payment_intent formats auth_required
        (some policy)
        (ok (resolve_principal (some session) t wallet))
        idempotency_key
        body
      ≡ ok (payload, key)
    → (parse_signed_payment_intent formats body ≡ some payload)
      × IsLive policy payload.intent
      × ((profile : MerchantProfile) × (profile.id ≡ payload.intent.merchant_profile_id)
          × (profile.user_id ≡ some session.user_id)
          × In profile (values t))
unfolding admit_payment_intent
admit_payment_intent-checked formats auth_required policy session t wallet idempotency_key body
      payload key h =
    let principal = resolve_principal (some session) t wallet in
    let (k, keyed, h1) = bind_ok (key_or_throw idempotency_key) _ (payload, key) h in
    let (parsed, read, h2) =
      bind_ok (parsed_or_throw (parse_signed_payment_intent formats body)) _ (payload, key) h1 in
    let (owned, authorized, h3) =
      bind_ok (access_or_throw (authorize_merchant_intent auth_required principal parsed)) _
        (payload, key) h2 in
    let (u, live, made) = bind_ok (check_policy (some policy) owned.intent) _ (payload, key) h3 in
    let (same, profile) =
      authorize_merchant_intent-owned auth_required session t wallet parsed owned
        (access_ok (authorize_merchant_intent auth_required principal parsed) owned authorized) in
    let final : parsed ≡ payload = sym same ∙ first_injective owned payload k key made in
    subst
      (λ p.
        (parse_signed_payment_intent formats body ≡ some p)
        × IsLive policy p.intent
        × ((profile : MerchantProfile) × (profile.id ≡ p.intent.merchant_profile_id)
            × (profile.user_id ≡ some session.user_id)
            × In profile (values t)))
      final
      (
        parsed_ok (parse_signed_payment_intent formats body) parsed read,
        subst (λ p. IsLive policy p.intent) same (check_policy-IsLive policy owned.intent u live),
        profile,
      )
  where
    first_injective :
        (a b : SignedPaymentIntentV1) (c d : String)
        → ◌≡◌ {A = Result ApiError (SignedPaymentIntentV1 × String)} (ok (a, c)) (ok (b, d))
        → a ≡ b
    first_injective a b c d e = ground arith
