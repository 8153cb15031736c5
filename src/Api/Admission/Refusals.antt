-- ===== src/Api/Admission/Refusals.antt =====
-- Why a request is not taken in.
use rosa_pay_application.Base.{
  ℕ, ◌≤◌, ◌≡◌, refl, String, Bool, true, false, Option, none, some, Result, ok, err, ◌>>=◌, ◌⊎◌,
  inl, inr, arith, ◌>>◌,
}
use rosa_pay_application.Protocol.Schema.{PaymentIntentV1, SignedPaymentIntentV1}
use rosa_pay_application.Protocol.Schema.Parsing.{Formats}
use rosa_pay_application.Protocol.Amounts.{
  given_or, is_positive_safe, max_intent_acceptance_ledgers,
}
use rosa_pay_application.Protocol.Validation.{IntentPolicyError, validate_payment_intent}
use rosa_pay_application.Stellar.Signature.{parse_signed_payment_intent}
use rosa_pay_application.Api.Access.{AccessError, ApiPrincipal, authorize_merchant_intent}
use rosa_pay_application.Api.Admission.{
  ApiError, PaymentIntentPolicy, parsed_or_throw, access_or_throw, policy_or_throw, ledger_or_throw,
  check_policy, key_or_throw, admit_payment_intent, status_of,
}

-- A chain that stops has a part that stops.
bind_err :
    {A B : Type 0} (m : Result ApiError A) (f : A → Result ApiError B) (e : ApiError)
    → m >>= f ≡ err e
    → (m ≡ err e) ⊎ ((a : A) × (m ≡ ok a) × (f a ≡ err e))
bind_err (ok a) f e h = inr (a, refl, h)
bind_err (err d) f e h = inl (ground arith)

-- Whether the ledger can be read as a positive safe integer.
abbrev pub reads_ledger : Option PaymentIntentPolicy → Bool
reads_ledger none = true
reads_ledger (some policy) = elim policy.latest_ledger [
  | none ↦ false
  | some latest ↦ is_positive_safe latest
]

-- A caller's error, or that of a deployment which cannot read the ledger.
abbrev pub IsRefusal : Option PaymentIntentPolicy → ApiError → Type 0
IsRefusal policy e =
    ((400 ≤ status_of e) × (status_of e ≤ 403))
    ⊎ ((status_of e ≡ 503) × (reads_ledger policy ≡ false))

key-IsRefusal :
    (policy : Option PaymentIntentPolicy) (key : Option String) (e : ApiError)
    → key_or_throw key ≡ err e
    → IsRefusal policy e
unfolding status_of
key-IsRefusal policy none e h = ground arith
key-IsRefusal policy (some key) e h = ground arith

parsed-IsRefusal :
    (policy : Option PaymentIntentPolicy) (o : Option SignedPaymentIntentV1) (e : ApiError)
    → parsed_or_throw o ≡ err e
    → IsRefusal policy e
unfolding status_of
parsed-IsRefusal policy none e h = ground arith
parsed-IsRefusal policy (some p) e h = ground arith

access-IsRefusal :
    (policy : Option PaymentIntentPolicy) (r : Result AccessError SignedPaymentIntentV1)
    (e : ApiError)
    → access_or_throw r ≡ err e
    → IsRefusal policy e
unfolding status_of
access-IsRefusal policy (ok p) e h = ground arith
access-IsRefusal policy (err AccessError.authentication_required) e h = ground arith
access-IsRefusal policy (err AccessError.capability_denied) e h = ground arith

ledger-IsRefusal :
    (policy : PaymentIntentPolicy) (o : Option ℕ) (e : ApiError)
    → policy.latest_ledger ≡ o
    → ledger_or_throw o ≡ err e
    → IsRefusal (some policy) e
unfolding status_of
ledger-IsRefusal policy none e read h = ground arith
ledger-IsRefusal policy (some latest) e read h = ground arith

validity-IsRefusal :
    (policy : Option PaymentIntentPolicy) (r : Result IntentPolicyError PaymentIntentV1)
    (e : ApiError)
    → policy_or_throw r ≡ err e
    → IsRefusal policy e
unfolding status_of
validity-IsRefusal policy (ok i) e h = ground arith
validity-IsRefusal policy (err d) e h = ground arith

policy-IsRefusal :
    (policy : Option PaymentIntentPolicy) (intent : PaymentIntentV1) (e : ApiError)
    → check_policy policy intent ≡ err e
    → IsRefusal policy e
unfolding check_policy
policy-IsRefusal none intent e h = ground arith
policy-IsRefusal (some policy) intent e h =
    elim (bind_err (ledger_or_throw policy.latest_ledger) _ e h) [
      | inl unread ↦ ledger-IsRefusal policy policy.latest_ledger e refl unread
      | inr (latest, read, refused) ↦
          validity-IsRefusal (some policy)
            (validate_payment_intent intent (record {
              network = policy.network;
              latest_ledger = some latest;
              max_ledger_lifetime =
                  some (given_or max_intent_acceptance_ledgers policy.max_ledger_lifetime);
            }))
            e refused
    ]

abbrev admitted : SignedPaymentIntentV1 → String → Result ApiError (SignedPaymentIntentV1 × String)
admitted payload key = ok (payload, key)

authorized-IsRefusal :
    (auth_required : Bool) (policy : Option PaymentIntentPolicy) (principal : Option ApiPrincipal)
    (key : String) (parsed : SignedPaymentIntentV1) (e : ApiError)
    → access_or_throw (authorize_merchant_intent auth_required principal parsed)
        >>= (λ payload. check_policy policy payload.intent >> admitted payload key)
      ≡ err e
    → IsRefusal policy e
authorized-IsRefusal auth_required policy principal key parsed e h =
    elim (bind_err (access_or_throw (authorize_merchant_intent auth_required principal parsed)) _ e
      h) [
        | inl bad ↦
            access-IsRefusal policy (authorize_merchant_intent auth_required principal parsed) e bad
        | inr (payload, authorized, h1) ↦
            elim (bind_err (check_policy policy payload.intent) _ e h1) [
              | inl bad ↦ policy-IsRefusal policy payload.intent e bad
              | inr (u, live, made) ↦ ground arith
            ]
      ]

pub resolved-parts :
    (formats : Formats) (auth_required : Bool) (policy : Option PaymentIntentPolicy)
    (resolved : Result ApiError (Option ApiPrincipal)) (idempotency_key : Option String)
    (body : SignedPaymentIntentV1) (e : ApiError)
    → admit_payment_intent formats auth_required policy resolved idempotency_key body ≡ err e
    → (resolved ≡ err e) ⊎ IsRefusal policy e
unfolding admit_payment_intent
resolved-parts formats auth_required policy resolved idempotency_key body e h =
    elim (bind_err (key_or_throw idempotency_key) _ e h) [
      | inl bad ↦ inr (key-IsRefusal policy idempotency_key e bad)
      | inr (key, keyed, h1) ↦
          elim (bind_err (parsed_or_throw (parse_signed_payment_intent formats body)) _ e h1) [
            | inl bad ↦
                inr (parsed-IsRefusal policy (parse_signed_payment_intent formats body) e bad)
            | inr (parsed, read, h2) ↦ elim (bind_err resolved _ e h2) [
              | inl rejected ↦ inl rejected
              | inr (principal, known, h3) ↦
                  inr (authorized-IsRefusal auth_required policy principal key parsed e h3)
            ]
          ]
    ]
