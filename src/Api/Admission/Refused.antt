-- ===== src/Api/Admission/Refused.antt =====
-- How a request that the route refuses is answered.
use rosa_pay_application.Base.{
  ℕ, ◌≡◌, ◌≢◌, refl, sym, ◌∙◌, ap, subst, String, Bool, Option, none, some, Result, ok, err, ◌⊎◌,
  inl, inr, arith, bind_ok, Result-cases,
}
use rosa_pay_application.Base.Dict.{get}
use rosa_pay_application.Api.Intents.Records.{StoredIntent}
use rosa_pay_application.Api.Intents.Store.{Repo}
use rosa_pay_application.Api.Intents.Service.{create}
use rosa_pay_application.Api.Intents.Transitions.{alone}
use rosa_pay_application.Api.Admission.Posted.{
  thrown, answer_recorded, after_create, store_admitted, post_payment_intent,
}
use rosa_pay_application.Api.Admission.Admitted.{access_ok, parsed_ok}
use rosa_pay_application.Protocol.Schema.{SignedPaymentIntentV1}
use rosa_pay_application.Protocol.Schema.Parsing.{Formats}
use rosa_pay_application.Stellar.Signature.{parse_signed_payment_intent}
use rosa_pay_application.Api.Access.{ApiPrincipal, authorize_merchant_intent}
use rosa_pay_application.Api.Admission.{
  ApiError, PaymentIntentPolicy, parsed_or_throw, access_or_throw, check_policy, key_or_throw,
  admit_payment_intent, status_of,
}
use rosa_pay_application.Api.Admission.Refusals.{IsRefusal, resolved-parts}
use rosa_pay_application.Api.Intents.Conflicts.{create-conflict}

authorize-same :
    (auth_required : Bool) (principal : Option ApiPrincipal) (p q : SignedPaymentIntentV1)
    → authorize_merchant_intent auth_required principal p ≡ ok q
    → p ≡ q
unfolding authorize_merchant_intent
authorize-same auth_required none p q h = ground arith
authorize-same auth_required (some principal) p q h = ground arith

key_given : (o : Option String) (k : String) → key_or_throw o ≡ ok k → o ≡ some k
key_given none k h = ground arith
key_given (some j) k h = ground arith

pair_injective :
    (a b : SignedPaymentIntentV1) (c d : String)
    → ◌≡◌ {A = Result ApiError (SignedPaymentIntentV1 × String)} (ok (a, c)) (ok (b, d))
    → (a ≡ b) × (c ≡ d)
pair_injective a b c d e = (ground arith, ground arith)

error_injective : (a b : ApiError) → ◌≡◌ {A = Result ApiError StoredIntent} (err a) (err b) → a ≡ b
error_injective a b e = ground arith

-- What is handed on is the key that was given, and what the schema makes of the body.
admitted-parts :
    (formats : Formats) (auth_required : Bool) (policy : Option PaymentIntentPolicy)
    (resolved : Result ApiError (Option ApiPrincipal)) (idempotency_key : Option String)
    (body payload : SignedPaymentIntentV1) (key : String)
    → admit_payment_intent formats auth_required policy resolved idempotency_key body
      ≡ ok (payload, key)
    → (idempotency_key ≡ some key) × (parse_signed_payment_intent formats body ≡ some payload)
unfolding admit_payment_intent
admitted-parts formats auth_required policy resolved idempotency_key body payload key h =
    let (k, keyed, h1) = bind_ok (key_or_throw idempotency_key) _ (payload, key) h in
    let (parsed, read, h2) =
      bind_ok (parsed_or_throw (parse_signed_payment_intent formats body)) _ (payload, key) h1 in
    let (principal, known, h3) = bind_ok resolved _ (payload, key) h2 in
    let (owned, authorized, h4) =
      bind_ok (access_or_throw (authorize_merchant_intent auth_required principal parsed)) _
        (payload, key) h3 in
    let (u, live, made) = bind_ok (check_policy policy owned.intent) _ (payload, key) h4 in
    let (same_payload, same_key) = pair_injective owned payload k key made in
    (
      key_given idempotency_key k keyed ∙ ap some same_key,
      parsed_ok (parse_signed_payment_intent formats body) parsed read
          ∙ ap some (
              authorize-same auth_required principal parsed owned (
                access_ok (authorize_merchant_intent auth_required principal parsed) owned
                  authorized)
              ∙ same_payload),
    )

-- The key belongs to an intent of another hash, or the intent's id is there already.
abbrev pub IsTaken :
    Formats
    → (SignedPaymentIntentV1 → String)
    → Option String
    → SignedPaymentIntentV1
    → Repo
    → Type 0
IsTaken formats hash idempotency_key body r =
    (key : String) × (payload : SignedPaymentIntentV1) × (idempotency_key ≡ some key)
    × (parse_signed_payment_intent formats body ≡ some payload)
    × (((stored : StoredIntent) × (get key r.by_idempotency_key ≡ some stored)
          × (stored.payload_hash ≢ hash payload))
        ⊎ ((stored : StoredIntent) × (get payload.intent.intent_id r.by_id ≡ some stored)))

recorded-error :
    (stored : StoredIntent) (x : Result ApiError (Unit {0})) (e : ApiError)
    → answer_recorded stored x ≡ err e
    → x ≡ err e
recorded-error stored (ok u) e h = ground arith
recorded-error stored (err d) e h = ground arith

refused_first :
    (resolved : Result ApiError (Option ApiPrincipal)) (policy : Option PaymentIntentPolicy)
    (e : ApiError) (T : Type 0)
    → (resolved ≡ err e) ⊎ IsRefusal policy e
    → (resolved ≡ err e) ⊎ (IsRefusal policy e ⊎ T)
refused_first resolved policy e T (inl rejected) = inl rejected
refused_first resolved policy e T (inr refusal) = inr (inl refusal)

-- Behind the admission: the conflict of the service, or the error of the audit log.
created-refused :
    (hash : SignedPaymentIntentV1 → String) (recorded : StoredIntent → Result ApiError (Unit {0}))
    (ms : ℕ) (formats : Formats) (policy : Option PaymentIntentPolicy)
    (resolved : Result ApiError (Option ApiPrincipal)) (idempotency_key : Option String)
    (body payload : SignedPaymentIntentV1) (key : String) (r : Repo) (e : ApiError)
    → idempotency_key ≡ some key
    → parse_signed_payment_intent formats body ≡ some payload
    → (store_admitted hash recorded ms (ok (payload, key)) (alone r)).0 ≡ err e
    → (((store_admitted hash recorded ms (ok (payload, key)) (alone r)).1.repo ≡ r)
        × ((resolved ≡ err e)
            ⊎ (IsRefusal policy e
                ⊎ ((status_of e ≡ 409) × IsTaken formats hash idempotency_key body r))))
      ⊎ ((stored : StoredIntent) × (recorded stored ≡ err e))
unfolding status_of
created-refused hash recorded ms formats policy resolved idempotency_key body payload key r e given
      parsed h =
    elim (Result-cases (create ms payload (hash payload) key (alone r)).0) [
      | inr (stored, made) ↦
          inr (stored, recorded-error stored (recorded stored) e (rw (made, after_create) at h))
      | inl (d, failed) ↦
          let (conflict, kept, taken) = create-conflict ms payload (hash payload) key r d failed in
          let same : thrown d ≡ e = error_injective (thrown d) e (rw (failed, after_create) at h) in
          let answered : status_of e ≡ 409 =
            subst (λ x. status_of x ≡ 409) same
              (subst (λ x. status_of (thrown x) ≡ 409) (sym conflict) refl) in
          inl (kept, inr (inr (answered, (key, payload, given, parsed, taken))))
    ]

-- A payment request that the route refuses, while no other request writes, is refused for one of
-- these: with the store as it was, the error of finding out who calls; or a status between 400 and
-- 403; or 503, where the deployment has a policy and the ledger cannot be read as a positive safe
-- integer; or 409, where the idempotency key is already that of an intent with another hash or the
-- intent's id is taken; and otherwise the error of the audit log.
pub post_payment_intent-refused :
    (hash : SignedPaymentIntentV1 → String) (recorded : StoredIntent → Result ApiError (Unit {0}))
    (ms : ℕ) (formats : Formats) (auth_required : Bool) (policy : Option PaymentIntentPolicy)
    (resolved : Result ApiError (Option ApiPrincipal)) (idempotency_key : Option String)
    (body : SignedPaymentIntentV1) (r : Repo) (e : ApiError)
    → (post_payment_intent hash recorded ms formats auth_required policy resolved idempotency_key
        body
        (alone r)).0
      ≡ err e
    → (((post_payment_intent hash recorded ms formats auth_required policy resolved idempotency_key
            body
            (alone r)).1.repo
          ≡ r)
        × ((resolved ≡ err e)
            ⊎ (IsRefusal policy e
                ⊎ ((status_of e ≡ 409) × IsTaken formats hash idempotency_key body r))))
      ⊎ ((stored : StoredIntent) × (recorded stored ≡ err e))
unfolding post_payment_intent
post_payment_intent-refused hash recorded ms formats auth_required policy resolved idempotency_key
      body r e h =
    elim (Result-cases
      (admit_payment_intent formats auth_required policy resolved idempotency_key body)) [
        | inl (d, refused) ↦
            let same : d ≡ e = error_injective d e (rw (refused, store_admitted) at h) in
            rw (refused, store_admitted)
              (inl (
                refl,
                refused_first resolved policy e _ (
                    resolved-parts formats auth_required policy resolved idempotency_key body e
                      (refused ∙ ap err same)),
              ))
        | inr ((payload, key), admitted) ↦
            let (given, parsed) =
              admitted-parts formats auth_required policy resolved idempotency_key body payload key
                admitted in
            rw (admitted, store_admitted)
              (created-refused hash recorded ms formats policy resolved idempotency_key body payload
                key r e given parsed (rw (admitted, store_admitted) at h))
      ]
