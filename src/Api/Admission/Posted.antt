-- ===== src/Api/Admission/Posted.antt =====
-- The whole route of a payment request in apps/api/src/app.ts: taken in, handed to the service, and
-- written to the audit log. `hash` is the service's hash of the intent, `recorded` what
-- `audit.record` comes to.
use rosa_pay_application.Base.{ℕ, String, Bool, Option, Result, ok, err}
use rosa_pay_application.Protocol.Schema.{SignedPaymentIntentV1}
use rosa_pay_application.Protocol.Schema.Parsing.{Formats}
use rosa_pay_application.Api.Access.{ApiPrincipal}
use rosa_pay_application.Api.Intents.Records.{
  StoredIntent, ServiceError, intent_conflict, countersignature_conflict,
  countersignature_not_found, settlement_not_found, settlement_input, settlement_transition,
}
use rosa_pay_application.Api.Intents.Interleave.{World}
use rosa_pay_application.Api.Intents.Service.{create}
use rosa_pay_application.Api.Admission.{ApiError, PaymentIntentPolicy, admit_payment_intent}

abbrev pub thrown : ServiceError → ApiError
thrown intent_conflict = ApiError.intent_conflict
thrown countersignature_conflict = ApiError.countersignature_conflict
thrown countersignature_not_found = ApiError.countersignature_not_found
thrown settlement_not_found = ApiError.settlement_not_found
thrown settlement_input = ApiError.settlement_input
thrown settlement_transition = ApiError.settlement_transition

-- The answer, once the audit log has returned or thrown.
abbrev pub answer_recorded :
    StoredIntent → Result ApiError (Unit {0}) → Result ApiError StoredIntent
answer_recorded stored (ok u) = ok stored
answer_recorded stored (err e) = err e

abbrev pub after_create :
    (StoredIntent → Result ApiError (Unit {0}))
    → Result ServiceError StoredIntent
    → Result ApiError StoredIntent
after_create recorded (ok stored) = answer_recorded stored (recorded stored)
after_create recorded (err e) = err (thrown e)

module _ (hash : SignedPaymentIntentV1 → String)
    (recorded : StoredIntent → Result ApiError (Unit {0})) (ms : ℕ) where
  abbrev pub store_admitted :
      Result ApiError (SignedPaymentIntentV1 × String)
      → World
      → Result ApiError StoredIntent × World
  store_admitted (err e) w = (err e, w)
  store_admitted (ok (payload, key)) w =
      let stored = create ms payload (hash payload) key w in
      (after_create recorded stored.0, stored.1)

  unfoldable pub post_payment_intent :
      Formats
      → Bool
      → Option PaymentIntentPolicy
      → Result ApiError (Option ApiPrincipal)
      → Option String
      → SignedPaymentIntentV1
      → World
      → Result ApiError StoredIntent × World
  post_payment_intent formats auth_required policy resolved idempotency_key body w =
      store_admitted
        (admit_payment_intent formats auth_required policy resolved idempotency_key body) w
