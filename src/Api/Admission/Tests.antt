-- ===== src/Api/Admission/Tests.antt =====
-- A merchant's request that reaches the API while it is live.
use rosa_pay_application.Base.{
  String, Option, Result, ◌⊎◌, ◌≡◌, refl, true, none, some, [], ◌∷◌, ok, err,
}
use rosa_pay_application.Base.Dict.{get, values}
use rosa_pay_application.Base.Text.{trim, trim_start, trim_end, is_space}
use rosa_pay_application.Base.Pieces.{split}
use rosa_pay_application.Base.Decimal.{all_digits, is_whole, ends_nonzero}
use rosa_pay_application.Protocol.Schema.{testnet, SignedPaymentIntentV1, asset_issues}
use rosa_pay_application.Protocol.Schema.Parsing.{
  Formats, is_canonical_amount, canonical_pieces, parse_payment_intent, is_payment_intent,
  is_entity_id, is_stellar_address, is_asset,
}
use rosa_pay_application.Protocol.Amounts.{native_xlm}
use rosa_pay_application.Protocol.Validation.{validate_payment_intent, check_expiry}
use rosa_pay_application.Stellar.Signature.{parse_signed_payment_intent}
use rosa_pay_application.Api.Profiles.{MerchantProfile, Table, find_by_owner}
use rosa_pay_application.Api.Access.{
  ApiPrincipal, DeviceSession, resolve_principal, authorize_merchant_intent,
}
use rosa_pay_application.Api.Access.Owned.{In}
use rosa_pay_application.Api.Admission.{
  ApiError, PaymentIntentPolicy, status_of, check_policy, admit_payment_intent,
}
use rosa_pay_application.Api.Intents.Records.{StoredIntent}
use rosa_pay_application.Api.Intents.Store.{Repo}
use rosa_pay_application.Api.Intents.Interleave.{pure, throw, branch, read, call, interfere, ◌>>=◌}
use rosa_pay_application.Api.Intents.Service.{create}
use rosa_pay_application.Api.Intents.Transitions.{alone}
use rosa_pay_application.Domain.Payment.{created}
use rosa_pay_application.Api.Admission.Posted.{post_payment_intent}
use rosa_pay_application.Api.Admission.Refusals.{IsRefusal}
use rosa_pay_application.Api.Admission.Refused.{IsTaken, post_payment_intent-refused}
use rosa_pay_application.Api.Admission.Admitted.{IsLive, admit_payment_intent-checked}

abbrev formats : Formats
formats = record { is_uuid = λ s. true; is_datetime = λ s. true }

abbrev session : DeviceSession
session = record { user_id = "u"; public_signer = "key" }

abbrev table : Table
table =
    (
      "m",
      record {
        id = "m";
        user_id = some "u";
        display_name = "Cafe";
        email = none;
        recipient = "GA";
        signing_key = "GA";
        network = testnet;
      },
    )
    ∷ []

abbrev body : SignedPaymentIntentV1
body = record {
  intent = record {
    intent_id = "i";
    network = testnet;
    merchant_profile_id = "m";
    merchant_name = "Cafe";
    merchant_signing_key = "GAAAAAAAAAAAAAAAAAAAAAAAAAAAAAAAAAAAAAAAAAAAAAAAAAAAAWHF";
    recipient = "GAAAAAAAAAAAAAAAAAAAAAAAAAAAAAAAAAAAAAAAAAAAAAAAAAAAAWHF";
    asset = native_xlm;
    amount = "2.5";
    reference = "coffee";
    nonce = "0123456789abcdef";
    expires_at_ledger = 160;
    created_at = "2026-01-01T00:00:00Z";
  };
  signature = "s";
}

abbrev deployment : PaymentIntentPolicy
deployment = record { network = testnet; latest_ledger = some 100; max_ledger_lifetime = none }

admitted :
    admit_payment_intent formats true
      (some deployment)
      (ok (resolve_principal (some session) table none))
      (some "intent-0123456789")
      body
    ≡ ok (body, "intent-0123456789")
unfolding admit_payment_intent check_policy parse_signed_payment_intent authorize_merchant_intent
    resolve_principal find_by_owner validate_payment_intent check_expiry parse_payment_intent
    is_payment_intent is_entity_id is_stellar_address is_asset asset_issues is_canonical_amount
    canonical_pieces is_whole ends_nonzero split trim trim_start trim_end is_space all_digits
admitted = refl

admit_payment_intent-checked_example :
    (parse_signed_payment_intent formats body ≡ some body)
    × IsLive deployment body.intent
    × ((profile : MerchantProfile) × (profile.id ≡ body.intent.merchant_profile_id)
        × (profile.user_id ≡ some session.user_id)
        × In profile (values table))
admit_payment_intent-checked_example =
    admit_payment_intent-checked formats true deployment session table none
      (some "intent-0123456789") body body "intent-0123456789" admitted

-- The id of the request is there already, under another key.
abbrev stored : StoredIntent
stored = record {
  payload = body;
  payload_hash = "h";
  idempotency_key = "first-request-key";
  status = created;
}

abbrev kept : Repo
kept = record {
  by_id = ("i", stored) ∷ [];
  by_idempotency_key = ("first-request-key", stored) ∷ [];
  settlements = [];
  authorizations = [];
  countersignatures = [];
  created_at = [];
}

abbrev hash : SignedPaymentIntentV1 → String
hash payload = "h"

abbrev recorded : StoredIntent → Result ApiError (Unit {0})
recorded s = ok tt

abbrev caller : Result ApiError (Option ApiPrincipal)
caller = ok (resolve_principal (some session) table none)

taken :
    (post_payment_intent hash recorded 0 formats true
      (some deployment)
      caller
      (some "intent-0123456789")
      body
      (alone kept)).0
    ≡ err ApiError.intent_conflict
unfolding post_payment_intent create get pure throw branch read call interfere ◌>>=◌
taken = rw admitted refl

post_payment_intent-refused_example :
    (((post_payment_intent hash recorded 0 formats true
          (some deployment)
          caller
          (some "intent-0123456789")
          body
          (alone kept)).1.repo
        ≡ kept)
      × ((caller ≡ err ApiError.intent_conflict)
          ⊎ (IsRefusal (some deployment) ApiError.intent_conflict
              ⊎ ((status_of ApiError.intent_conflict ≡ 409)
                  × IsTaken formats hash (some "intent-0123456789") body kept))))
    ⊎ ((s : StoredIntent) × (recorded s ≡ err ApiError.intent_conflict))
post_payment_intent-refused_example =
    post_payment_intent-refused hash recorded 0 formats true (some deployment) caller
      (some "intent-0123456789") body kept ApiError.intent_conflict taken
