-- ===== src/Api/Access/Tests.antt =====
-- A merchant who puts in a request for its own profile.
use rosa_pay_application.Base.{◌≡◌, refl, true, none, some, [], ◌∷◌, ok}
use rosa_pay_application.Base.Dict.{values}
use rosa_pay_application.Protocol.Schema.{testnet, native, SignedPaymentIntentV1}
use rosa_pay_application.Api.Profiles.{MerchantProfile, Table, find_by_owner}
use rosa_pay_application.Api.Access.{DeviceSession, resolve_principal, authorize_merchant_intent}
use rosa_pay_application.Api.Access.Owned.{In, authorize_merchant_intent-owned}

abbrev session : DeviceSession
session = record { user_id = "u"; public_signer = "key" }

abbrev table : Table
table =
    (
      "m",
      record {
        id = "m";
        user_id = some "u";
        display_name = "Cafe";
        email = none;
        recipient = "GA";
        signing_key = "GA";
        network = testnet;
      },
    )
    ∷ []

abbrev payload : SignedPaymentIntentV1
payload = record {
  intent = record {
    intent_id = "i";
    network = testnet;
    merchant_profile_id = "m";
    merchant_name = "Cafe";
    merchant_signing_key = "GA";
    recipient = "GA";
    asset = record { type = native; code = "XLM"; issuer = none; contract_id = none; decimals = 7 };
    amount = "2.5";
    reference = "coffee";
    nonce = "0123456789abcdef";
    expires_at_ledger = 160;
    created_at = "2026-01-01T00:00:00Z";
  };
  signature = "s";
}

let_through :
    authorize_merchant_intent true (resolve_principal (some session) table none) payload
    ≡ ok payload
unfolding authorize_merchant_intent resolve_principal find_by_owner
let_through = refl

authorize_merchant_intent-owned_example :
    (payload ≡ payload)
    × ((profile : MerchantProfile) × (profile.id ≡ payload.intent.merchant_profile_id)
        × (profile.user_id ≡ some session.user_id)
        × In profile (values table))
authorize_merchant_intent-owned_example =
    authorize_merchant_intent-owned true session table none payload payload let_through
