-- ===== src/Stellar/Service/Tests.antt =====
-- A signed request for 24.5 lumens, with keys and hashes of a few bytes.
use rosa_pay_application.Base.{
  ℕ, ◌≡◌, refl, String, true, false, none, some, List, [], ◌∷◌, ◌⊎◌, ok, err, replicate,
}
use rosa_pay_application.Base.Text.{trim, trim_start, trim_end, is_space}
use rosa_pay_application.Base.Pieces.{split}
use rosa_pay_application.Base.Decimal.{all_digits, is_whole, ends_nonzero}
use rosa_pay_application.Protocol.Schema.{testnet, PaymentIntentV1, asset_issues}
use rosa_pay_application.Protocol.Schema.Parsing.{
  Formats, is_canonical_amount, canonical_pieces, parse_payment_intent, is_payment_intent,
  is_entity_id, is_stellar_address, is_asset,
}
use rosa_pay_application.Protocol.Amounts.{native_xlm}
use rosa_pay_application.Stellar.Signature.{
  Ed25519, sign_merchant_intent, merchant_signing_key_from_secret, verify_merchant_signature,
}
use rosa_pay_application.Stellar.Signature.Verified.{IsEd25519, verify_merchant_signature-signed}
use rosa_pay_application.Stellar.Envelope.{Sdk, EnvelopeContext}
use rosa_pay_application.Stellar.Pipeline.{PipelineClient}
use rosa_pay_application.Stellar.Envelope.{ContractPaymentIntent}
use rosa_pay_application.Stellar.Service.{
  ServiceInput, ClearedPayment, settle_with, settle_signed_payment, on_testnet,
}
use rosa_pay_application.Stellar.Service.Cleared.{IsCleared, settle_signed_payment-IsCleared}

abbrev formats : Formats
formats = record { is_uuid = λ s. true; is_datetime = λ s. true }

abbrev merchant_key : String
merchant_key = "GAAAAAAAAAAAAAAAAAAAAAAAAAAAAAAAAAAAAAAAAAAAAAAAAAAAAWHF"

abbrev request : PaymentIntentV1
request = record {
  intent_id = "i";
  network = testnet;
  merchant_profile_id = "m";
  merchant_name = "Cafe";
  merchant_signing_key = merchant_key;
  recipient = merchant_key;
  asset = native_xlm;
  amount = "24.5";
  reference = "coffee";
  nonce = "0123456789abcdef";
  expires_at_ledger = 160;
  created_at = "2026-01-01T00:00:00Z";
}

abbrev sdk : Sdk
sdk = record {
  is_address = λ s. true;
  is_valid_contract = λ s. true;
  is_valid_public_key = λ s. true;
  hash = λ s. [];
  hash_payment_intent = λ i. [];
  native_contract_id = λ p. "native";
  credit_contract_id = λ c i p. none;
  testnet_passphrase = "test";
  public_passphrase = "public";
}

abbrev context : EnvelopeContext
context = record { customer = "C"; network_passphrase = "test"; settlement_contract_id = "S" }

-- A curve with one key, which is the merchant's, and one signature.
abbrev curve : Ed25519
curve = record {
  sign = λ message secret. 7 ∷ [];
  verify = λ signature message key. true;
  public_key = λ secret. 1 ∷ [];
  encode_key = λ key. merchant_key;
  decode_key = λ s. some (1 ∷ []);
  to_base64 = λ bytes. "s";
  from_base64 = λ s. some (7 ∷ []);
  message_of = λ i. [];
}

curve-IsEd25519 : IsEd25519 curve
curve-IsEd25519 = record {
  verifies = λ secret message. refl;
  keys = λ secret. refl;
  base64 = λ secret message. refl;
  written = λ secret message. refl;
}

abbrev secret : List ℕ
secret = replicate 32 5

parsed : parse_payment_intent formats request ≡ some request
unfolding parse_payment_intent is_payment_intent is_entity_id is_stellar_address is_asset
    asset_issues is_canonical_amount canonical_pieces is_whole ends_nonzero split trim trim_start
    trim_end is_space all_digits
parsed = refl

was_signed : sign_merchant_intent curve formats request secret ≡ ok "s"
unfolding sign_merchant_intent parse_payment_intent is_payment_intent is_entity_id
    is_stellar_address is_asset asset_issues is_canonical_amount canonical_pieces is_whole
    ends_nonzero split trim trim_start trim_end is_space all_digits
was_signed = refl

named : merchant_signing_key_from_secret curve formats secret ≡ ok merchant_key
unfolding merchant_signing_key_from_secret
named = refl

verify_merchant_signature-signed_example :
    verify_merchant_signature curve formats (record { intent = request; signature = "s" }) ≡ true
verify_merchant_signature-signed_example =
    verify_merchant_signature-signed curve formats secret request request "s" curve-IsEd25519 parsed
      was_signed named

abbrev client : PipelineClient String ContractPaymentIntent
client = record { settle_payment = λ i s. err "offline"; settle_payment_with_swap = none }

abbrev input : ServiceInput String
input = record {
  payload = record { intent = request; signature = "s" };
  config = record {
    network = on_testnet;
    network_passphrase = "test";
    settlement_contract_id = some "S";
  };
  customer_address = "C";
  relayer_address = "R";
  latest_ledger = 100;
  merchant_contract_signature = replicate 64 1;
  has_customer_signer = true;
  has_authorize_entry = false;
  funding = none;
  client = none;
  max_ledger_lifetime = none;
}

settle_signed_payment-IsCleared_example :
    ((settle_signed_payment sdk curve formats client input).1 ≡ [])
    ⊎ ((cleared : ClearedPayment) × (c : PipelineClient String ContractPaymentIntent) × IsCleared
          sdk curve formats input cleared
        × (settle_signed_payment sdk curve formats client input
            ≡ settle_with sdk curve formats input cleared c))
settle_signed_payment-IsCleared_example =
    settle_signed_payment-IsCleared sdk curve formats client input
