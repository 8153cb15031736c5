-- ===== src/Protocol/Amounts/Tests.antt =====
-- An amount from a keypad, and the request that is made with it.
use rosa_pay_application.Base.{◌≡◌, refl, none, some, ok, arith, true}
use rosa_pay_application.Base.Text.{trim, trim_start, trim_end, is_space}
use rosa_pay_application.Base.Pieces.{split}
use rosa_pay_application.Base.Decimal.{
  all_digits, size, strip_end, strip_start, ends_nonzero, is_whole,
}
use rosa_pay_application.Protocol.Schema.{testnet, PaymentIntentV1, asset_issues}
use rosa_pay_application.Protocol.Schema.Parsing.{
  Formats, is_canonical_amount, canonical_pieces, parse_payment_intent, is_payment_intent,
  is_entity_id, is_stellar_address, is_asset,
}
use rosa_pay_application.Protocol.Validation.{validate_payment_intent}
use rosa_pay_application.Protocol.Amounts.{
  normalize_payment_amount, normalize_pieces, normalized, CreatePaymentIntentInput, native_xlm,
  parse_draft, create_payment_intent, max_intent_acceptance_ledgers,
}
use rosa_pay_application.Protocol.Amounts.Canonical.{normalize_payment_amount-canonical}
use rosa_pay_application.Protocol.Amounts.Created.{create_payment_intent-accepted}

keypad : normalize_payment_amount " 024.50 " 7 ≡ ok "24.5"
unfolding normalize_payment_amount normalize_pieces normalized split trim trim_start trim_end
    is_space all_digits size strip_end strip_start
keypad = refl

normalize_payment_amount-canonical_example :
    (is_canonical_amount "24.5" ≡ true) × (normalize_payment_amount "24.5" 7 ≡ ok "24.5")
normalize_payment_amount-canonical_example =
    normalize_payment_amount-canonical " 024.50 " 7 "24.5" keypad

abbrev formats : Formats
formats = record { is_uuid = λ s. true; is_datetime = λ s. true }

abbrev input : CreatePaymentIntentInput
input = record {
  profile = record {
    merchant_profile_id = "m";
    merchant_name = "Cafe ";
    merchant_signing_key = "GAAAAAAAAAAAAAAAAAAAAAAAAAAAAAAAAAAAAAAAAAAAAAAAAAAAAWHF";
    recipient = "GAAAAAAAAAAAAAAAAAAAAAAAAAAAAAAAAAAAAAAAAAAAAAAAAAAAAWHF";
    network = testnet;
  };
  amount = "024.50";
  reference = "coffee";
  latest_ledger = 100;
  intent_id = "i";
  nonce = "0123456789abcdef";
  created_at = "2026-01-01T00:00:00Z";
  asset = none;
  lifetime_ledgers = none;
}

abbrev made : PaymentIntentV1
made = record {
  intent_id = "i";
  network = testnet;
  merchant_profile_id = "m";
  merchant_name = "Cafe";
  merchant_signing_key = "GAAAAAAAAAAAAAAAAAAAAAAAAAAAAAAAAAAAAAAAAAAAAAAAAAAAAWHF";
  recipient = "GAAAAAAAAAAAAAAAAAAAAAAAAAAAAAAAAAAAAAAAAAAAAAAAAAAAAWHF";
  asset = native_xlm;
  amount = "24.5";
  reference = "coffee";
  nonce = "0123456789abcdef";
  expires_at_ledger = 160;
  created_at = "2026-01-01T00:00:00Z";
}

created : create_payment_intent formats input ≡ ok (some made)
unfolding create_payment_intent parse_draft parse_payment_intent is_payment_intent is_entity_id
    is_stellar_address is_asset asset_issues is_canonical_amount canonical_pieces is_whole
    ends_nonzero normalize_payment_amount normalize_pieces normalized split trim trim_start trim_end
    is_space all_digits size strip_end strip_start
created = refl

-- A reader that is ten ledgers behind.
create_payment_intent-accepted_example :
    (parse_payment_intent formats made ≡ some made)
    × (validate_payment_intent made (record {
      network = testnet;
      latest_ledger = some 90;
      max_ledger_lifetime = some max_intent_acceptance_ledgers;
    })
        ≡ ok made)
create_payment_intent-accepted_example =
    create_payment_intent-accepted formats input made 90 created (omega arith) (omega arith)
