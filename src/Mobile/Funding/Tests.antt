-- ===== src/Mobile/Funding/Tests.antt =====
-- A request for lumens, and a wallet that holds enough of them.
use rosa_pay_application.Base.{ℕ, ◌≡◌, ◌==◌, refl, String, true, false, none, some, [], ◌∷◌, ok}
use rosa_pay_application.Base.Text.{trim, trim_start, trim_end, is_space}
use rosa_pay_application.Base.Pieces.{split}
use rosa_pay_application.Base.Decimal.{all_digits, size, read, read_after, pad_end}
use rosa_pay_application.Protocol.Schema.{testnet}
use rosa_pay_application.Protocol.Amounts.{native_xlm}
use rosa_pay_application.Stellar.Amounts.{parse_stroops, parse_pieces}
use rosa_pay_application.Stellar.Envelope.{Sdk, asset_contract_id}
use rosa_pay_application.Mobile.Funding.{
  PayableAsset, FundingOption, direct, FundingChoiceInput, order_of, resolve_funding_choice,
  resolve_all, resolve, resolve_held, sort_options, recommend,
}
use rosa_pay_application.Mobile.Funding.Affordable.{Settles, resolve_funding_choice-Settles}

abbrev sdk : Sdk
sdk = record {
  is_address = λ s. true;
  is_valid_contract = λ s. true;
  is_valid_public_key = λ s. true;
  hash = λ s. [];
  hash_payment_intent = λ i. [];
  native_contract_id = λ p. "native";
  credit_contract_id = λ c i p. none;
  testnet_passphrase = "test";
  public_passphrase = "public";
}

abbrev lumens : PayableAsset
lumens = record { code = "XLM"; asset = native_xlm }

abbrev input : FundingChoiceInput
input = record {
  intent = record {
    intent_id = "i";
    network = testnet;
    merchant_profile_id = "m";
    merchant_name = "Cafe";
    merchant_signing_key = "G";
    recipient = "G";
    asset = native_xlm;
    amount = "2.5";
    reference = "coffee";
    nonce = "0123456789abcdef";
    expires_at_ledger = 160;
    created_at = "2026-01-01T00:00:00Z";
  };
  passphrase = "test";
  slippage_bps = none;
  read_balance = λ contract. some "3";
  quoted = λ path out. none;
  now = 0;
}

abbrev option : FundingOption
option = direct lumens "2.5" "3"

chosen :
    resolve_funding_choice sdk input (lumens ∷ [])
    ≡ ok (record { options = option ∷ []; recommended = some option })
unfolding resolve_funding_choice resolve_all resolve resolve_held sort_options recommend
    asset_contract_id parse_stroops parse_pieces split trim trim_start trim_end is_space all_digits
    size read read_after pad_end
chosen = refl

resolve_funding_choice-Settles_example :
    (token : String) × (amount_out : ℕ) × (asset_contract_id sdk input.intent.asset input.passphrase
      ≡ ok token)
    × (parse_stroops input.intent.amount ≡ ok amount_out)
    × Settles sdk input token amount_out option
    × (order_of option == 2 ≡ false)
resolve_funding_choice-Settles_example =
    resolve_funding_choice-Settles sdk input (lumens ∷ [])
      (record { options = option ∷ []; recommended = some option }) option chosen refl
