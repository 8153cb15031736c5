-- ===== src/Protocol/Amounts.antt =====
-- `normalizePaymentAmount` and `createPaymentIntent` of packages/protocol/src/intentFactory.ts.
pub mod Canonical
pub mod Created
mod Tests
use rosa_pay_application.Base.{
  ℕ, ◌+◌, String, Bool, true, false, not, ◌&&◌, ◌||◌, Option, none, some, List, [], ◌∷◌, Result, ok,
  err, ltb, leb, if◌then◌else◌, str_eq,
}
use rosa_pay_application.Base.Text.{is_empty, trim}
use rosa_pay_application.Base.Pieces.{split}
use rosa_pay_application.Base.Decimal.{is_number, size, strip_end, strip_start}
use rosa_pay_application.Base.Decimal.Points.{pointed}
use rosa_pay_application.Protocol.Schema.{Network, native, PaymentAsset, PaymentIntentV1}
use rosa_pay_application.Protocol.Schema.Parsing.{Formats, parse_payment_intent}

pub data FactoryError : Type 0 where
  not_a_decimal decimals_out_of_range too_many_places not_positive : FactoryError
  ledger_required lifetime_out_of_range : FactoryError

-- What follows the test of the pattern, on the two sides of the point.
unfoldable pub normalized : String → String → ℕ → Result FactoryError String
normalized whole fraction decimals =
    if ltb 18 decimals
    then err decimals_out_of_range
    else if ltb decimals (size fraction)
    then err too_many_places
    else if str_eq (strip_start whole) "0" && is_empty (strip_end fraction)
    then err not_positive
    else ok (pointed (strip_start whole) (strip_end fraction))

-- The pieces at the points of the trimmed text, tested for `/^\d+(\.\d+)?$/`.
unfoldable pub normalize_pieces : List String → ℕ → Result FactoryError String
normalize_pieces [] decimals = err not_a_decimal
normalize_pieces (whole ∷ []) decimals =
    if is_number whole then normalized whole "" decimals else err not_a_decimal
normalize_pieces (whole ∷ fraction ∷ []) decimals =
    if is_number whole && is_number fraction
    then normalized whole fraction decimals
    else err not_a_decimal
normalize_pieces (whole ∷ fraction ∷ more ∷ rest) decimals = err not_a_decimal

unfoldable pub normalize_payment_amount : String → ℕ → Result FactoryError String
normalize_payment_amount value decimals = normalize_pieces (split b'.' (trim value)) decimals

abbrev pub native_xlm : PaymentAsset
native_xlm = record { type = native; code = "XLM"; issuer = none; contract_id = none; decimals = 7 }

abbrev pub default_intent_lifetime_ledgers : ℕ
default_intent_lifetime_ledgers = 60

abbrev pub max_intent_lifetime_ledgers : ℕ
max_intent_lifetime_ledgers = 60

abbrev pub max_intent_acceptance_ledgers : ℕ
max_intent_acceptance_ledgers = max_intent_lifetime_ledgers + 12

pub record MerchantProfileSummary : Type 0 where
  pub merchant_profile_id : String
  pub merchant_name : String
  pub merchant_signing_key : String
  pub recipient : String
  pub network : Network

pub record CreatePaymentIntentInput : Type 0 where
  pub profile : MerchantProfileSummary
  pub amount : String
  pub reference : String
  pub latest_ledger : ℕ
  pub intent_id : String
  pub nonce : String
  pub created_at : String
  pub asset : Option PaymentAsset
  pub lifetime_ledgers : Option ℕ

-- `value ?? otherwise`
abbrev pub given_or : {A : Type 0} → A → Option A → A
given_or otherwise none = otherwise
given_or otherwise (some value) = value

-- The request that is handed to the schema.
abbrev pub drafted : CreatePaymentIntentInput → ℕ → PaymentAsset → String → PaymentIntentV1
drafted input lifetime asset amount = record {
  intent_id = input.intent_id;
  network = input.profile.network;
  merchant_profile_id = input.profile.merchant_profile_id;
  merchant_name = trim input.profile.merchant_name;
  merchant_signing_key = input.profile.merchant_signing_key;
  recipient = input.profile.recipient;
  asset = asset;
  amount = amount;
  reference = trim input.reference;
  nonce = input.nonce;
  expires_at_ledger = input.latest_ledger + lifetime;
  created_at = input.created_at;
}

-- `Number.isSafeInteger(n) && n > 0`, of a number that is not negative and whole.
abbrev pub is_positive_safe : ℕ → Bool
is_positive_safe n = ltb 0 n && leb n 9007199254740991

-- The call of the schema, once the amount is normalized; `none` is a request that it refuses.
unfoldable pub parse_draft :
    Formats
    → CreatePaymentIntentInput
    → ℕ
    → PaymentAsset
    → Result FactoryError String
    → Result FactoryError (Option PaymentIntentV1)
parse_draft formats input lifetime asset (err e) = err e
parse_draft formats input lifetime asset (ok amount) =
    ok (parse_payment_intent formats (drafted input lifetime asset amount))

unfoldable pub create_payment_intent :
    Formats → CreatePaymentIntentInput → Result FactoryError (Option PaymentIntentV1)
create_payment_intent formats input =
    let asset = given_or native_xlm input.asset in
    let lifetime = given_or default_intent_lifetime_ledgers input.lifetime_ledgers in
    if not (is_positive_safe input.latest_ledger)
    then err ledger_required
    else if not (is_positive_safe lifetime) || ltb max_intent_lifetime_ledgers lifetime
    then err lifetime_out_of_range
    else parse_draft formats input lifetime asset
        (normalize_payment_amount input.amount asset.decimals)
