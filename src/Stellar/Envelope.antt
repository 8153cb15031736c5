-- ===== src/Stellar/Envelope.antt =====
-- packages/stellar/src/settlementEnvelope.ts: a payment request as the typed argument of the settlement
-- contract. What the Stellar SDK and the hashes do is the record `Sdk`; bytes are lists of numbers.
pub mod Sound
use rosa_pay_application.Base.{
  ℕ, ◌-◌, ◌^◌, String, Bool, true, false, not, ◌&&◌, Option, none, some, List, [], ◌∷◌, Result, ok,
  err, ltb, leb, length, ◌==◌, str_eq, if◌then◌else◌, guard, ◌>>=◌, ◌>>◌,
}
use rosa_pay_application.Base.Pieces.{append}
use rosa_pay_application.Protocol.Schema.{
  Network, testnet, pubnet, AssetType, native, credit, sac, PaymentAsset, PaymentIntentV1, is_some,
}
use rosa_pay_application.Protocol.Schema.Parsing.{Formats, parse_payment_intent}
use rosa_pay_application.Stellar.Amounts.{AmountError, decimal_to_contract_amount}

pub record Sdk : Type 0 where
  pub is_address : String → Bool
  pub is_valid_contract : String → Bool
  pub is_valid_public_key : String → Bool
  -- `hash` of the UTF-8 bytes of a text.
  pub hash : String → List ℕ
  pub hash_payment_intent : PaymentIntentV1 → List ℕ
  pub native_contract_id : String → String
  -- `new Asset(code, issuer).contractId(passphrase)`, which may throw.
  pub credit_contract_id : String → String → String → Option String
  pub testnet_passphrase : String
  pub public_passphrase : String

pub data EnvelopeError : Type 0 where
  unparsable wrong_network invalid_address invalid_ledger invalid_signature : EnvelopeError
  invalid_amount : AmountError → EnvelopeError

pub record EnvelopeContext : Type 0 where
  pub customer : String
  pub network_passphrase : String
  pub settlement_contract_id : String

pub record ContractPaymentIntent : Type 0 where
  pub amount : ℕ
  pub customer : String
  pub expires_at_ledger : ℕ
  pub intent_id : List ℕ
  pub merchant_id : List ℕ
  pub network_id : List ℕ
  pub nonce : List ℕ
  pub recipient : String
  pub settlement_contract : String
  pub token : String

pub record SettlementEnvelope : Type 0 where
  pub intent : ContractPaymentIntent
  pub rtp_intent_hash : List ℕ

pub record SignedSettlementEnvelope : Type 0 where
  pub envelope : SettlementEnvelope
  pub merchant_signature : List ℕ

-- `value.byteLength !== 64`
unfoldable pub attach_merchant_contract_signature :
    SettlementEnvelope → List ℕ → Result EnvelopeError SignedSettlementEnvelope
attach_merchant_contract_signature envelope signature =
    guard (length signature == 64) invalid_signature
    >> ok (record { envelope = envelope; merchant_signature = signature })

module _ (sdk : Sdk) where
  unfoldable pub settlement_intent_id : String → List ℕ
  settlement_intent_id value = sdk.hash (append "RosaPay/Settlement/IntentId\0" value)

  unfoldable pub settlement_merchant_id : String → List ℕ
  settlement_merchant_id value = sdk.hash (append "RosaPay/Settlement/MerchantId\0" value)

  unfoldable pub settlement_nonce : String → List ℕ
  settlement_nonce value = sdk.hash (append "RosaPay/Settlement/Nonce\0" value)

  -- A contract identifier that is there and valid; the empty text is falsy.
  abbrev pub sac_contract : Option String → Result EnvelopeError String
  sac_contract none = err invalid_address
  sac_contract (some id) =
      if not (str_eq id "") && sdk.is_valid_contract id then ok id else err invalid_address

  abbrev pub found_contract : Option String → Result EnvelopeError String
  found_contract none = err invalid_address
  found_contract (some id) = ok id

  abbrev pub credit_contract : String → Option String → String → Result EnvelopeError String
  credit_contract code none passphrase = err invalid_address
  credit_contract code (some issuer) passphrase =
      let found = found_contract (sdk.credit_contract_id code issuer passphrase) in
      if not (str_eq issuer "") && sdk.is_valid_public_key issuer
      then found
      else err invalid_address

  unfoldable pub asset_contract_id : PaymentAsset → String → Result EnvelopeError String
  asset_contract_id asset passphrase = elim asset.type [
    | sac ↦ sac_contract asset.contract_id
    | native ↦ ok (sdk.native_contract_id passphrase)
    | credit ↦ credit_contract asset.code asset.issuer passphrase
  ]

  abbrev pub expected_passphrase : Network → String
  expected_passphrase testnet = sdk.testnet_passphrase
  expected_passphrase pubnet = sdk.public_passphrase

  abbrev pub converted : {A : Type 0} → Result AmountError A → Result EnvelopeError A
  converted (ok a) = ok a
  converted (err e) = err (invalid_amount e)

  abbrev pub parsed_or_throw : Option PaymentIntentV1 → Result EnvelopeError PaymentIntentV1
  parsed_or_throw none = err unparsable
  parsed_or_throw (some intent) = ok intent

  -- The guards of `buildSettlementEnvelope` on a request that is parsed.
  unfoldable pub check_envelope :
      PaymentIntentV1 → EnvelopeContext → Result EnvelopeError (Unit {0})
  check_envelope intent context =
      guard (str_eq context.network_passphrase (expected_passphrase intent.network)) wrong_network
      >> (guard (sdk.is_address context.customer) invalid_address
          >> (guard (sdk.is_address intent.recipient) invalid_address
              >> (guard (sdk.is_valid_contract context.settlement_contract_id) invalid_address
                  >> guard (leb intent.expires_at_ledger 4294967295) invalid_ledger)))

  abbrev pub envelope_of : PaymentIntentV1 → EnvelopeContext → ℕ → String → SettlementEnvelope
  envelope_of intent context amount token = record {
    intent = record {
      amount = amount;
      customer = context.customer;
      expires_at_ledger = intent.expires_at_ledger;
      intent_id = settlement_intent_id intent.intent_id;
      merchant_id = settlement_merchant_id intent.merchant_profile_id;
      network_id = sdk.hash context.network_passphrase;
      nonce = settlement_nonce intent.nonce;
      recipient = intent.recipient;
      settlement_contract = context.settlement_contract_id;
      token = token;
    };
    rtp_intent_hash = sdk.hash_payment_intent intent;
  }

  unfoldable pub build_settlement_envelope :
      Formats → PaymentIntentV1 → EnvelopeContext → Result EnvelopeError SettlementEnvelope
  build_settlement_envelope formats input context =
      parsed_or_throw (parse_payment_intent formats input) >>= (λ intent.
        check_envelope intent context
        >> (converted (decimal_to_contract_amount intent.amount intent.asset.decimals)
            >>= (λ amount.
                asset_contract_id intent.asset context.network_passphrase
                >>= (λ token. ok (envelope_of intent context amount token)))))
