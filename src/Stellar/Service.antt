-- ===== src/Stellar/Service.antt =====
-- `settleSignedPayment` of packages/stellar/src/settlementService.ts: the guards in front of the
-- pipeline. `E` is what the client throws.
pub mod Cleared
mod Tests
use rosa_pay_application.Base.{
  ℕ, ℤ, pos, negsuc, String, Bool, true, false, not, ◌&&◌, Option, none, some, List, [], ◌∷◌,
  Result, ok, err, ltb, leb, length, str_eq, if◌then◌else◌, guard, ◌>>=◌, ◌>>◌,
}
use rosa_pay_application.Base.Text.{is_empty, trim}
use rosa_pay_application.Protocol.Schema.{
  Network, testnet, pubnet, PaymentIntentV1, SignedPaymentIntentV1,
}
use rosa_pay_application.Protocol.Schema.Parsing.{Formats}
use rosa_pay_application.Protocol.Amounts.{given_or, max_intent_acceptance_ledgers}
use rosa_pay_application.Protocol.Validation.{IntentPolicyError, validate_payment_intent}
use rosa_pay_application.Stellar.SwapFunding.{SwapFundingError, assert_funding_path}
use rosa_pay_application.Stellar.Signature.{
  Ed25519, parse_signed_payment_intent, verify_merchant_signature,
}
use rosa_pay_application.Stellar.Envelope.{
  Sdk, EnvelopeError, SettlementEnvelope, SignedSettlementEnvelope, ContractPaymentIntent,
  build_settlement_envelope, attach_merchant_contract_signature,
}
use rosa_pay_application.Stellar.Pipeline.{
  SettlementFunding, PipelineClient, PipelineError, PipelineInput, Receipt, Effect, settle_payment,
}

pub data StellarNetwork : Type 0 where
  on_testnet on_pubnet on_local : StellarNetwork

pub record StellarConfig : Type 0 where
  pub network : StellarNetwork
  pub network_passphrase : String
  pub settlement_contract_id : Option String

pub record ServiceInput (E : Type 0) : Type 0 where
  pub payload : SignedPaymentIntentV1
  pub config : StellarConfig
  pub customer_address : String
  pub relayer_address : String
  pub latest_ledger : ℕ
  pub merchant_contract_signature : List ℕ
  pub has_customer_signer : Bool
  pub has_authorize_entry : Bool
  pub funding : Option SettlementFunding
  pub client : Option (PipelineClient E ContractPaymentIntent)
  pub max_ledger_lifetime : Option ℕ

pub data ServiceError (E : Type 0) : Type 0 where
  invalid_intent invalid_merchant_signature contract_signature_required : ServiceError E
  relayer_required invalid_funding_path contract_required : ServiceError E
  invalid_envelope : EnvelopeError → ServiceError E
  stopped : PipelineError E → ServiceError E

-- `input.config.network === 'pubnet' ? 'pubnet' : 'testnet'`
abbrev pub policy_network : StellarNetwork → Network
policy_network on_pubnet = pubnet
policy_network on_testnet = testnet
policy_network on_local = testnet

abbrev pub is_positive : ℤ → Bool
is_positive (pos n) = ltb 0 n
is_positive (negsuc n) = false

-- What passes all the guards.
pub record ClearedPayment : Type 0 where
  pub intent : SignedPaymentIntentV1
  pub signed : SignedSettlementEnvelope

module _ {E : Type 0} where
  abbrev pub parsed_or_throw :
      Option SignedPaymentIntentV1 → Result (ServiceError E) SignedPaymentIntentV1
  parsed_or_throw none = err invalid_intent
  parsed_or_throw (some payload) = ok payload

  abbrev pub policy_or_throw :
      Result IntentPolicyError PaymentIntentV1 → Result (ServiceError E) (Unit {0})
  policy_or_throw (ok intent) = ok tt
  policy_or_throw (err e) = err invalid_intent

  abbrev pub envelope_or_throw : {A : Type 0} → Result EnvelopeError A → Result (ServiceError E) A
  envelope_or_throw (ok a) = ok a
  envelope_or_throw (err e) = err (invalid_envelope e)

  abbrev pub path_or_throw : Result SwapFundingError (Unit {0}) → Result (ServiceError E) (Unit {0})
  path_or_throw (ok u) = ok tt
  path_or_throw (err e) = err invalid_funding_path

  unfoldable pub check_funding :
      Option SettlementFunding → String → Result (ServiceError E) (Unit {0})
  check_funding none token = ok tt
  check_funding (some funding) token =
      path_or_throw (assert_funding_path funding.path token)
      >> guard (is_positive funding.amount_in_max) invalid_funding_path

  -- `input.client ?? createSettlementClient(...)`; the generated client wants a contract.
  unfoldable pub client_of :
      Option (PipelineClient E ContractPaymentIntent)
      → PipelineClient E ContractPaymentIntent
      → String
      → Result (ServiceError E) (PipelineClient E ContractPaymentIntent)
  client_of (some client) generated contract = ok client
  client_of none generated contract =
      if is_empty contract then err contract_required else ok generated

  abbrev pub stop_or_return : Result (PipelineError E) Receipt → Result (ServiceError E) Receipt
  stop_or_return (ok receipt) = ok receipt
  stop_or_return (err e) = err (stopped e)

module _ {E : Type 0} (sdk : Sdk) (curve : Ed25519) (formats : Formats) where
  -- The checks on the request, the signatures and the addresses, to the signed envelope.
  unfoldable pub clear_payment : ServiceInput E → Result (ServiceError E) ClearedPayment
  clear_payment input =
      parsed_or_throw (parse_signed_payment_intent formats input.payload) >>= (λ intent.
        policy_or_throw (
          validate_payment_intent intent.intent (record {
            network = policy_network input.config.network;
            latest_ledger = some input.latest_ledger;
            max_ledger_lifetime =
                some (given_or max_intent_acceptance_ledgers input.max_ledger_lifetime);
          }))
        >> (guard (verify_merchant_signature curve formats intent) invalid_merchant_signature
            >> (guard (ltb 0 (length input.merchant_contract_signature)) contract_signature_required
                >> (guard (not (is_empty (trim input.relayer_address))) relayer_required
                    >> (guard (not (str_eq input.relayer_address input.customer_address))
                          relayer_required
                        >> (envelope_or_throw (
                              build_settlement_envelope sdk formats intent.intent (record {
                                customer = input.customer_address;
                                network_passphrase = input.config.network_passphrase;
                                settlement_contract_id =
                                    given_or "" input.config.settlement_contract_id;
                              }))
                            >>= (λ envelope.
                                envelope_or_throw (
                                  attach_merchant_contract_signature envelope
                                    input.merchant_contract_signature)
                                >>= (λ signed.
                                    check_funding input.funding envelope.intent.token
                                    >> ok (record { intent = intent; signed = signed })))))))))

  abbrev pub pipeline_input :
      ServiceInput E
      → ClearedPayment
      → PipelineClient E ContractPaymentIntent
      → PipelineInput E ContractPaymentIntent
  pipeline_input input cleared client = record {
    client = client;
    intent = cleared.signed.envelope.intent;
    merchant_signature = cleared.signed.merchant_signature;
    has_customer_signer = input.has_customer_signer;
    has_authorize_entry = input.has_authorize_entry;
    funding = input.funding;
  }

  abbrev pub settle_with :
      ServiceInput E
      → ClearedPayment
      → PipelineClient E ContractPaymentIntent
      → Result (ServiceError E) Receipt × List Effect
  settle_with input cleared client =
      let (result, log) = settle_payment (pipeline_input input cleared client) in
      (stop_or_return result, log)

  abbrev pub settle_cleared :
      PipelineClient E ContractPaymentIntent
      → ServiceInput E
      → Result (ServiceError E) ClearedPayment
      → Result (ServiceError E) Receipt × List Effect
  settle_cleared generated input (err e) = (err e, [])
  settle_cleared generated input (ok cleared) =
      elim (client_of input.client generated (given_or "" input.config.settlement_contract_id)) [
        | err e ↦ (err e, [])
        | ok client ↦ settle_with input cleared client
      ]

  unfoldable pub settle_signed_payment :
      PipelineClient E ContractPaymentIntent
      → ServiceInput E
      → Result (ServiceError E) Receipt × List Effect
  settle_signed_payment generated input = settle_cleared generated input (clear_payment input)
