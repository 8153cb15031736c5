-- ===== src/Stellar/Service/Cleared.antt =====
-- What has been checked when the pipeline starts.
use rosa_pay_application.Base.{
  ℕ, ◌≡◌, refl, String, Bool, true, false, not, Option, none, some, List, [], Result, ok, err, ltb,
  length, ◌==◌, str_eq, ==_iff, subst, guard, guard_ok, bind_ok, is_ok, ◌⊎◌, inl, inr, arith,
}
use rosa_pay_application.Base.Text.{is_empty, trim}
use rosa_pay_application.Protocol.Schema.{PaymentIntentV1, SignedPaymentIntentV1}
use rosa_pay_application.Protocol.Schema.Parsing.{Formats}
use rosa_pay_application.Protocol.Amounts.{given_or, max_intent_acceptance_ledgers}
use rosa_pay_application.Protocol.Validation.{
  IntentPolicyError, IntentValidationContext, validate_payment_intent,
}
use rosa_pay_application.Stellar.SwapFunding.{SwapFundingError, assert_funding_path}
use rosa_pay_application.Stellar.Signature.{
  Ed25519, parse_signed_payment_intent, verify_merchant_signature,
}
use rosa_pay_application.Stellar.Envelope.{
  Sdk, EnvelopeError, EnvelopeContext, SettlementEnvelope, SignedSettlementEnvelope,
  ContractPaymentIntent, build_settlement_envelope, attach_merchant_contract_signature,
  invalid_signature,
}
use rosa_pay_application.Stellar.Pipeline.{SettlementFunding, PipelineClient, Receipt, Effect}
use rosa_pay_application.Stellar.Service.{
  ServiceInput, ServiceError, ClearedPayment, policy_network, is_positive, parsed_or_throw,
  policy_or_throw, envelope_or_throw, path_or_throw, check_funding, client_of, clear_payment,
  settle_with, settle_cleared, settle_signed_payment, invalid_merchant_signature,
  contract_signature_required, relayer_required, invalid_funding_path,
}

abbrev reader : {E : Type 0} → ServiceInput E → IntentValidationContext
reader input = record {
  network = policy_network input.config.network;
  latest_ledger = some input.latest_ledger;
  max_ledger_lifetime = some (given_or max_intent_acceptance_ledgers input.max_ledger_lifetime);
}

abbrev context : {E : Type 0} → ServiceInput E → EnvelopeContext
context input = record {
  customer = input.customer_address;
  network_passphrase = input.config.network_passphrase;
  settlement_contract_id = given_or "" input.config.settlement_contract_id;
}

-- A way of paying that the envelope's token allows.
abbrev pub IsFunded : Option SettlementFunding → String → Type 0
IsFunded none token = Unit
IsFunded (some funding) token =
    (assert_funding_path funding.path token ≡ ok tt) × (is_positive funding.amount_in_max ≡ true)

-- What a payment has passed before anything is done for it.
pub record IsCleared {E : Type 0} (sdk : Sdk) (curve : Ed25519) (formats : Formats)
    (input : ServiceInput E) (cleared : ClearedPayment) : Type 0 where
  pub parsed : parse_signed_payment_intent formats input.payload ≡ some cleared.intent
  pub policy : is_ok (validate_payment_intent cleared.intent.intent (reader input)) ≡ true
  pub verified : verify_merchant_signature curve formats cleared.intent ≡ true
  pub relayed : is_empty (trim input.relayer_address) ≡ false
  pub separate : str_eq input.relayer_address input.customer_address ≡ false
  pub enveloped :
      build_settlement_envelope sdk formats cleared.intent.intent (context input)
      ≡ ok cleared.signed.envelope
  pub signature_size : length cleared.signed.merchant_signature ≡ 64
  pub signature_is : cleared.signed.merchant_signature ≡ input.merchant_contract_signature
  pub funded : IsFunded input.funding cleared.signed.envelope.intent.token

module _ {E : Type 0} where
  parsed_ok :
      (o : Option SignedPaymentIntentV1) (p : SignedPaymentIntentV1)
      → parsed_or_throw {E = E} o ≡ ok p
      → o ≡ some p
  parsed_ok none p h = ground arith
  parsed_ok (some q) p h = ground arith

  policy_ok :
      (r : Result IntentPolicyError PaymentIntentV1) (u : Unit {0})
      → policy_or_throw {E = E} r ≡ ok u
      → is_ok r ≡ true
  policy_ok (ok i) u h = refl
  policy_ok (err e) u h = ground arith

  envelope_ok :
      {A : Type 0} (r : Result EnvelopeError A) (a : A)
      → envelope_or_throw {E = E} r ≡ ok a
      → r ≡ ok a
  envelope_ok (ok b) a h = ground arith
  envelope_ok (err e) a h = ground arith

  path_ok :
      (r : Result SwapFundingError (Unit {0})) (u : Unit {0})
      → path_or_throw {E = E} r ≡ ok u
      → r ≡ ok tt
  path_ok (ok v) u h = refl
  path_ok (err e) u h = ground arith

  funding_ok :
      (funding : Option SettlementFunding) (token : String) (u : Unit {0})
      → check_funding {E = E} funding token ≡ ok u
      → IsFunded funding token
  unfolding check_funding
  funding_ok none token u h = tt
  funding_ok (some funding) token u h =
      let (v, path, rest) =
        bind_ok (path_or_throw (assert_funding_path funding.path token)) _ u h in
      (
        path_ok (assert_funding_path funding.path token) v path,
        guard_ok (is_positive funding.amount_in_max) invalid_funding_path u rest,
      )

attach_ok :
    (envelope : SettlementEnvelope) (signature : List ℕ) (signed : SignedSettlementEnvelope)
    → attach_merchant_contract_signature envelope signature ≡ ok signed
    → (length signature ≡ 64)
      × (record { envelope = envelope; merchant_signature = signature } ≡ signed)
unfolding attach_merchant_contract_signature
attach_ok envelope signature signed h =
    let (u, sized, made) = bind_ok (guard (length signature == 64) invalid_signature) _ signed h in
    (
      (==_iff (length signature) 64).0
          (guard_ok (length signature == 64) invalid_signature u sized),
      ground arith,
    )

ok_injective : {E A : Type 0} (a b : A) → ◌≡◌ {A = Result E A} (ok a) (ok b) → a ≡ b
ok_injective a b h = ground arith

not-true : (b : Bool) → not b ≡ true → b ≡ false
not-true false h = refl
not-true true h = ground arith

module _ {E : Type 0} (sdk : Sdk) (curve : Ed25519) (formats : Formats) where
  IsCleared-same :
      (input : ServiceInput E) (intent : SignedPaymentIntentV1) (envelope : SettlementEnvelope)
      (signed : SignedSettlementEnvelope)
      → record { envelope = envelope; merchant_signature = input.merchant_contract_signature }
        ≡ signed
      → IsCleared sdk curve formats input (record {
        intent = intent;
        signed = record {
          envelope = envelope;
          merchant_signature = input.merchant_contract_signature;
        };
      })
      → IsCleared sdk curve formats input (record { intent = intent; signed = signed })
  IsCleared-same input intent envelope signed same h =
      subst (λ s. IsCleared sdk curve formats input (record { intent = intent; signed = s })) same h

  of_client :
      (input : ServiceInput E) (cleared : ClearedPayment)
      (client : Result (ServiceError E) (PipelineClient E ContractPaymentIntent))
      → IsCleared sdk curve formats input cleared
      → let outcome : Result (ServiceError E) Receipt × List Effect = elim client [
        | err e ↦ (err e, [])
        | ok c ↦ settle_with sdk curve formats input cleared c
      ] in
        (outcome.1 ≡ [])
        ⊎ ((cleared' : ClearedPayment) × (c : PipelineClient E ContractPaymentIntent) × IsCleared
              sdk curve formats input cleared'
            × (outcome ≡ settle_with sdk curve formats input cleared' c))
  of_client input cleared (err e) h = inl refl
  of_client input cleared (ok client) h = inr (cleared, client, h, refl)

  of_IsCleared :
      (generated : PipelineClient E ContractPaymentIntent) (input : ServiceInput E)
      (clearing : Result (ServiceError E) ClearedPayment)
      → ((c : ClearedPayment) → clearing ≡ ok c → IsCleared sdk curve formats input c)
      → ((settle_cleared sdk curve formats generated input clearing).1 ≡ [])
        ⊎ ((cleared : ClearedPayment) × (client : PipelineClient E ContractPaymentIntent)
            × IsCleared sdk curve formats input cleared
            × (settle_cleared sdk curve formats generated input clearing
                ≡ settle_with sdk curve formats input cleared client))
  of_IsCleared generated input (err e) h = inl refl
  of_IsCleared generated input (ok cleared) h =
      of_client input cleared
        (client_of input.client generated (given_or "" input.config.settlement_contract_id))
        (h cleared refl)

  clear_payment-IsCleared :
      (input : ServiceInput E) (cleared : ClearedPayment)
      → clear_payment sdk curve formats input ≡ ok cleared
      → IsCleared sdk curve formats input cleared
  unfolding clear_payment
  clear_payment-IsCleared input cleared h =
      let (intent, parsed, h1) =
        bind_ok (parsed_or_throw (parse_signed_payment_intent formats input.payload)) _ cleared h in
      let (u1, policy, h2) =
        bind_ok (policy_or_throw (validate_payment_intent intent.intent (reader input))) _ cleared
          h1 in
      let (u2, verified, h3) =
        bind_ok (guard (verify_merchant_signature curve formats intent) invalid_merchant_signature)
          _ cleared h2 in
      let (u3, some_signature, h4) =
        bind_ok
          (guard (ltb 0 (length input.merchant_contract_signature)) contract_signature_required) _
          cleared h3 in
      let (u4, relayed, h5) =
        bind_ok (guard (not (is_empty (trim input.relayer_address))) relayer_required) _ cleared
          h4 in
      let (u5, separate, h6) =
        bind_ok (guard (not (str_eq input.relayer_address input.customer_address)) relayer_required)
          _ cleared h5 in
      let (envelope, built, h7) =
        bind_ok
          (envelope_or_throw (build_settlement_envelope sdk formats intent.intent (context input)))
          _ cleared h6 in
      let (signed, attached, h8) =
        bind_ok
          (envelope_or_throw
            (attach_merchant_contract_signature envelope input.merchant_contract_signature))
          _ cleared h7 in
      let (u6, funded, made) =
        bind_ok (check_funding input.funding envelope.intent.token) _ cleared h8 in
      let (size, same) = attach_ok envelope input.merchant_contract_signature signed (
        envelope_ok (attach_merchant_contract_signature envelope input.merchant_contract_signature)
          signed attached) in
      subst (λ c. IsCleared sdk curve formats input c)
        (ok_injective (record { intent = intent; signed = signed }) cleared made)
        (IsCleared-same input intent envelope signed same (record {
          parsed = parsed_ok (parse_signed_payment_intent formats input.payload) intent parsed;
          policy = policy_ok (validate_payment_intent intent.intent (reader input)) u1 policy;
          verified =
              guard_ok (verify_merchant_signature curve formats intent) invalid_merchant_signature
                u2 verified;
          relayed =
              not-true (is_empty (trim input.relayer_address)) (
                guard_ok (not (is_empty (trim input.relayer_address))) relayer_required u4 relayed);
          separate = not-true (str_eq input.relayer_address input.customer_address) (
              guard_ok (not (str_eq input.relayer_address input.customer_address)) relayer_required
                u5 separate);
          enveloped =
              envelope_ok (build_settlement_envelope sdk formats intent.intent (context input))
                envelope built;
          signature_size = size;
          signature_is = refl;
          funded = funding_ok input.funding envelope.intent.token u6 funded;
        }))

  -- Nothing is done for a payment, or all checks have passed and the pipeline runs on what they gave.
  pub settle_signed_payment-IsCleared :
      (generated : PipelineClient E ContractPaymentIntent) (input : ServiceInput E)
      → ((settle_signed_payment sdk curve formats generated input).1 ≡ [])
        ⊎ ((cleared : ClearedPayment) × (client : PipelineClient E ContractPaymentIntent)
            × IsCleared sdk curve formats input cleared
            × (settle_signed_payment sdk curve formats generated input
                ≡ settle_with sdk curve formats input cleared client))
  unfolding settle_signed_payment
  settle_signed_payment-IsCleared generated input =
      of_IsCleared generated input (clear_payment sdk curve formats input)
        (clear_payment-IsCleared input)
