-- ===== src/Stellar/Envelope/Sound.antt =====
-- What an envelope that is built says.
use rosa_pay_application.Base.{ℕ, ◌<◌, ◌≤◌, ◌≡◌, String, true, ok}
use rosa_pay_application.Protocol.Schema.{PaymentIntentV1}
use rosa_pay_application.Stellar.Amounts.{max_i128, decimal_to_contract_amount}
use rosa_pay_application.Stellar.Envelope.{
  Sdk, EnvelopeContext, SettlementEnvelope, asset_contract_id, expected_passphrase, envelope_of,
}

-- An envelope of a request, in a context.
pub record IsEnvelopeOf (sdk : Sdk) (intent : PaymentIntentV1) (context : EnvelopeContext)
    (envelope : SettlementEnvelope) : Type 0 where
  pub amount : ℕ
  pub token : String
  pub on_network : context.network_passphrase ≡ expected_passphrase sdk intent.network
  pub payer_valid : sdk.is_address context.customer ≡ true
  pub recipient_valid : sdk.is_address intent.recipient ≡ true
  pub contract_valid : sdk.is_valid_contract context.settlement_contract_id ≡ true
  pub in_u32 : intent.expires_at_ledger ≤ 4294967295
  pub asks : decimal_to_contract_amount intent.amount intent.asset.decimals ≡ ok amount
  pub positive : 0 < amount
  pub in_i128 : amount ≤ max_i128
  pub moves : asset_contract_id sdk intent.asset context.network_passphrase ≡ ok token
  pub is_made : envelope ≡ envelope_of sdk intent context amount token
