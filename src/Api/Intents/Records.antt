-- ===== src/Api/Intents/Records.antt =====
-- The records of apps/api/src/application/IntentService.ts.
use rosa_pay_application.Base.{ℕ, String, Option}
use rosa_pay_application.Domain.Payment.{PaymentStatus}
use rosa_pay_application.Protocol.Schema.{SignedPaymentIntentV1}

pub record StoredIntent : Type 0 where
  pub payload : SignedPaymentIntentV1
  pub payload_hash : String
  pub idempotency_key : String
  pub status : PaymentStatus

pub record AuthorizationRecord : Type 0 where
  pub intent_id : String
  pub authorizer : String
  pub authorization_hash : Option String
  pub expires_at_ledger : Option ℕ
  pub received_at : String

pub record CountersignatureRecord : Type 0 where
  pub intent_id : String
  pub customer_address : String
  pub signature : Option String
  pub requested_at : String
  pub signed_at : Option String

pub record SettlementRecord : Type 0 where
  pub intent_id : String
  pub status : PaymentStatus
  pub transaction_hash : Option String
  pub ledger : Option ℕ
  pub failure_code : Option String
  pub confirmed_at : Option String

-- The classes of the errors that the service throws.
pub data ServiceError : Type 0 where
  intent_conflict countersignature_conflict countersignature_not_found : ServiceError
  settlement_not_found settlement_input settlement_transition : ServiceError
