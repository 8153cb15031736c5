-- ===== src/Api/Intents/Claims.antt =====
-- The countersignature methods of apps/api/src/application/IntentService.ts: a customer claims a
-- request, and the merchant signs for the customer that has claimed it.
use rosa_pay_application.Base.{String, Bool, false, not, ◌||◌, Option, none, some, str_eq}
use rosa_pay_application.Base.Text.{is_empty}
use rosa_pay_application.Domain.Payment.{PaymentStatus, awaiting_approval, authorized, status_eq}
use rosa_pay_application.Api.Intents.Records.{
  CountersignatureRecord, SettlementRecord, countersignature_conflict, countersignature_not_found,
  settlement_not_found, settlement_input, settlement_transition,
}
use rosa_pay_application.Api.Intents.Store.{save_countersignature}
use rosa_pay_application.Api.Intents.Interleave.{
  M, ◌>>=◌, ◌>>◌, pure, throw, require, branch, write,
}
use rosa_pay_application.Api.Intents.Checks.{is_stellar_address, is_signature}
use rosa_pay_application.Api.Intents.Service.{
  find_by_intent_id, find_settlement, find_countersignature,
}

unfoldable pub require_countersignature_settlement : String → M SettlementRecord
require_countersignature_settlement id = do
  stored ← find_by_intent_id id
  elim stored [
    | none ↦ throw settlement_not_found
    | some _ ↦ do
      settlement ← find_settlement id
      elim settlement [ none ↦ throw settlement_not_found | some s ↦ pure s ]
  ]

abbrev pub is_waiting : PaymentStatus → Bool
is_waiting s = status_eq s awaiting_approval

abbrev pub is_signable : PaymentStatus → Bool
is_signable s = status_eq s awaiting_approval || status_eq s authorized

abbrev pub claim_record : String → String → String → CountersignatureRecord
claim_record now id customer = record {
  intent_id = id;
  customer_address = customer;
  signature = none;
  requested_at = now;
  signed_at = none;
}

-- The end of `requestCountersignature`: what the store kept, if it kept this customer's claim.
unfoldable pub persisted_claim :
    CountersignatureRecord → Option CountersignatureRecord → M CountersignatureRecord
persisted_claim given none = pure given
persisted_claim given (some kept) =
    branch (str_eq kept.customer_address given.customer_address) (pure kept)
      (throw countersignature_conflict)

unfoldable pub request_countersignature : String → String → String → M CountersignatureRecord
unfolding persisted_claim
request_countersignature now id customer = do
  settlement ← require_countersignature_settlement id
  require (is_stellar_address customer) settlement_input
  found ← find_countersignature id
  elim found [
    | some existing ↦ do
      require (str_eq existing.customer_address customer) countersignature_conflict
      require (is_signable settlement.status) settlement_transition
      pure existing
    | none ↦ do
      require (is_waiting settlement.status) settlement_transition
      write (save_countersignature (claim_record now id customer))
      kept ← find_countersignature id
      persisted_claim (claim_record now id customer) kept
  ]

-- `existing.signature` is truthy.
abbrev pub is_signed : CountersignatureRecord → Bool
is_signed c = elim c.signature [ none ↦ false | some s ↦ not (is_empty s) ]

abbrev pub signed_record : String → String → CountersignatureRecord → CountersignatureRecord
signed_record now signature existing = record existing {
  signature = some signature;
  signed_at = some now;
}

abbrev pub kept_or : CountersignatureRecord → Option CountersignatureRecord → CountersignatureRecord
kept_or given none = given
kept_or given (some kept) = kept

unfoldable pub supply_countersignature :
    String → String → String → String → M CountersignatureRecord
supply_countersignature now id customer signature = do
  settlement ← require_countersignature_settlement id
  require (is_signable settlement.status) settlement_transition
  found ← find_countersignature id
  elim found [
    | none ↦ throw countersignature_not_found
    | some existing ↦ do
      require (str_eq existing.customer_address customer) countersignature_conflict
      require (is_signature signature) settlement_input
      branch (is_signed existing) (pure existing) (do
        write (save_countersignature (signed_record now signature existing))
        kept ← find_countersignature id
        pure (kept_or (signed_record now signature existing) kept))
  ]
