-- ===== src/Worker/Confirmation.antt =====
-- apps/worker/src/confirmationWorker.ts: the reconciliation loops, over the ports that they are
-- given. `S` is the state of everything behind the ports; `lower` is `toLowerCase`.
pub mod Accounting
mod Tests
use rosa_pay_application.Base.{
  ℕ, suc, ◌+◌, String, Bool, true, false, not, ◌&&◌, ◌||◌, Option, none, some, List, [], ◌∷◌,
  Result, ok, err, length, any, ltb, ◌==◌, str_eq, if◌then◌else◌,
}
use rosa_pay_application.Base.Text.{is_empty}

pub record SubmittedSettlement : Type 0 where
  pub intent_id : String
  pub transaction_hash : String

pub record ExpirableSettlement : Type 0 where
  pub intent_id : String
  pub expires_at_ledger : ℕ

pub record TransactionConfirmation : Type 0 where
  pub tx_hash : String
  pub ledger : ℕ

-- What `confirmTransaction` resolves or rejects with: `StellarTransactionError` with the code
-- `NOT_FOUND`, with another code, or any other error.
pub data Receipt : Type 0 where
  received : TransactionConfirmation → Receipt
  not_found : Receipt
  stellar_error : String → Receipt
  other_error : Receipt

pub record SettlementEvent : Type 0 where
  pub intent_id : String
  pub transaction_hash : String
  pub ledger : ℕ

-- The codes that a settlement is failed with: `STELLAR_<code>`, `STELLAR_EVENT_<code>` and three
-- fixed ones.
pub data FailureCode : Type 0 where
  stellar stellar_event : String → FailureCode
  invalid_success_response event_tx_mismatch event_receipt_mismatch : FailureCode

pub record ExpirySummary : Type 0 where
  pub scanned : ℕ
  pub expired : ℕ

pub record ConfirmationSummary : Type 0 where
  pub scanned : ℕ
  pub confirmed : ℕ
  pub failed : ℕ
  pub pending : ℕ

pub record EventConfirmationSummary : Type 0 where
  pub scanned : ℕ
  pub confirmed : ℕ
  pub failed : ℕ
  pub pending : ℕ
  pub ignored : ℕ

-- The state port and the RPC. `E` is what they throw.
pub record Port (E S : Type 0) : Type 0 where
  pub list_submitted : S → Result E (List SubmittedSettlement) × S
  pub confirm : String → String → ℕ → S → Result E (Unit {0}) × S
  pub fail : String → FailureCode → S → Result E (Unit {0}) × S
  pub list_expired : ℕ → S → Result E (List ExpirableSettlement) × S
  pub expire : String → S → Result E (Unit {0}) × S
  pub confirm_transaction : String → S → Receipt × S

-- `a.toLowerCase() === b.toLowerCase()`
abbrev pub same_hash : (String → String) → String → String → Bool
same_hash lower a b = str_eq (lower a) (lower b)

module _ {E S : Type 0} where
  -- `await m; k`
  unfoldable pub and_then :
      {A B : Type 0} → Result E A × S → (A → S → Result E B × S) → Result E B × S
  and_then (ok a, s) k = k a s
  and_then (err e, s) k = (err e, s)

module _ {E S : Type 0} (port : Port E S) where
  unfoldable pub expire_each : ℕ → List ExpirableSettlement → ℕ → S → Result E ℕ × S
  expire_each latest [] expired s = (ok expired, s)
  expire_each latest (settlement ∷ rest) expired s =
      let skipped = expire_each latest rest expired s in
      let closed =
        and_then (port.expire settlement.intent_id s)
          (λ _ s'. expire_each latest rest (expired + 1) s') in
      if ltb latest settlement.expires_at_ledger then skipped else closed

  unfoldable pub expire_stale_settlements : ℕ → S → Result E ExpirySummary × S
  expire_stale_settlements latest s = and_then (port.list_expired latest s) (λ stale s'.
      and_then (expire_each latest stale 0 s')
        (λ expired s''. (ok (record { scanned = length stale; expired = expired }), s'')))

  module _ (lower : String → String) where
    -- What the loop does with one submitted settlement, once the RPC has answered.
    unfoldable pub settle_receipt :
        SubmittedSettlement → Receipt → ConfirmationSummary → S → Result E ConfirmationSummary × S
    settle_receipt settlement not_found summary s =
        (ok (record summary { pending = summary.pending + 1 }), s)
    settle_receipt settlement (stellar_error code) summary s =
        and_then (port.fail settlement.intent_id (stellar code) s)
          (λ _ s'. (ok (record summary { failed = summary.failed + 1 }), s'))
    settle_receipt settlement other_error summary s =
        and_then (port.fail settlement.intent_id (stellar "UNKNOWN") s)
          (λ _ s'. (ok (record summary { failed = summary.failed + 1 }), s'))
    settle_receipt settlement (received receipt) summary s =
        if same_hash lower receipt.tx_hash settlement.transaction_hash
        then and_then (port.confirm settlement.intent_id receipt.tx_hash receipt.ledger s)
            (λ _ s'. (ok (record summary { confirmed = summary.confirmed + 1 }), s'))
        else and_then (port.fail settlement.intent_id invalid_success_response s)
            (λ _ s'. (ok (record summary { failed = summary.failed + 1 }), s'))

    unfoldable pub confirm_each :
        List SubmittedSettlement → ConfirmationSummary → S → Result E ConfirmationSummary × S
    confirm_each [] summary s = (ok summary, s)
    confirm_each (settlement ∷ rest) summary s =
        let (receipt, s') = port.confirm_transaction settlement.transaction_hash s in
        and_then (settle_receipt settlement receipt summary s')
          (λ summary' s''. confirm_each rest summary' s'')

    unfoldable pub confirm_submitted_settlements : S → Result E ConfirmationSummary × S
    confirm_submitted_settlements s = and_then (port.list_submitted s) (λ submitted s'.
        confirm_each submitted
          (record { scanned = length submitted; confirmed = 0; failed = 0; pending = 0 }) s')

    -- What the loop does with one event of a submitted settlement, once the RPC has answered.
    unfoldable pub settle_event :
        SubmittedSettlement
        → SettlementEvent
        → Receipt
        → EventConfirmationSummary
        → S
        → Result E EventConfirmationSummary × S
    settle_event settlement event not_found summary s =
        (ok (record summary { pending = summary.pending + 1 }), s)
    settle_event settlement event (stellar_error code) summary s =
        and_then (port.fail settlement.intent_id (stellar_event code) s)
          (λ _ s'. (ok (record summary { failed = summary.failed + 1 }), s'))
    settle_event settlement event other_error summary s =
        and_then (port.fail settlement.intent_id (stellar_event "UNKNOWN") s)
          (λ _ s'. (ok (record summary { failed = summary.failed + 1 }), s'))
    settle_event settlement event (received receipt) summary s =
        if same_hash lower receipt.tx_hash event.transaction_hash && receipt.ledger == event.ledger
        then and_then (port.confirm settlement.intent_id receipt.tx_hash receipt.ledger s)
            (λ _ s'. (ok (record summary { confirmed = summary.confirmed + 1 }), s'))
        else and_then (port.fail settlement.intent_id event_receipt_mismatch s)
            (λ _ s'. (ok (record summary { failed = summary.failed + 1 }), s'))

    -- `new Map(submitted.map(…)).get(id)`: a later entry of the list takes an earlier one's place.
    unfoldable pub find_submitted : String → List SubmittedSettlement → Option SubmittedSettlement
    find_submitted id [] = none
    find_submitted id (settlement ∷ rest) = elim (find_submitted id rest) [
      | some later ↦ some later
      | none ↦ if str_eq settlement.intent_id id then some settlement else none
    ]

    -- One round of the loop, for an event whose intent has not been seen.
    unfoldable pub reconcile_event :
        List SubmittedSettlement
        → SettlementEvent
        → EventConfirmationSummary
        → S
        → Result E EventConfirmationSummary × S
    reconcile_event submitted event summary s = elim (find_submitted event.intent_id submitted) [
      | none ↦ (ok (record summary { ignored = summary.ignored + 1 }), s)
      | some settlement ↦
          if same_hash lower settlement.transaction_hash event.transaction_hash
          then (let (receipt, s') = port.confirm_transaction event.transaction_hash s in
              settle_event settlement event receipt summary s')
          else and_then (port.fail settlement.intent_id event_tx_mismatch s)
              (λ _ s'. (ok (record summary { failed = summary.failed + 1 }), s'))
    ]

    unfoldable pub reconcile_each :
        List SubmittedSettlement
        → List String
        → List SettlementEvent
        → EventConfirmationSummary
        → S
        → Result E EventConfirmationSummary × S
    reconcile_each submitted seen [] summary s = (ok summary, s)
    reconcile_each submitted seen (event ∷ rest) summary s =
        let repeated =
          reconcile_each submitted seen rest (record summary { ignored = summary.ignored + 1 }) s in
        let fresh =
          and_then (reconcile_event submitted event summary s)
            (λ summary' s'. reconcile_each submitted (event.intent_id ∷ seen) rest summary' s') in
        if any (str_eq event.intent_id) seen then repeated else fresh

    unfoldable pub reconcile_settlement_events :
        List SettlementEvent → S → Result E EventConfirmationSummary × S
    reconcile_settlement_events events s = and_then (port.list_submitted s) (λ submitted s'.
        reconcile_each submitted [] events
          (record { scanned = length events; confirmed = 0; failed = 0; pending = 0; ignored = 0 })
          s')
