-- ===== src/Worker/Confirmation/Tests.antt =====
-- A loop over the table of PostgresSettlementState.ts, with an RPC that knows one transaction.
use rosa_pay_application.Base.{
  ◌+◌, ◌≡◌, refl, String, none, some, List, [], ◌∷◌, ok, str_eq, if◌then◌else◌, length,
}
use rosa_pay_application.Base.Dict.{get, put}
use rosa_pay_application.Domain.Payment.{submitted, status_eq, is_allowed, transition_payment}
use rosa_pay_application.Api.Intents.Checks.{is_transaction_hash, is_positive_ledger}
use rosa_pay_application.Worker.Settlements.{
  Table, SettlementRow, SettlementStateError, list_submitted, list_expired, confirm, fail, expire,
  confirm_current, require_current, guarded_update, assert_transition, apply_update, confirmed_row,
}
use rosa_pay_application.Worker.Confirmation.{
  Port, received, not_found, SettlementEvent, ConfirmationSummary, EventConfirmationSummary,
  confirm_submitted_settlements, reconcile_settlement_events, and_then, confirm_each,
  settle_receipt, reconcile_each, reconcile_event, settle_event, find_submitted,
}
use rosa_pay_application.Worker.Confirmation.Accounting.{reconcile_events-accounts}

abbrev hash : String
hash = "0123456789abcdef0123456789abcdef0123456789abcdef0123456789abcdef"

abbrev other_hash : String
other_hash = "1123456789abcdef0123456789abcdef0123456789abcdef0123456789abcdef"

abbrev same : String → String
same s = s

abbrev nobody : Table → Table
nobody t = t

-- The code that a settlement is failed with does not matter here.
abbrev port : Port SettlementStateError Table
port = record {
  list_submitted = λ t. (list_submitted t, t);
  confirm = λ id h ledger t. confirm same nobody id h ledger t;
  fail = λ id code t. fail nobody id "STELLAR" t;
  list_expired = λ latest t. (list_expired latest t, t);
  expire = λ id t. expire nobody id t;
  confirm_transaction = λ h t.
      (if str_eq h hash then received (record { tx_hash = hash; ledger = 9 }) else not_found, t);
}

abbrev row : String → SettlementRow
row h = record {
  status = some submitted;
  tx_hash = some h;
  ledger = none;
  failure_code = none;
  expires_at_ledger = 100;
}

abbrev table : Table
table = ("i", row hash) ∷ ("j", row other_hash) ∷ []

abbrev settled : Table
settled = ("i", confirmed_row hash 9 (row hash)) ∷ ("j", row other_hash) ∷ []

abbrev counts : ConfirmationSummary
counts = record { scanned = 2; confirmed = 1; failed = 0; pending = 1 }

one_confirmed : confirm_submitted_settlements port same table ≡ (ok counts, settled)
unfolding confirm_submitted_settlements and_then confirm_each settle_receipt list_submitted confirm
    confirm_current require_current guarded_update assert_transition apply_update transition_payment
    is_allowed status_eq is_transaction_hash is_positive_ledger get put
one_confirmed = refl

abbrev events : List SettlementEvent
events =
    record { intent_id = "i"; transaction_hash = hash; ledger = 9 }
    ∷ record { intent_id = "i"; transaction_hash = hash; ledger = 9 }
    ∷ record { intent_id = "k"; transaction_hash = hash; ledger = 9 }
    ∷ []

abbrev event_counts : EventConfirmationSummary
event_counts = record { scanned = 3; confirmed = 1; failed = 0; pending = 0; ignored = 2 }

one_event : reconcile_settlement_events port same events table ≡ (ok event_counts, settled)
unfolding reconcile_settlement_events and_then reconcile_each reconcile_event settle_event
    find_submitted list_submitted confirm confirm_current require_current guarded_update
    assert_transition apply_update transition_payment is_allowed status_eq is_transaction_hash
    is_positive_ledger get put
one_event = refl

reconcile_events-accounts_example :
    (event_counts.confirmed + event_counts.failed + event_counts.pending + event_counts.ignored
      ≡ length events)
    × (event_counts.scanned ≡ length events)
reconcile_events-accounts_example =
    reconcile_events-accounts port same events table settled event_counts one_event
