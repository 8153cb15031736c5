-- ===== src/Worker/Settlements.antt =====
-- apps/worker/src/PostgresSettlementState.ts: what the worker reads and writes of the `settlements`
-- table. `between` is what other writers do to the table between the row's read and its UPDATE.
pub mod Evidence
pub mod Moves
mod Tests
use rosa_pay_application.Base.{
  ℕ, String, Bool, true, false, not, ◌&&◌, ◌||◌, Option, none, some, List, [], ◌∷◌, Result, ok, err,
  str_eq, if◌then◌else◌, ltb, leb, ◌>>=◌, ◌^◌, ◌-◌,
}
use rosa_pay_application.Base.Dict.{Dict, get, put}
use rosa_pay_application.Base.Text.{is_empty, trim}
use rosa_pay_application.Domain.Payment.{
  PaymentStatus, awaiting_approval, authorized, submitted, confirmed, expired, failed, status_eq,
  Payment, transition_payment, TransitionError,
}
use rosa_pay_application.Api.Intents.Checks.{is_transaction_hash, is_positive_ledger}
use rosa_pay_application.Worker.Confirmation.{SubmittedSettlement, ExpirableSettlement}

-- A row, under its `intent_id`. A status is `none` where `isPaymentStatus` refuses the column's
-- text. `expires_at_ledger` is the one of the intent that the row is joined with.
pub record SettlementRow : Type 0 where
  pub status : Option PaymentStatus
  pub tx_hash : Option String
  pub ledger : Option ℕ
  pub failure_code : Option String
  pub expires_at_ledger : ℕ

abbrev pub Table : Type 0
Table = Dict SettlementRow

pub data SettlementStateError : Type 0 where
  invalid_stored_hash invalid_stored_ledger invalid_hash invalid_ledger : SettlementStateError
  not_found unexpected_status confirmed_differently hash_changed : SettlementStateError
  no_failure_code changed_meanwhile : SettlementStateError
  invalid_transition : PaymentStatus → PaymentStatus → SettlementStateError

abbrev pub has_status : PaymentStatus → SettlementRow → Bool
has_status expected row = elim row.status [ none ↦ false | some s ↦ status_eq s expected ]

-- The rows in the order of the table; the query's ORDER BY is by `intent_id`.
unfoldable pub list_submitted : Table → Result SettlementStateError (List SubmittedSettlement)
list_submitted [] = ok []
list_submitted ((id, row) ∷ rest) = elim (list_submitted rest) [
  | err e ↦ err e
  | ok later ↦
      if has_status submitted row
      then elim row.tx_hash [
        | none ↦ ok later
        | some hash ↦
            if is_transaction_hash hash
            then ok (record { intent_id = id; transaction_hash = hash } ∷ later)
            else err invalid_stored_hash
      ]
      else ok later
]

unfoldable pub expirable : ℕ → Table → Result SettlementStateError (List ExpirableSettlement)
expirable latest [] = ok []
expirable latest ((id, row) ∷ rest) = elim (expirable latest rest) [
  | err e ↦ err e
  | ok later ↦
      if (has_status awaiting_approval row || has_status authorized row)
        && leb row.expires_at_ledger latest
      then if is_positive_ledger row.expires_at_ledger
        then ok (record { intent_id = id; expires_at_ledger = row.expires_at_ledger } ∷ later)
        else err invalid_stored_ledger
      else ok later
]

unfoldable pub list_expired : ℕ → Table → Result SettlementStateError (List ExpirableSettlement)
unfolding expirable
list_expired latest t =
    let rows = expirable latest t in if is_positive_ledger latest then rows else err invalid_ledger

unfoldable pub require_current : String → Table → Result SettlementStateError Payment
require_current id t = elim (get id t) [
  | none ↦ err not_found
  | some row ↦ elim row.status [
    | none ↦ err unexpected_status
    | some status ↦ ok (record {
      intent_id = id;
      status = status;
      transaction_hash = row.tx_hash;
      failure_code = none;
    })
  ]
]

abbrev pub as_state_error : TransitionError → SettlementStateError
as_state_error (TransitionError.invalid_payment_transition from next) = invalid_transition from next

unfoldable pub assert_transition : Payment → PaymentStatus → Result SettlementStateError (Unit {0})
assert_transition current next = elim (transition_payment current next) [
  | ok moved ↦ ok tt
  | err e ↦ err (as_state_error e)
]

-- `UPDATE … WHERE intent_id = $1 AND status = $n RETURNING intent_id`
unfoldable pub apply_update :
    String
    → PaymentStatus
    → (SettlementRow → SettlementRow)
    → Table
    → Result SettlementStateError (Unit {0}) × Table
apply_update id expected set t = elim (get id t) [
  | none ↦ (err changed_meanwhile, t)
  | some row ↦
      if has_status expected row then (ok tt, put id (set row) t) else (err changed_meanwhile, t)
]

-- The guard and the write that the three operations end with.
unfoldable pub guarded_update :
    (Table → Table)
    → Payment
    → PaymentStatus
    → (SettlementRow → SettlementRow)
    → Table
    → Result SettlementStateError (Unit {0}) × Table
guarded_update between current next set t = elim (assert_transition current next) [
  | err e ↦ (err e, t)
  | ok _ ↦ apply_update current.intent_id current.status set (between t)
]

unfoldable pub expire :
    (Table → Table) → String → Table → Result SettlementStateError (Unit {0}) × Table
expire between id t = elim (require_current id t) [
  | err e ↦ (err e, t)
  | ok current ↦
      if status_eq current.status expired
      then (ok tt, t)
      else guarded_update between current expired (λ row. record row { status = some expired }) t
]

-- `current && current.toLowerCase() !== given.toLowerCase()`
abbrev pub other_hash : (String → String) → Option String → String → Bool
other_hash lower none given = false
other_hash lower (some current) given =
    not (is_empty current) && not (str_eq (lower current) (lower given))

abbrev pub confirmed_row : String → ℕ → SettlementRow → SettlementRow
confirmed_row hash ledger row = record row {
  status = some confirmed;
  tx_hash = some hash;
  ledger = some ledger;
}

-- `confirm` once the row is read.
unfoldable pub confirm_current :
    (String → String)
    → (Table → Table)
    → Payment
    → String
    → ℕ
    → Table
    → Result SettlementStateError (Unit {0}) × Table
confirm_current lower between current hash ledger t =
    if status_eq current.status confirmed
    then if other_hash lower current.transaction_hash hash
      then (err confirmed_differently, t)
      else (ok tt, t)
    else if other_hash lower current.transaction_hash hash
    then (err hash_changed, t)
    else guarded_update between current confirmed (confirmed_row hash ledger) t

-- `lower` is `toLowerCase`. The column `confirmed_at` takes the database's clock.
unfoldable pub confirm :
    (String → String)
    → (Table → Table)
    → String
    → String
    → ℕ
    → Table
    → Result SettlementStateError (Unit {0}) × Table
confirm lower between id hash ledger t =
    if is_transaction_hash hash
    then if is_positive_ledger ledger
      then elim (require_current id t) [
        | err e ↦ (err e, t)
        | ok current ↦ confirm_current lower between current hash ledger t
      ]
      else (err invalid_ledger, t)
    else (err invalid_hash, t)

unfoldable pub fail :
    (Table → Table) → String → String → Table → Result SettlementStateError (Unit {0}) × Table
fail between id failure_code t =
    if is_empty (trim failure_code) then (err no_failure_code, t) else elim (require_current id t) [
      | err e ↦ (err e, t)
      | ok current ↦
          if status_eq current.status failed
          then (ok tt, t)
          else guarded_update between current failed
              (λ row. record row { status = some failed; failure_code = some (trim failure_code) })
              t
    ]
