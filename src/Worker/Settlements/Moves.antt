-- ===== src/Worker/Settlements/Moves.antt =====
-- What a write of PostgresSettlementState.ts may do to a row that other writers change as well.
use rosa_pay_application.Base.{
  ℕ, String, true, false, ◌≡◌, refl, inl, inr, ◌⊎◌, Option, none, some, Result, ok, arith,
  Option-cases, Bool-cases, Result-cases, ap,
}
use rosa_pay_application.Base.Dict.{get, put}
use rosa_pay_application.Domain.Payment.{
  PaymentStatus, confirmed, expired, failed, Payment, transition_payment, status_eq, status_eq_iff,
}
use rosa_pay_application.Domain.Payment.Lifecycle.{◌⟶◌, is_allowed-⟶}
use rosa_pay_application.Base.Text.{is_empty, trim}
use rosa_pay_application.Api.Intents.Checks.{is_transaction_hash, is_positive_ledger}
use rosa_pay_application.Worker.Settlements.{
  SettlementRow, Table, SettlementStateError, apply_update, guarded_update, assert_transition,
  expire, confirm, confirm_current, fail, require_current, confirmed_row, other_hash,
}

pub data Command : Type 0 where
  expiring : String → Command
  confirming : String → String → ℕ → Command
  failing : String → String → Command

unfoldable pub execute :
    (String → String)
    → (Table → Table)
    → Command
    → Table
    → Result SettlementStateError (Unit {0}) × Table
execute lower between (expiring id) t = expire between id t
execute lower between (confirming id hash ledger) t = confirm lower between id hash ledger t
execute lower between (failing id code) t = fail between id code t

-- The row at an edge's end: nothing but the row of `id` differs, and it moved along the lifecycle.
pub record Moved (before after : Table) : Type 0 where
  pub id : String
  pub row : SettlementRow
  pub from : PaymentStatus
  pub next : PaymentStatus
  pub changed : SettlementRow
  pub stood : get id before ≡ some row
  pub stood_at : row.status ≡ some from
  pub edge : from ⟶ next
  pub lands_at : changed.status ≡ some next
  pub written : after ≡ put id changed before

-- What an operation leaves behind: the table it read, the table of the others, or one move in that.
abbrev pub IsStep : (Table → Table) → Table → Table → Type 0
IsStep between t after = (after ≡ t) ⊎ ((after ≡ between t) ⊎ Moved (between t) after)

has_status_at :
    (s : Option PaymentStatus) (expected : PaymentStatus)
    → (elim s [ none ↦ false | some x ↦ status_eq x expected ]) ≡ true
    → s ≡ some expected
has_status_at none expected h = ground arith
has_status_at (some x) expected h = ap some ((status_eq_iff x expected).0 h)

apply_update-moves :
    (id : String) (from next : PaymentStatus) (set : SettlementRow → SettlementRow) (t : Table)
    → from ⟶ next
    → ((row : SettlementRow) → (set row).status ≡ some next)
    → ((apply_update id from set t).1 ≡ t) ⊎ Moved t (apply_update id from set t).1
unfolding apply_update
apply_update-moves id from next set t edge lands = elim (Option-cases (get id t)) [
  | inl missing ↦ rw (missing, apply_update) (inl refl)
  | inr (row, found) ↦
      rw (found, apply_update)
        (elim (Bool-cases (elim row.status [ none ↦ false | some s ↦ status_eq s from ])) [
          | inl at_status ↦ rw at_status (
              inr (record {
                id = id;
                row = row;
                from = from;
                next = next;
                changed = set row;
                stood = found;
                stood_at = has_status_at row.status from at_status;
                edge = edge;
                lands_at = lands row;
                written = refl;
              }))
          | inr other ↦ rw other (inl refl)
        ])
]

assert_transition-edge :
    (current : Payment) (next : PaymentStatus)
    → assert_transition current next ≡ ok tt
    → current.status ⟶ next
unfolding assert_transition transition_payment
assert_transition-edge current next h = is_allowed-⟶ current.status next (ground arith)

guarded_update-moves :
    (between : Table → Table) (current : Payment) (next : PaymentStatus)
    (set : SettlementRow → SettlementRow) (t : Table)
    → ((row : SettlementRow) → (set row).status ≡ some next)
    → IsStep between t (guarded_update between current next set t).1
unfolding guarded_update
guarded_update-moves between current next set t lands =
    elim (Result-cases (assert_transition current next)) [
      | inl (e, refused) ↦ rw (refused, guarded_update) (inl refl)
      | inr (_, allowed) ↦
          rw (allowed, guarded_update)
            (inr (
              apply_update-moves current.intent_id current.status next set (between t)
                (assert_transition-edge current next allowed) lands))
    ]

expire-IsStep :
    (between : Table → Table) (id : String) (t : Table) → IsStep between t (expire between id t).1
unfolding expire
expire-IsStep between id t = elim (Result-cases (require_current id t)) [
  | inl (e, missing) ↦ rw (missing, expire) (inl refl)
  | inr (current, found) ↦
      rw (found, expire)
        (elim (Bool-cases (status_eq current.status expired)) [
          | inl already ↦ rw already (inl refl)
          | inr live ↦ rw live (guarded_update-moves between current expired _ t (λ row. refl))
        ])
]

confirm_current-IsStep :
    (lower : String → String) (between : Table → Table) (current : Payment) (hash : String)
    (ledger : ℕ) (t : Table)
    → IsStep between t (confirm_current lower between current hash ledger t).1
unfolding confirm_current
confirm_current-IsStep lower between current hash ledger t =
    elim (Bool-cases (other_hash lower current.transaction_hash hash)) [
      | inl other ↦ elim (Bool-cases (status_eq current.status confirmed)) [
        | inl already ↦ rw already (rw other (inl refl))
        | inr live ↦ rw live (rw other (inl refl))
      ]
      | inr same ↦ elim (Bool-cases (status_eq current.status confirmed)) [
        | inl already ↦ rw already (rw same (inl refl))
        | inr live ↦ rw live (
            rw same (
              guarded_update-moves between current confirmed (confirmed_row hash ledger) t
                (λ row. refl)))
      ]
    ]

confirm-IsStep :
    (lower : String → String) (between : Table → Table) (id hash : String) (ledger : ℕ) (t : Table)
    → IsStep between t (confirm lower between id hash ledger t).1
unfolding confirm
confirm-IsStep lower between id hash ledger t = elim (Bool-cases (is_transaction_hash hash)) [
  | inr bad ↦ rw bad (inl refl)
  | inl good ↦ elim (Bool-cases (is_positive_ledger ledger)) [
    | inr none_given ↦ rw good (rw none_given (inl refl))
    | inl positive ↦ rw good (
        rw positive (elim (Result-cases (require_current id t)) [
          | inl (e, missing) ↦ rw (missing, confirm) (inl refl)
          | inr (current, found) ↦
              rw (found, confirm) (confirm_current-IsStep lower between current hash ledger t)
        ]))
  ]
]

fail-IsStep :
    (between : Table → Table) (id code : String) (t : Table)
    → IsStep between t (fail between id code t).1
unfolding fail
fail-IsStep between id code t = elim (Bool-cases (is_empty (trim code))) [
  | inl blank ↦ rw blank (inl refl)
  | inr given ↦ rw given (elim (Result-cases (require_current id t)) [
    | inl (e, missing) ↦ rw (missing, fail) (inl refl)
    | inr (current, found) ↦
        rw (found, fail)
          (elim (Bool-cases (status_eq current.status failed)) [
            | inl already ↦ rw already (inl refl)
            | inr live ↦ rw live (guarded_update-moves between current failed _ t (λ row. refl))
          ])
  ])
]

-- Whatever the other writers do between the read and the UPDATE, the table after a command is the
-- one that was read, the one that the others left, or the latter with one existing row changed, at
-- whose status in that table an edge of the lifecycle starts that ends at the new status.
pub execute-moves_along :
    (lower : String → String) (between : Table → Table) (c : Command) (t : Table)
    → ((execute lower between c t).1 ≡ t)
      ⊎ (((execute lower between c t).1 ≡ between t)
          ⊎ Moved (between t) (execute lower between c t).1)
unfolding execute
execute-moves_along lower between (expiring id) t = expire-IsStep between id t
execute-moves_along lower between (confirming id hash ledger) t =
    confirm-IsStep lower between id hash ledger t
execute-moves_along lower between (failing id code) t = fail-IsStep between id code t
