-- ===== src/Worker/Settlements/Evidence.antt =====
-- What `confirm` of PostgresSettlementState.ts does with the hash of a row.
use rosa_pay_application.Base.{
  ℕ, String, true, false, ◌≡◌, refl, inl, inr, ◌⊎◌, Option, none, some, ok, arith, Option-cases,
  subst, eq_iff, eq_refl,
}
use rosa_pay_application.Base.Dict.{get, put, get-put}
use rosa_pay_application.Base.Text.{is_empty}
use rosa_pay_application.Api.Intents.Checks.{is_transaction_hash, is_positive_ledger}
use rosa_pay_application.Domain.Payment.{submitted, transition_payment, is_allowed, status_eq}
use rosa_pay_application.Worker.Settlements.{
  SettlementRow, Table, apply_update, guarded_update, assert_transition, confirm, confirm_current,
  require_current, confirmed_row, other_hash,
}

abbrev pub alone : Table → Table
alone t = t

-- With no writer in between, a submitted row is confirmed with a hash that is the row's own in any
-- letter case, by one write.
pub confirm-confirms :
    (lower : String → String) (id hash own : String) (ledger : ℕ) (row : SettlementRow) (t : Table)
    → get id t ≡ some row
    → row.status ≡ some submitted
    → row.tx_hash ≡ some own
    → lower own ≡ lower hash
    → is_transaction_hash hash ≡ true
    → is_positive_ledger ledger ≡ true
    → confirm lower alone id hash ledger t ≡ (ok tt, put id (confirmed_row hash ledger row) t)
unfolding confirm confirm_current guarded_update assert_transition transition_payment apply_update
    require_current is_allowed status_eq
confirm-confirms lower id hash own ledger row t found at_status with_hash same hex positive =
    ground (arith, eq_iff (lower own) (lower hash))

-- What is left is the table that was read, that of the others, or theirs with the confirmed row.
confirm-writes :
    (lower : String → String) (between : Table → Table) (id hash : String) (ledger : ℕ)
    (row kept : SettlementRow) (t : Table)
    → get id t ≡ some row
    → get id (between t) ≡ some kept
    → let after = (confirm lower between id hash ledger t).1 in
      (after ≡ t)
      ⊎ ((after ≡ between t)
          ⊎ ((after ≡ put id (confirmed_row hash ledger kept) (between t))
              × (other_hash lower row.tx_hash hash ≡ false)))
unfolding confirm confirm_current guarded_update assert_transition transition_payment apply_update
    require_current
confirm-writes lower between id hash ledger row kept t found left = ground arith

abbrev IsHash : (String → String) → String → Option String → Type 0
IsHash lower own none = ⊥
IsHash lower own (some held) = lower held ≡ lower own

-- The row is there and its hash is this one, in any letter case.
abbrev pub KeepsHash : (String → String) → String → Option SettlementRow → Type 0
KeepsHash lower own none = ⊥
KeepsHash lower own (some row) = IsHash lower own row.tx_hash

other_hash-same :
    (lower : String → String) (own hash : String)
    → is_empty own ≡ false
    → other_hash lower (some own) hash ≡ false
    → lower hash ≡ lower own
other_hash-same lower own hash given same = ground (arith, eq_iff (lower own) (lower hash))

-- A row that has a hash, and not the empty text, is not given another one by `confirm`: whatever it
-- answers, the row is there afterwards and its hash is the same in lower case, if the other writers
-- between the read and the UPDATE leave it so.
pub confirm-KeepsHash :
    (lower : String → String) (between : Table → Table) (id hash own : String) (ledger : ℕ)
    (row : SettlementRow) (t : Table)
    → get id t ≡ some row
    → row.tx_hash ≡ some own
    → is_empty own ≡ false
    → KeepsHash lower own (get id (between t))
    → KeepsHash lower own (get id (confirm lower between id hash ledger t).1)
confirm-KeepsHash lower between id hash own ledger row t found with_hash given others =
    elim (Option-cases (get id (between t))) [
      | inl gone ↦ absurd (subst (KeepsHash lower own) gone others)
      | inr (kept, left) ↦
          elim (confirm-writes lower between id hash ledger row kept t found left) [
            | inl untouched ↦ rw (untouched, found, with_hash) refl
            | inr (inl theirs) ↦ rw theirs others
            | inr (inr (wrote, same)) ↦
                rw (wrote, get-put, eq_refl)
                  (other_hash-same lower own hash given (rw with_hash at same))
          ]
    ]
