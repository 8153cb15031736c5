-- ===== src/Worker/Cycle.antt =====
-- apps/worker/src/runtime.ts, `createWorkerCycle`: receipts, then expiry, then one page of events. The
-- log lines are left out.
pub mod Order
use rosa_pay_application.Base.{ℕ, String, Option, none, some, Result, ok, err}
use rosa_pay_application.Worker.Confirmation.{
  Port, confirm_submitted_settlements, expire_stale_settlements, and_then, ExpirySummary,
}
use rosa_pay_application.Worker.Page.{
  CursorStore, PageStart, SettlementEventPage, reconcile_settlement_event_page, next_with,
}

-- `input.ledgers`, if it is given: the latest ledger, from `health`.
abbrev pub LedgerSource : Type 0 → Type 0 → Type 0
LedgerSource E S = Option (S → Result E ℕ × S)

module _ {E S : Type 0} (port : Port E S) where
  unfoldable pub expire_known : LedgerSource E S → S → Result E (Option ExpirySummary) × S
  expire_known none s = (ok none, s)
  expire_known (some health) s = and_then (health s) (λ latest s'.
      and_then (expire_stale_settlements port latest s') (λ expiry s''. (ok (some expiry), s'')))

  module _ {C : Type 0} (lower : String → String) (ledgers : LedgerSource E S)
      (store : CursorStore E C) (source : PageStart → Result E SettlementEventPage) where
    -- Without a start ledger no events are read; the code does the same without a source or a
    -- cursor store.
    unfoldable pub read_events : Option ℕ → S → C → Result E (Unit {0}) × (S × C)
    read_events none s c = (ok tt, (s, c))
    read_events (some start) s c =
        next_with (λ after. after)
          (reconcile_settlement_event_page port lower store source start s c)
          (λ summary after. (ok tt, after))

    unfoldable pub worker_cycle : Option ℕ → S → C → Result E (Unit {0}) × (S × C)
    worker_cycle start s c =
        next_with (λ s'. (s', c)) (confirm_submitted_settlements port lower s)
          (λ receipts s'.
            next_with (λ s''. (s'', c)) (expire_known ledgers s')
              (λ expiry s''. read_events start s'' c))
