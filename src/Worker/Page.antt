-- ===== src/Worker/Page.antt =====
-- apps/worker/src/confirmationWorker.ts, `reconcileSettlementEventPage`, over its ports. `S` is the
-- state of what is behind the ports of the settlements and the RPC, `C` of what is behind the cursor.
pub mod Cursor
mod Tests
use rosa_pay_application.Base.{
  ℕ, ◌+◌, String, Bool, true, false, Option, none, some, List, [], ◌∷◌, Result, ok, err,
}
use rosa_pay_application.Base.Text.{is_empty}
use rosa_pay_application.Worker.Confirmation.{
  Port, SettlementEvent, EventConfirmationSummary, reconcile_settlement_events, and_then,
  confirm_submitted_settlements, expire_stale_settlements,
}

pub record EventCursor : Type 0 where
  pub cursor : String
  pub start_ledger : ℕ

pub record CursorStore (E C : Type 0) : Type 0 where
  pub load : C → Result E (Option EventCursor) × C
  pub save : EventCursor → C → Result E (Unit {0}) × C

pub record SettlementEventPage : Type 0 where
  pub events : List SettlementEvent
  pub cursor : String
  pub latest_ledger : ℕ

-- What a page is asked from: a cursor, or a ledger to start at; the limit is the source's.
pub data PageStart : Type 0 where
  from_cursor : String → PageStart
  from_ledger : ℕ → PageStart

-- `checkpoint?.cursor` is truthy.
unfoldable pub page_start : ℕ → Option EventCursor → PageStart
page_start start none = from_ledger start
page_start start (some checkpoint) = elim (is_empty checkpoint.cursor) [
  | true ↦ from_ledger start
  | false ↦ from_cursor checkpoint.cursor
]

-- `await m; k`, where `m` has one part of the state; the rest of it is put beside by `leave`.
unfoldable pub next_with :
    {E X Y A B : Type 0} → (X → Y) → Result E A × X → (A → X → Result E B × Y) → Result E B × Y
next_with leave (ok a, x) k = k a x
next_with leave (err e, x) k = (err e, leave x)

module _ {E S C : Type 0} (port : Port E S) (lower : String → String) (store : CursorStore E C)
    (source : PageStart → Result E SettlementEventPage) where
  -- The page is read: its events are reconciled, and then the cursor moves.
  unfoldable pub reconcile_page :
      SettlementEventPage
      → S
      → C
      → Result E (EventConfirmationSummary × SettlementEventPage) × (S × C)
  reconcile_page page s c =
      next_with (λ s'. (s', c)) (reconcile_settlement_events port lower page.events s)
        (λ summary s'.
          next_with (λ c'. (s', c'))
            (store.save (record { cursor = page.cursor; start_ledger = page.latest_ledger }) c)
            (λ _ c'. (ok (summary, page), (s', c'))))

  unfoldable pub read_page :
      ℕ
      → Option EventCursor
      → S
      → C
      → Result E (EventConfirmationSummary × SettlementEventPage) × (S × C)
  read_page start checkpoint s c = elim (source (page_start start checkpoint)) [
    | err e ↦ (err e, (s, c))
    | ok page ↦ reconcile_page page s c
  ]

  unfoldable pub reconcile_settlement_event_page :
      ℕ → S → C → Result E (EventConfirmationSummary × SettlementEventPage) × (S × C)
  reconcile_settlement_event_page start s c =
      next_with (λ c'. (s, c')) (store.load c) (λ checkpoint c'. read_page start checkpoint s c')
