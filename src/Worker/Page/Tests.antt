-- ===== src/Worker/Page/Tests.antt =====
-- A page of one event that nobody waits for.
use rosa_pay_application.Base.{◌≡◌, ◌⊎◌, String, none, [], ◌∷◌, Result, ok}
use rosa_pay_application.Worker.Confirmation.{Port, not_found}
use rosa_pay_application.Worker.Page.{
  SettlementEventPage, PageStart, reconcile_settlement_event_page,
}
use rosa_pay_application.Worker.Page.Cursor.{kept, Reconciled, event_page-moves_cursor_last}

-- Nothing is submitted, and every call succeeds.
abbrev port : Port String (Unit {0})
port = record {
  list_submitted = λ s. (ok [], s);
  confirm = λ _ _ _ s. (ok tt, s);
  fail = λ _ _ s. (ok tt, s);
  list_expired = λ _ s. (ok [], s);
  expire = λ _ s. (ok tt, s);
  confirm_transaction = λ _ s. (not_found, s);
}

abbrev same : String → String
same s = s

abbrev source : PageStart → Result String SettlementEventPage
source _ = ok (record {
  events = record { intent_id = "i"; transaction_hash = "h"; ledger = 9 } ∷ [];
  cursor = "9-1";
  latest_ledger = 12;
})

event_page-moves_cursor_last_example :
    ((reconcile_settlement_event_page port same kept source 1 tt none).1.1 ≡ none)
    ⊎ Reconciled port same source 1 tt none
        (reconcile_settlement_event_page port same kept source 1 tt none).1.1
event_page-moves_cursor_last_example = event_page-moves_cursor_last port same source 1 tt none
