-- ===== src/Worker/Page/Cursor.antt =====
-- When the cursor of the event page moves.
use rosa_pay_application.Base.{
  Result-cases, ℕ, ◌≡◌, refl, ◌⊎◌, inl, inr, String, Option, some, Result, ok, err,
}
use rosa_pay_application.Worker.Confirmation.{
  Port, EventConfirmationSummary, reconcile_settlement_events,
}
use rosa_pay_application.Worker.Page.{
  EventCursor, CursorStore, SettlementEventPage, PageStart, page_start, reconcile_page, read_page,
  next_with, reconcile_settlement_event_page,
}

-- A cursor store that keeps what it is given and does not fail.
abbrev pub kept : {E : Type 0} → CursorStore E (Option EventCursor)
kept = record { load = λ c. (ok c, c); save = λ cursor _. (ok tt, some cursor) }

abbrev pub place : SettlementEventPage → EventCursor
place page = record { cursor = page.cursor; start_ledger = page.latest_ledger }

module _ {E S : Type 0} (port : Port E S) (lower : String → String)
    (source : PageStart → Result E SettlementEventPage) where
  -- The state of the settlements after a page that was reconciled to its end.
  pub record Reconciled (start : ℕ) (s : S) (c c' : Option EventCursor) : Type 0 where
    pub page : SettlementEventPage
    pub summary : EventConfirmationSummary
    pub after : S
    pub fetched : source (page_start start c) ≡ ok page
    pub reconciled : reconcile_settlement_events port lower page.events s ≡ (ok summary, after)
    pub moved : c' ≡ some (place page)

  reconcile_page-cursor :
      (start : ℕ) (page : SettlementEventPage) (s : S) (c : Option EventCursor)
      → source (page_start start c) ≡ ok page
      → ((reconcile_page port lower kept source page s c).1.1 ≡ c)
        ⊎ Reconciled start s c (reconcile_page port lower kept source page s c).1.1
  unfolding reconcile_page next_with
  reconcile_page-cursor start page s c fetched =
      go (reconcile_settlement_events port lower page.events s) refl
    where
      go :
          (m : Result E EventConfirmationSummary × S)
          → reconcile_settlement_events port lower page.events s ≡ m
          → ((reconcile_page port lower kept source page s c).1.1 ≡ c)
            ⊎ Reconciled start s c (reconcile_page port lower kept source page s c).1.1
      go (err e, s') eq = rw (eq, reconcile_page, next_with) (inl refl)
      go (ok summary, s') eq =
          rw (eq, reconcile_page, next_with)
            (inr (record {
              page = page;
              summary = summary;
              after = s';
              fetched = fetched;
              reconciled = eq;
              moved = refl;
            }))

  -- With a cursor store that does not fail, the cursor after a round is the one before it, or that
  -- of the page the source gave for the one before it, and then every event of that page has been
  -- reconciled without an error.
  pub event_page-moves_cursor_last :
      (start : ℕ) (s : S) (c : Option EventCursor)
      → ((reconcile_settlement_event_page port lower kept source start s c).1.1 ≡ c)
        ⊎ Reconciled start s c
            (reconcile_settlement_event_page port lower kept source start s c).1.1
  unfolding reconcile_settlement_event_page read_page next_with
  event_page-moves_cursor_last start s c = elim (Result-cases (source (page_start start c))) [
    | inl (e, failed) ↦ rw (failed, reconcile_settlement_event_page, read_page) (inl refl)
    | inr (page, fetched) ↦
        rw (fetched, reconcile_settlement_event_page, read_page)
          (reconcile_page-cursor start page s c fetched)
  ]
