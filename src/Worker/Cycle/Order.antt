-- ===== src/Worker/Cycle/Order.antt =====
-- What a whole cycle of runtime.ts does to the cursor.
use rosa_pay_application.Base.{
  ℕ, ◌≡◌, refl, ◌⊎◌, inl, inr, String, Option, none, some, Result, ok, err,
}
use rosa_pay_application.Worker.Confirmation.{Port, confirm_submitted_settlements}
use rosa_pay_application.Worker.Page.{
  EventCursor, SettlementEventPage, PageStart, reconcile_settlement_event_page, next_with,
}
use rosa_pay_application.Worker.Page.Cursor.{kept, Reconciled, event_page-moves_cursor_last}
use rosa_pay_application.Worker.Cycle.{LedgerSource, expire_known, read_events, worker_cycle}

-- A property of the state that a call leaves, whatever it answers.
record Leaves {E A Y : Type 0} (P : Y → Type 0) (m : Result E A × Y) : Type 0 where
  left : P m.1

Leaves-next :
    {E X Y A B : Type 0} {P : Y → Type 0} (leave : X → Y) (m : Result E A × X)
    {k : A → X → Result E B × Y}
    → ((x : X) → P (leave x))
    → ((a : A) (x : X) → Leaves P (k a x))
    → Leaves P (next_with leave m k)
unfolding next_with
Leaves-next leave (ok a, x) h g = g a x
Leaves-next leave (err e, x) h g = record { left = h x }

Leaves-last :
    {E X A B : Type 0} {P : X → Type 0} (m : Result E A × X) (b : B)
    → P m.1
    → Leaves {E = E} P (next_with (λ x. x) m (λ a x. (ok b, x)))
unfolding next_with
Leaves-last (ok a, x) b h = record { left = h }
Leaves-last (err e, x) b h = record { left = h }

module _ {E S : Type 0} (port : Port E S) (lower : String → String) (ledgers : LedgerSource E S)
    (source : PageStart → Result E SettlementEventPage) where
  -- The page was reconciled from some state of the cycle, after the ledger that it starts at.
  abbrev pub MovedAfterPage : Option ℕ → Option EventCursor → Option EventCursor → Type 0
  MovedAfterPage none c c' = ⊥
  MovedAfterPage (some start) c c' = (s : S) × Reconciled port lower source start s c c'

  read_events-Leaves :
      (start : Option ℕ) (s : S) (c : Option EventCursor)
      → Leaves
          (λ after. (after.1 ≡ c) ⊎ MovedAfterPage start c after.1)
          (read_events port lower ledgers kept source start s c)
  unfolding read_events
  read_events-Leaves none s c = record { left = inl refl }
  read_events-Leaves (some start) s c =
      Leaves-last (reconcile_settlement_event_page port lower kept source start s c) tt
        (elim (event_page-moves_cursor_last port lower source start s c) [
          | inl same ↦ inl same
          | inr moved ↦ inr (s, moved)
        ])

  -- With a cursor store that does not fail, a whole cycle leaves the cursor as it was, or it has a
  -- start ledger and leaves the cursor of a page all of whose events it reconciled without an error.
  pub worker_cycle-moves_cursor_last :
      (start : Option ℕ) (s : S) (c : Option EventCursor)
      → ((worker_cycle port lower ledgers kept source start s c).1.1 ≡ c)
        ⊎ MovedAfterPage start c (worker_cycle port lower ledgers kept source start s c).1.1
  unfolding worker_cycle
  worker_cycle-moves_cursor_last start s c =
      (Leaves-next {P = λ after. (after.1 ≡ c) ⊎ MovedAfterPage start c after.1} (λ s'. (s', c))
        (confirm_submitted_settlements port lower s) (λ s'. inl refl)
        (λ receipts s'.
          Leaves-next (λ s''. (s'', c)) (expire_known port ledgers s') (λ s''. inl refl)
            (λ expiry s''. read_events-Leaves start s'' c))).left
