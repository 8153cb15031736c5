-- ===== src/Worker/Confirmation/Accounting.antt =====
-- Every settlement and every event that a loop of confirmationWorker.ts scans is counted once.
use rosa_pay_application.Base.{
  ℕ, ◌+◌, ◌≡◌, String, List, [], ◌∷◌, Result, ok, err, length, arith, inl, inr, Option-cases,
  Bool-cases, ◌&&◌, ◌==◌, any, str_eq, subst,
}
use rosa_pay_application.Worker.Confirmation.{
  SubmittedSettlement, SettlementEvent, Receipt, received, not_found, stellar_error, other_error,
  ConfirmationSummary, EventConfirmationSummary, Port, and_then, settle_receipt, confirm_each,
  confirm_submitted_settlements, settle_event, reconcile_event, reconcile_each,
  reconcile_settlement_events, same_hash, find_submitted,
}

abbrev pub counted : ConfirmationSummary → ℕ
counted c = c.confirmed + c.failed + c.pending

abbrev pub counted_events : EventConfirmationSummary → ℕ
counted_events c = c.confirmed + c.failed + c.pending + c.ignored

abbrev YieldsAt : {E A : Type 0} → (A → Type 0) → Result E A → Type 0
YieldsAt P (ok a) = P a
YieldsAt P (err e) = Unit

module _ {E S : Type 0} where
  -- A property of the value, where there is one.
  record Yields {A : Type 0} (P : A → Type 0) (m : Result E A × S) : Type 0 where
    holds : YieldsAt P m.0

  yields : {A : Type 0} {P : A → Type 0} {a : A} {s : S} → P a → Yields P (ok a, s)
  yields p = record { holds = p }

  Yields-chain :
      {A B : Type 0} {P : A → Type 0} {Q : B → Type 0} {m : Result E A × S}
      {k : A → S → Result E B × S}
      → Yields P m
      → ((a : A) (s : S) → P a → Yields Q (k a s))
      → Yields Q (and_then m k)
  unfolding and_then
  Yields-chain {m = (ok a, s)} p h = h a s p.holds
  Yields-chain {m = (err e, s)} p h = record { holds = tt }

  -- Nothing is known of the value of a call through a port.
  unknown : {A : Type 0} (m : Result E A × S) → Yields (λ a. Unit {0}) m
  unknown (ok a, s) = record { holds = tt }
  unknown (err e, s) = record { holds = tt }

  Yields-weaken :
      {A : Type 0} {P Q : A → Type 0} {m : Result E A × S}
      → Yields P m
      → ((a : A) → P a → Q a)
      → Yields Q m
  Yields-weaken {m = (ok a, s)} p h = record { holds = h a p.holds }
  Yields-weaken {m = (err e, s)} p h = record { holds = tt }

module _ {E S : Type 0} (port : Port E S) where
  abbrev CountsOne : ConfirmationSummary → ConfirmationSummary → Type 0
  CountsOne c d = (counted d ≡ counted c + 1) × (d.scanned ≡ c.scanned)

  abbrev CountsOneEvent : EventConfirmationSummary → EventConfirmationSummary → Type 0
  CountsOneEvent c d = (counted_events d ≡ counted_events c + 1) × (d.scanned ≡ c.scanned)

  module _ (lower : String → String) where
    settle_receipt-counts :
        (settlement : SubmittedSettlement) (receipt : Receipt) (c : ConfirmationSummary) (s : S)
        → Yields (CountsOne c) (settle_receipt port lower settlement receipt c s)
    unfolding settle_receipt
    settle_receipt-counts settlement not_found c s = yields (omega arith)
    settle_receipt-counts settlement (stellar_error code) c s =
        Yields-chain (unknown _) (λ _ _ _. yields (omega arith))
    settle_receipt-counts settlement other_error c s =
        Yields-chain (unknown _) (λ _ _ _. yields (omega arith))
    settle_receipt-counts settlement (received receipt) c s =
        elim (Bool-cases (same_hash lower receipt.tx_hash settlement.transaction_hash)) [
          | inl same ↦ rw same (Yields-chain (unknown _) (λ _ _ _. yields (omega arith)))
          | inr other ↦ rw other (Yields-chain (unknown _) (λ _ _ _. yields (omega arith)))
        ]

    confirm_each-counts :
        (submitted : List SubmittedSettlement) (c : ConfirmationSummary) (s : S)
        → Yields
            (λ d. (counted d ≡ counted c + length submitted) × (d.scanned ≡ c.scanned))
            (confirm_each port lower submitted c s)
    unfolding confirm_each
    confirm_each-counts [] c s = yields (omega arith)
    confirm_each-counts (settlement ∷ rest) c s =
        Yields-chain (settle_receipt-counts settlement _ c _) (λ c' s' one.
          Yields-weaken (confirm_each-counts rest c' s') (λ d done. omega (arith, one, done)))

    -- If the loop over the submitted settlements comes to its end, it has counted each of them
    -- once, as confirmed, failed or pending.
    pub confirm_submitted-accounts :
        (s s' : S) (c : ConfirmationSummary)
        → confirm_submitted_settlements port lower s ≡ (ok c, s')
        → c.confirmed + c.failed + c.pending ≡ c.scanned
    unfolding confirm_submitted_settlements
    confirm_submitted-accounts s s' c e =
        (subst (Yields (λ d. counted d ≡ d.scanned)) e (
          Yields-chain (unknown _) (λ submitted s'' _.
            Yields-weaken (confirm_each-counts submitted _ s'')
              (λ d done. omega (arith, done))))).holds

    settle_event-counts :
        (settlement : SubmittedSettlement) (event : SettlementEvent) (receipt : Receipt)
        (c : EventConfirmationSummary) (s : S)
        → Yields (CountsOneEvent c) (settle_event port lower settlement event receipt c s)
    unfolding settle_event
    settle_event-counts settlement event not_found c s = yields (omega arith)
    settle_event-counts settlement event (stellar_error code) c s =
        Yields-chain (unknown _) (λ _ _ _. yields (omega arith))
    settle_event-counts settlement event other_error c s =
        Yields-chain (unknown _) (λ _ _ _. yields (omega arith))
    settle_event-counts settlement event (received receipt) c s =
        elim (Bool-cases (
          same_hash lower receipt.tx_hash event.transaction_hash
          && receipt.ledger == event.ledger)) [
            | inl same ↦ rw same (Yields-chain (unknown _) (λ _ _ _. yields (omega arith)))
            | inr other ↦ rw other (Yields-chain (unknown _) (λ _ _ _. yields (omega arith)))
          ]

    reconcile_event-counts :
        (submitted : List SubmittedSettlement) (event : SettlementEvent)
        (c : EventConfirmationSummary) (s : S)
        → Yields (CountsOneEvent c) (reconcile_event port lower submitted event c s)
    unfolding reconcile_event
    reconcile_event-counts submitted event c s =
        elim (Option-cases (find_submitted port lower event.intent_id submitted)) [
          | inl missing ↦ rw (missing, reconcile_event) (yields (omega arith))
          | inr (settlement, found) ↦
              elim (Bool-cases
                (same_hash lower settlement.transaction_hash event.transaction_hash)) [
                  | inl same ↦
                      rw (found, reconcile_event)
                        (rw same (settle_event-counts settlement event _ c _))
                  | inr other ↦
                      rw (found, reconcile_event)
                        (rw other (Yields-chain (unknown _) (λ _ _ _. yields (omega arith))))
                ]
        ]

    reconcile_each-counts :
        (submitted : List SubmittedSettlement) (seen : List String) (events : List SettlementEvent)
        (c : EventConfirmationSummary) (s : S)
        → Yields
            (λ d. (counted_events d ≡ counted_events c + length events) × (d.scanned ≡ c.scanned))
            (reconcile_each port lower submitted seen events c s)
    unfolding reconcile_each
    reconcile_each-counts submitted seen [] c s = yields (omega arith)
    reconcile_each-counts submitted seen (event ∷ rest) c s =
        elim (Bool-cases (any (str_eq event.intent_id) seen)) [
          | inl repeated ↦ rw repeated (
              Yields-weaken (reconcile_each-counts submitted seen rest _ s)
                (λ d done. omega (arith, done)))
          | inr fresh ↦ rw fresh (
              Yields-chain (reconcile_event-counts submitted event c s) (λ c' s' one.
                Yields-weaken (reconcile_each-counts submitted (event.intent_id ∷ seen) rest c' s')
                  (λ d done. omega (arith, one, done))))
        ]

    -- If the loop over a page of events comes to its end, it has counted each of them once, as
    -- confirmed, failed, pending or ignored.
    pub reconcile_events-accounts :
        (events : List SettlementEvent) (s s' : S) (c : EventConfirmationSummary)
        → reconcile_settlement_events port lower events s ≡ (ok c, s')
        → (c.confirmed + c.failed + c.pending + c.ignored ≡ length events)
          × (c.scanned ≡ length events)
    unfolding reconcile_settlement_events
    reconcile_events-accounts events s s' c e =
        (subst (Yields (λ d. (counted_events d ≡ length events) × (d.scanned ≡ length events))) e (
          Yields-chain (unknown _) (λ submitted s'' _.
            Yields-weaken (reconcile_each-counts submitted [] events _ s'')
              (λ d done. omega (arith, done))))).holds
