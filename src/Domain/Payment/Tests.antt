-- ===== src/Domain/Payment/Tests.antt =====
-- A payment that is paid, and the requests that its guard refuses.
use rosa_pay_application.Base.{◌⊎◌, ok, err, ◌+◌, ◌≤◌, ◌≡◌, refl, none, List, [], ◌∷◌}
use rosa_pay_application.Domain.Payment.{
  PaymentStatus, created, awaiting_approval, authorized, submitted, confirmed, expired, failed,
  Payment, is_allowed, transition_payment, invalid_payment_transition,
}
use rosa_pay_application.Domain.Payment.Lifecycle.{
  ◌⟶◌, replay, remaining, replay_bounded, transition_payment-follows_diagram,
}

abbrev fresh : Payment
fresh = record { intent_id = "i"; status = created; transaction_hash = none; failure_code = none }

abbrev requests : List PaymentStatus
requests =
    awaiting_approval ∷ submitted ∷ authorized ∷ submitted ∷ expired ∷ confirmed ∷ failed ∷ []

pays : replay fresh requests ≡ (record fresh { status = confirmed }, 4)
unfolding replay transition_payment is_allowed
pays = refl

replay_bounded_example : (replay fresh requests).1 + remaining (replay fresh requests).0.status ≤ 4
replay_bounded_example = replay_bounded fresh requests

transition_payment-follows_diagram_example :
    ((created ⟶ submitted)
      × (transition_payment fresh submitted ≡ ok (record fresh { status = submitted })))
    ⊎ ((¬ (created ⟶ submitted))
        × (transition_payment fresh submitted ≡ err (invalid_payment_transition created submitted)))
transition_payment-follows_diagram_example = transition_payment-follows_diagram fresh submitted
