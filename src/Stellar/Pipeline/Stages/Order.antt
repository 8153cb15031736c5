-- ===== src/Stellar/Pipeline/Stages/Order.antt =====
-- The stages come in order, also in a settlement that stops at an error.
use rosa_pay_application.Base.{
  ℕ, ◌≤◌, ◌≡◌, refl, String, Bool, true, not, Option, none, some, List, [], ◌∷◌, Result, ok, err,
  inl, inr, arith, Bool-cases,
}
use rosa_pay_application.Base.Text.{is_empty}
use rosa_pay_application.Stellar.Pipeline.{
  SettlementPipelineProgress, simulated, authorized, submitted, SentTransaction, Effect, reported,
  PipelineInput, does, build_settlement_call, sign_each, require_signers, simulate_again, watch,
  sign_and_send, check_submission, SendResponse, authorize_call, authorize_transaction, submit_call,
  deliver_call, is_accepted, stops, submission_failed, send_outcome,
}
use rosa_pay_application.Stellar.Pipeline.Steps.{stages}
use rosa_pay_application.Stellar.Pipeline.Stages.{
  climbs, Climbs, and_then-Climbs, quiet-Climbs, build-quiet, sign_each-quiet, simulate_again-quiet,
  require_signers-quiet, rank, branch-Climbs,
}

climbs-watch :
    (low : ℕ) (hashes : List (Option String))
    → low ≤ 3
    → climbs low 3 (stages (watch hashes)) ≡ true
unfolding climbs stages
climbs-watch low [] h = ground arith
climbs-watch low (none ∷ rest) h = climbs-watch low rest h
climbs-watch low (some hash ∷ rest) h = elim (Bool-cases (is_empty hash)) [
  | inl blank ↦ rw blank (climbs-watch low rest h)
  | inr told ↦ rw told (ground (arith, climbs-watch 3 rest (omega arith)))
]

module _ {E : Type 0} where
  does-Climbs :
      (low : ℕ) (progress : SettlementPipelineProgress)
      → climbs low (rank progress) (progress ∷ []) ≡ true
      → Climbs {E = E} low (rank progress) (does (reported progress))
  does-Climbs low progress h = record { in_order = unfold stages in h }

  submission-Climbs :
      (response : Option SendResponse) (told : Bool)
      → Climbs {E = E} 3 3 (check_submission response told)
  unfolding check_submission stages climbs
  submission-Climbs none told = quiet-Climbs 3 (stops submission_failed) refl
  submission-Climbs (some response) told =
      branch-Climbs 3 3 (not (is_accepted response.status)) (stops submission_failed) _
        (quiet-Climbs 3 (stops submission_failed) refl)
        (branch-Climbs 3 3 told (ok tt, []) (does (reported (submitted response.hash)))
          (quiet-Climbs 3 (ok tt, []) refl) (does-Climbs 3 (submitted response.hash) refl))

  send-Climbs :
      (outcome : Result E SentTransaction) (told : List Effect)
      → climbs 2 3 (stages told) ≡ true
      → Climbs 2 3 (send_outcome outcome told)
  unfolding send_outcome stages
  send-Climbs (ok outcome) told h = record { in_order = h }
  send-Climbs (err e) told h = record { in_order = h }

  module _ {I : Type 0} (input : PipelineInput E I) where
    authorize-Climbs : Climbs 0 2 (authorize_call input)
    unfolding authorize_call authorize_transaction build_settlement_call
    authorize-Climbs =
        and_then-Climbs 0 0 2 (build_settlement_call input) _ (omega arith)
          (quiet-Climbs 0 (build_settlement_call input) (build-quiet input input.funding))
          (λ transaction.
            and_then-Climbs 0 1 2 (does (reported simulated)) _ (omega arith)
              (does-Climbs 0 simulated (unfold climbs in refl))
              (λ _.
                and_then-Climbs 1 1 2 (require_signers transaction.needs_signing_by) _ (omega arith)
                  (quiet-Climbs 1 (require_signers transaction.needs_signing_by)
                    (require_signers-quiet E transaction.needs_signing_by))
                  (λ _.
                    and_then-Climbs 1 1 2
                      (sign_each input.has_authorize_entry input.has_customer_signer transaction
                        transaction.needs_signing_by)
                      _ (omega arith)
                      (quiet-Climbs 1
                        (sign_each input.has_authorize_entry input.has_customer_signer transaction
                          transaction.needs_signing_by)
                        (sign_each-quiet input.has_authorize_entry input.has_customer_signer
                          transaction transaction.needs_signing_by))
                      (λ _.
                        and_then-Climbs 1 1 2
                          (simulate_again input.has_authorize_entry transaction.simulate) _
                          (omega arith)
                          (quiet-Climbs 1
                            (simulate_again input.has_authorize_entry transaction.simulate)
                            (simulate_again-quiet input.has_authorize_entry transaction.simulate))
                          (λ _.
                            and_then-Climbs 1 2 2 (does (reported authorized)) _ (omega arith)
                              (does-Climbs 1 authorized (unfold climbs in refl))
                              (λ _.
                                quiet-Climbs 2 (ok transaction, []) (unfold stages in refl)))))))

    pub submit-Climbs : Climbs 0 3 (submit_call input)
    unfolding submit_call deliver_call sign_and_send
    submit-Climbs =
        and_then-Climbs 0 2 3 (authorize_call input) _ (omega arith) authorize-Climbs
          (λ transaction.
            and_then-Climbs 2 3 3 (sign_and_send transaction) _ (omega arith)
              (send-Climbs transaction.send (watch transaction.watched)
                (climbs-watch 2 transaction.watched (omega arith)))
              (λ outcome.
                and_then-Climbs 3 3 3 (check_submission (outcome.0).submission outcome.1) _
                  (omega arith) (submission-Climbs (outcome.0).submission outcome.1)
                  (λ _. quiet-Climbs 3 (ok outcome.0, []) (unfold stages in refl))))
