-- ===== src/Stellar/Pipeline/Tests.antt =====
-- A payment from a classic account, funded directly.
use rosa_pay_application.Base.{
  ℕ, ◌≡◌, refl, String, true, false, none, some, List, [], ◌∷◌, ◌++◌, ok,
}
use rosa_pay_application.Stellar.Pipeline.{
  PipelineTransaction, PipelineInput, Effect, sent, settle_payment, submit_call, deliver_call,
  authorize_call, authorize_transaction, build_settlement_call, call_with, sign_each, and_then,
  sign_and_send, send_outcome, check_submission, check_confirmation,
}
use rosa_pay_application.Stellar.Pipeline.Stages.Complete.{IsReported, settle_payment-reports}
use rosa_pay_application.Stellar.Pipeline.Signing.{is_sent}
use rosa_pay_application.Stellar.Pipeline.Signing.Sent.{IsSigned, settle_payment-IsSigned}

abbrev transaction : PipelineTransaction String
transaction = record {
  needs_signing_by = "payer" ∷ [];
  sign = λ contract address. none;
  simulate = none;
  watched = none ∷ some "h" ∷ [];
  send = ok (record {
    submission = some (record { status = "PENDING"; hash = "h" });
    confirmation = some (record { status = "SUCCESS"; tx_hash = "h"; ledger = some 7 });
  });
}

abbrev input : PipelineInput String ℕ
input = record {
  client = record { settle_payment = λ i s. ok transaction; settle_payment_with_swap = none };
  intent = 1;
  merchant_signature = [];
  has_customer_signer = true;
  has_authorize_entry = false;
  funding = none;
}

sends : is_sent (settle_payment input).1 ≡ true
unfolding settle_payment submit_call deliver_call authorize_call authorize_transaction
    build_settlement_call call_with sign_each and_then sign_and_send send_outcome check_submission
    check_confirmation is_sent
sends = refl

settle_payment-reports_example : IsReported (settle_payment input)
settle_payment-reports_example = settle_payment-reports String ℕ input

settle_payment-IsSigned_example :
    (before after : List Effect) × ((settle_payment input).1 ≡ before ++ (sent ∷ after))
    × IsSigned input before
settle_payment-IsSigned_example = settle_payment-IsSigned String ℕ input sends
