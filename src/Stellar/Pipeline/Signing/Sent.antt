-- ===== src/Stellar/Pipeline/Signing/Sent.antt =====
-- What has been signed when a settlement is sent.
use rosa_pay_application.Base.{
  ◌≤◌, ◌≡◌, refl, ap, sym, ◌∙◌, true, false, List, [], ◌∷◌, ◌++◌, Result, ok, err, inl, inr, length,
  arith,
}
use rosa_pay_application.Stellar.Pipeline.{
  simulated, PipelineError, Effect, reported, sent, PipelineTransaction, PipelineInput, Run,
  and_then, does, build_settlement_call, require_signers, watch, sign_and_send, send_outcome,
  check_submission, authorize_call, authorize_transaction, deliver_call, submit_call,
  check_confirmation, settle_payment, SentTransaction, Receipt,
}
use rosa_pay_application.Stellar.Pipeline.Steps.{
  append_assoc, and_then-extends, and_then-cases, and_then-ok,
}
use rosa_pay_application.Stellar.Pipeline.Signing.{
  signers, is_sent, signers-append, is_sent-append, require-some, call-unsent, authorize-Signs,
}

-- How far a log has come before the transaction that the call gave is sent.
pub record IsSigned {E I : Type 0} (input : PipelineInput E I) (log : List Effect) : Type 0 where
  transaction : PipelineTransaction E
  built : (build_settlement_call input).0 ≡ ok transaction
  unsent : is_sent log ≡ false
  every : signers log ≡ transaction.needs_signing_by
  some_one : 1 ≤ length transaction.needs_signing_by

module _ {E I : Type 0} (input : PipelineInput E I) where
  authorized-some :
      (transaction result : PipelineTransaction E)
      → (authorize_transaction input transaction).0 ≡ ok result
      → 1 ≤ length transaction.needs_signing_by
  unfolding authorize_transaction
  authorized-some transaction result h =
      let (u, went, rest, log) = and_then-ok (does (reported simulated)) _ result h in
      let (v, some_needed, others, log') =
        and_then-ok (require_signers transaction.needs_signing_by) _ result rest in
      require-some transaction.needs_signing_by v some_needed

  authorize-IsSigned :
      (result : PipelineTransaction E)
      → (authorize_call input).0 ≡ ok result
      → IsSigned input (authorize_call input).1
  unfolding authorize_call build_settlement_call signers is_sent
  authorize-IsSigned result h =
      let (transaction, built, rest, log) =
        and_then-ok (build_settlement_call input) (authorize_transaction input) result h in
      let call = call-unsent input input.funding in
      let signing = authorize-Signs input transaction in
      record {
        transaction = transaction;
        built = built;
        unsent =
            ap is_sent log
            ∙ (is_sent-append (build_settlement_call input).1
                  (authorize_transaction input transaction).1 call.unsent
                ∙ signing.unsent);
        every =
            ap signers log
            ∙ (signers-append (build_settlement_call input).1
                  (authorize_transaction input transaction).1
                ∙ (ap (λ l. l ++ signers (authorize_transaction input transaction).1)
                      (call.signs transaction built)
                    ∙ signing.signs result rest));
        some_one = authorized-some transaction result rest;
      }

  authorize-unsent : is_sent (authorize_call input).1 ≡ false
  unfolding authorize_call build_settlement_call
  authorize-unsent =
      let call = call-unsent input input.funding in
      elim (and_then-cases (build_settlement_call input) (authorize_transaction input)) [
        | inl (e, stopped, same) ↦ ap (λ r. is_sent r.1) same ∙ call.unsent
        | inr (transaction, went, same) ↦
            ap (λ r. is_sent r.1) same
            ∙ (is_sent-append (build_settlement_call input).1
                  (authorize_transaction input transaction).1 call.unsent
                ∙ (authorize-Signs input transaction).unsent)
      ]

  stopped-unsent :
      (e : PipelineError E) (B : Type 0) (k : SentTransaction → Run E B)
      → submit_call input ≡ (err e, (authorize_call input).1)
      → is_sent (and_then (submit_call input) k).1 ≡ false
  stopped-unsent e B k stopped = elim (and_then-cases (submit_call input) k) [
    | inl (e', h, same) ↦
        ap (λ r. is_sent r.1) same ∙ (ap (λ r. is_sent r.1) stopped ∙ authorize-unsent)
    | inr (outcome, went, same) ↦ failed (sym (ap (λ r. r.0) stopped) ∙ went)
  ]
    where
      failed : {A C : Type 0} {o : A} → ◌≡◌ {A = Result (PipelineError E) A} (err e) (ok o) → C
      failed h = ground arith

send-first :
    {E : Type 0} (outcome : Result E SentTransaction) (told : List Effect)
    → (send_outcome outcome told).1 ≡ sent ∷ told
unfolding send_outcome
send-first (ok outcome) told = refl
send-first (err e) told = refl

deliver-first :
    {E : Type 0} (transaction : PipelineTransaction E)
    → (after : List Effect) × ((deliver_call transaction).1 ≡ sent ∷ after)
unfolding deliver_call sign_and_send
deliver-first transaction =
    let told = watch transaction.watched in
    let (more, log) = and_then-extends (send_outcome transaction.send told) (λ outcome.
      and_then (check_submission (outcome.0).submission outcome.1) (λ _. (ok outcome.0, []))) in
    (told ++ more, log ∙ ap (λ l. l ++ more) (send-first transaction.send told))

-- If a settlement is sent, then the call has given a transaction, and before that point nothing else
-- was sent and every signer that the transaction needs, of whom there is one at least, has signed, in
-- the order in which it names them, and no one else.
pub settle_payment-IsSigned :
    (E I : Type 0) (input : PipelineInput E I)
    → is_sent (settle_payment input).1 ≡ true
    → (before after : List Effect) × ((settle_payment input).1 ≡ before ++ (sent ∷ after))
      × IsSigned input before
unfolding settle_payment submit_call
settle_payment-IsSigned E I input h =
    let k : SentTransaction → Run E Receipt = λ outcome. check_confirmation outcome.confirmation in
    let (more, log) = and_then-extends (submit_call input) k in
    elim (and_then-cases (authorize_call input) deliver_call) [
      | inl (e, stopped, same) ↦ absurd (sym h ∙ stopped-unsent input e Receipt k same)
      | inr (transaction, went, same) ↦
          let (after, first) = deliver-first transaction in
          let before = (authorize_call input).1 in
          (
            before,
            after ++ more,
            log
                ∙ (ap (λ r. r.1 ++ more) same
                    ∙ (ap (λ l. (before ++ l) ++ more) first
                        ∙ append_assoc before (sent ∷ after) more)),
            authorize-IsSigned input transaction went,
          )
    ]
  where
    absurd : {C : Type 0} → true ≡ false → C
    absurd e = ground arith
