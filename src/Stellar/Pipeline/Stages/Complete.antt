-- ===== src/Stellar/Pipeline/Stages/Complete.antt =====
-- The stages that a settlement reports which returns its receipt.
use rosa_pay_application.Base.{
  ℕ, ◌≤◌, ◌≡◌, refl, ap, sym, subst, ◌∙◌, String, Bool, true, false, not, Option, none, some, List,
  [], ◌∷◌, ◌++◌, Result, ok, err, inl, inr, length, arith, if◌then◌else◌, Bool-cases, str_eq,
}
use rosa_pay_application.Base.Text.{is_empty}
use rosa_pay_application.Stellar.Pipeline.{
  SettlementPipelineProgress, simulated, authorized, submitted, confirmed, SentTransaction,
  PipelineError, Effect, reported, PipelineTransaction, PipelineInput, Run, and_then, does,
  build_settlement_call, sign_each, require_signers, simulate_again, watch, is_reported,
  sign_and_send, check_submission, SendResponse, check_confirmation, stops, submission_failed,
  confirm_at, Receipt, TransactionResponse, authorize_call, authorize_transaction, submit_call,
  deliver_call, settle_payment, is_accepted, send_outcome,
}
use rosa_pay_application.Stellar.Pipeline.Steps.{
  append_nil, and_then-cases, and_then-ok, stages, stages-append,
}
use rosa_pay_application.Stellar.Pipeline.Stages.{
  climbs, build-quiet, sign_each-quiet, simulate_again-quiet, require_signers-quiet,
}
use rosa_pay_application.Stellar.Pipeline.Stages.Order.{submit-Climbs}

-- A run that returns has reported just these stages.
record Says {E A : Type 0} (told : List SettlementPipelineProgress) (m : Run E A) : Type 0 where
  says : (a : A) → m.0 ≡ ok a → stages m.1 ≡ told

abbrev pub only_submitted : List SettlementPipelineProgress → Bool
only_submitted [] = true
only_submitted (submitted hash ∷ rest) = only_submitted rest
only_submitted (simulated ∷ rest) = false
only_submitted (authorized ∷ rest) = false
only_submitted (confirmed hash ledger ∷ rest) = false

only_submitted-watch :
    (hashes : List (Option String)) → only_submitted (stages (watch hashes)) ≡ true
unfolding stages
only_submitted-watch [] = refl
only_submitted-watch (none ∷ rest) = only_submitted-watch rest
only_submitted-watch (some hash ∷ rest) = elim (Bool-cases (is_empty hash)) [
  | inl blank ↦ rw blank (only_submitted-watch rest)
  | inr told ↦ rw told (only_submitted-watch rest)
]

reported-watch :
    (hashes : List (Option String))
    → is_reported (watch hashes) ≡ true
    → 1 ≤ length (stages (watch hashes))
unfolding stages
reported-watch [] h = ground arith
reported-watch (none ∷ rest) h = reported-watch rest h
reported-watch (some hash ∷ rest) h = elim (Bool-cases (is_empty hash)) [
  | inl blank ↦ rw blank (
      reported-watch rest (
        subst
          (λ b.
            is_reported (if b then watch rest else reported (submitted hash) ∷ watch rest) ≡ true)
          blank h))
  | inr told ↦ rw told (omega arith)
]

module _ {E : Type 0} where
  and_then-Says :
      {A B : Type 0} (first second : List SettlementPipelineProgress) (m : Run E A)
      (k : A → Run E B)
      → Says first m
      → ((a : A) → Says second (k a))
      → Says (first ++ second) (and_then m k)
  and_then-Says first second m k before after = record {
    says = λ b h.
        let (a, went, goes, log) = and_then-ok m k b h in
        ap stages log
        ∙ (stages-append m.1 (k a).1
            ∙ (ap (λ l. l ++ stages (k a).1) (before.says a went)
                ∙ ap (λ l. first ++ l) ((after a).says b goes)));
  }

  quiet-Says : {A : Type 0} (m : Run E A) → stages m.1 ≡ [] → Says [] m
  quiet-Says m quiet = record { says = λ a h. quiet }

  does-Says :
      (progress : SettlementPipelineProgress)
      → Says {E = E} (progress ∷ []) (does (reported progress))
  does-Says progress = record { says = λ a h. unfold stages in refl }

  module _ {I : Type 0} (input : PipelineInput E I) where
    authorize-Says : Says (simulated ∷ authorized ∷ []) (authorize_call input)
    unfolding authorize_call authorize_transaction build_settlement_call
    authorize-Says =
        and_then-Says [] (simulated ∷ authorized ∷ []) (build_settlement_call input) _
          (quiet-Says (build_settlement_call input) (build-quiet input input.funding))
          (λ transaction.
            and_then-Says (simulated ∷ []) (authorized ∷ []) (does (reported simulated)) _
              (does-Says simulated)
              (λ _.
                and_then-Says [] (authorized ∷ []) (require_signers transaction.needs_signing_by) _
                  (quiet-Says (require_signers transaction.needs_signing_by)
                    (require_signers-quiet E transaction.needs_signing_by))
                  (λ _.
                    and_then-Says [] (authorized ∷ [])
                      (sign_each input.has_authorize_entry input.has_customer_signer transaction
                        transaction.needs_signing_by)
                      _
                      (quiet-Says
                        (sign_each input.has_authorize_entry input.has_customer_signer transaction
                          transaction.needs_signing_by)
                        (sign_each-quiet input.has_authorize_entry input.has_customer_signer
                          transaction transaction.needs_signing_by))
                      (λ _.
                        and_then-Says [] (authorized ∷ [])
                          (simulate_again input.has_authorize_entry transaction.simulate) _
                          (quiet-Says
                            (simulate_again input.has_authorize_entry transaction.simulate)
                            (simulate_again-quiet input.has_authorize_entry transaction.simulate))
                          (λ _.
                            and_then-Says (authorized ∷ []) [] (does (reported authorized)) _
                              (does-Says authorized)
                              (λ _. quiet-Says (ok transaction, []) (unfold stages in refl)))))))

-- One submission at least has been reported, and nothing else.
abbrev pub Submissions : List SettlementPipelineProgress → Type 0
Submissions told = (only_submitted told ≡ true) × (1 ≤ length told)

stages_nil : (log : List Effect) → stages (log ++ []) ≡ stages log
unfolding stages
stages_nil log = stages-append log [] ∙ append_nil (stages log)

-- The stages of a submission that was accepted.
abbrev IsSubmitted : List Effect → Type 0
IsSubmitted log =
    (told : List SettlementPipelineProgress) × Submissions told
    × (stages log ≡ simulated ∷ authorized ∷ told)

one_more :
    (hash : String) (before : List SettlementPipelineProgress)
    → only_submitted before ≡ true
    → Submissions (before ++ (submitted hash ∷ []))
one_more hash [] h = (refl, omega arith)
one_more hash (submitted h' ∷ rest) h = ((one_more hash rest h).0, omega arith)
one_more hash (simulated ∷ rest) h = ground arith
one_more hash (authorized ∷ rest) h = ground arith
one_more hash (confirmed h' l ∷ rest) h = ground arith

module _ {E : Type 0} where
  sent-stages :
      (outcome : Result E SentTransaction) (told : List Effect) (result : SentTransaction × Bool)
      → (send_outcome outcome told).0 ≡ ok result
      → (result.1 ≡ is_reported told) × (stages (send_outcome outcome told).1 ≡ stages told)
  unfolding send_outcome stages
  sent-stages (ok sent_one) told result h = (ground arith, refl)
  sent-stages (err e) told result h = ground arith

  accepted-stages :
      (accepted told : Bool) (hash : String) (before : List SettlementPipelineProgress)
      → Submissions (before ++ (submitted hash ∷ []))
      → (told ≡ true → Submissions before)
      → let m : Run E (Unit {0}) =
          if not accepted
          then stops submission_failed
          else if told
          then (ok tt, [])
          else does (reported (submitted hash)) in
        m.0 ≡ ok tt → Submissions (before ++ stages m.1)
  unfolding stages
  accepted-stages true true hash before one_more told h =
      subst Submissions (sym (append_nil before)) (told refl)
  accepted-stages true false hash before one_more told h = one_more
  accepted-stages false told hash before one_more some_told h = ground arith

  submission-stages :
      (response : Option SendResponse) (told : Bool) (before : List SettlementPipelineProgress)
      → only_submitted before ≡ true
      → (told ≡ true → 1 ≤ length before)
      → (check_submission {E = E} response told).0 ≡ ok tt
      → Submissions (before ++ stages (check_submission {E = E} response told).1)
  unfolding check_submission
  submission-stages none told before only some_told h = ground arith
  submission-stages (some response) told before only some_told h =
      accepted-stages (is_accepted response.status) told response.hash before
        (one_more response.hash before only) (λ t. (only, some_told t)) h

  delivery-stages :
      (transaction : PipelineTransaction E) (outcome : SentTransaction)
      → (deliver_call transaction).0 ≡ ok outcome
      → Submissions (stages (deliver_call transaction).1)
  unfolding deliver_call sign_and_send
  delivery-stages transaction outcome h =
      let told = watch transaction.watched in
      let k : SentTransaction × Bool → Run E SentTransaction = λ result.
        and_then (check_submission (result.0).submission result.1) (λ _. (ok result.0, [])) in
      let (result, went, goes, log) =
        and_then-ok (send_outcome transaction.send told) k outcome h in
      let (flag, same) = sent-stages transaction.send told result went in
      let (u, checked, returned, inner) =
        and_then-ok (check_submission (result.0).submission result.1) (λ _. (ok result.0, []))
          outcome goes in
      let checking = check_submission (result.0).submission result.1 in
      let submissions : Submissions (stages told ++ stages checking.1) =
        submission-stages (result.0).submission result.1 (stages told)
          (only_submitted-watch transaction.watched)
          (λ t. reported-watch transaction.watched (sym flag ∙ t)) checked in
      let all_stages : stages (deliver_call transaction).1 ≡ stages told ++ stages checking.1 =
        ap stages log
        ∙ (stages-append (send_outcome transaction.send told).1 (k result).1
            ∙ (ap (λ l. l ++ stages (k result).1) same
                ∙ ap (λ l. stages told ++ l) (ap stages inner ∙ stages_nil checking.1))) in
      subst Submissions (sym all_stages) submissions

  submit-stages :
      {I : Type 0} (input : PipelineInput E I) (outcome : SentTransaction)
      → (submit_call input).0 ≡ ok outcome
      → IsSubmitted (submit_call input).1
  unfolding submit_call
  submit-stages input outcome h =
      let (transaction, went, goes, log) =
        and_then-ok (authorize_call input) deliver_call outcome h in
      (
        stages (deliver_call transaction).1,
        delivery-stages transaction outcome goes,
        ap stages log
            ∙ (stages-append (authorize_call input).1 (deliver_call transaction).1
                ∙ ap (λ l. l ++ stages (deliver_call transaction).1)
                    ((authorize-Says input).says transaction went)),
      )

abbrev pub IsReported : {E : Type 0} → Run E Receipt → Type 0
IsReported (ok receipt, log) =
    (told : List SettlementPipelineProgress) × Submissions told
    × (stages log
        ≡ simulated
          ∷ authorized
          ∷ (told ++ (confirmed receipt.transaction_hash receipt.ledger ∷ [])))
IsReported (err e, log) = climbs 0 3 (stages log) ≡ true

ended-in_order :
    {E : Type 0} (log : List Effect) (e : PipelineError E)
    → climbs 0 3 (stages log) ≡ true
    → IsReported (err e, log ++ [])
ended-in_order log e h = subst (λ l. climbs 0 3 l ≡ true) (sym (stages_nil log)) h

status-reports :
    (E : Type 0) (success : Bool) (response : TransactionResponse) (ledger : Option ℕ)
    (log : List Effect)
    → climbs 0 3 (stages log) ≡ true
    → IsSubmitted log
    → let m : Run E Receipt =
        if success then confirm_at response ledger else stops PipelineError.confirmation_failed in
      IsReported (m.0, log ++ m.1)
unfolding stages
status-reports E false response ledger log h k =
    ended-in_order {E = E} log PipelineError.confirmation_failed h
status-reports E true response none log h k =
    ended-in_order {E = E} log PipelineError.confirmation_failed h
status-reports E true response (some ledger) log h (told, submissions, same) = (
  told,
  submissions,
  stages-append log (reported (confirmed response.tx_hash ledger) ∷ [])
      ∙ ap (λ l. l ++ (confirmed response.tx_hash ledger ∷ [])) same,
)

confirmation-reports :
    (E : Type 0) (response : Option TransactionResponse) (log : List Effect)
    → climbs 0 3 (stages log) ≡ true
    → IsSubmitted log
    → IsReported
        ((check_confirmation {E = E} response).0, log ++ (check_confirmation {E = E} response).1)
unfolding check_confirmation
confirmation-reports E none log h k = ended-in_order {E = E} log PipelineError.confirmation_failed h
confirmation-reports E (some response) log h k =
    status-reports E (str_eq response.status "SUCCESS") response response.ledger log h k

-- A settlement that returns a receipt has reported `simulated`, `authorized`, one `submitted` or more,
-- and last `confirmed` with the hash and the ledger of the receipt; one that stops at an error has
-- reported its stages in this order too, and no `confirmed`.
pub settle_payment-reports :
    (E I : Type 0) (input : PipelineInput E I) → IsReported (settle_payment input)
unfolding settle_payment
settle_payment-reports E I input =
    let k : SentTransaction → Run E Receipt = λ outcome. check_confirmation outcome.confirmation in
    elim (and_then-cases (submit_call input) k) [
      | inl (e, stopped, same) ↦ subst IsReported (sym same) (submit-Climbs input).in_order
      | inr (outcome, went, same) ↦ subst IsReported (sym same) (
          confirmation-reports E outcome.confirmation (submit_call input).1
            (submit-Climbs input).in_order (submit-stages input outcome went))
    ]
