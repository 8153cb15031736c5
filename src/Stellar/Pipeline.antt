-- ===== src/Stellar/Pipeline.antt =====
-- `settlePayment` of packages/stellar/src/settlementPipeline.ts, with what it does to the outside kept
-- in a log. The client, its transaction and what they throw, `E`, are arguments.
pub mod Steps
pub mod Stages
pub mod Signing
mod Tests
use rosa_pay_application.Base.{
  ℕ, ℤ, String, Bool, true, false, not, ◌&&◌, ◌||◌, Option, none, some, List, [], ◌∷◌, ◌++◌, Result,
  ok, err, str_eq, if◌then◌else◌,
}
use rosa_pay_application.Base.Text.{is_empty}

pub record SettlementFunding : Type 0 where
  pub path : List String
  pub amount_in_max : ℤ
  pub deadline : ℤ

pub data SettlementPipelineProgress : Type 0 where
  simulated authorized : SettlementPipelineProgress
  submitted : String → SettlementPipelineProgress
  confirmed : String → ℕ → SettlementPipelineProgress

pub record SendResponse : Type 0 where
  pub status : String
  pub hash : String

pub record TransactionResponse : Type 0 where
  pub status : String
  pub tx_hash : String
  pub ledger : Option ℕ

pub record SentTransaction : Type 0 where
  pub submission : Option SendResponse
  pub confirmation : Option TransactionResponse

pub record Receipt : Type 0 where
  pub transaction_hash : String
  pub ledger : ℕ

pub data PipelineError (E : Type 0) : Type 0 where
  customer_auth_required submission_failed confirmation_failed swap_unsupported : PipelineError E
  thrown : E → PipelineError E

-- What is done to the outside. `signed` carries whether the contract account's authorizer was used.
pub data Effect : Type 0 where
  called : Option SettlementFunding → Effect
  reported : SettlementPipelineProgress → Effect
  signed : Bool → String → Effect
  simulated_again sent : Effect

-- The transaction that a simulated call gives. `watched` are the hashes, if any, of the responses that
-- the watcher is told of; `send` is what the promise of `signAndSend` comes to.
pub record PipelineTransaction (E : Type 0) : Type 0 where
  pub needs_signing_by : List String
  pub sign : Bool → String → Option E
  pub simulate : Option (Option E)
  pub watched : List (Option String)
  pub send : Result E SentTransaction

pub record PipelineClient (E I : Type 0) : Type 0 where
  pub settle_payment : I → List ℕ → Result E (PipelineTransaction E)
  pub settle_payment_with_swap :
      Option (I → List ℕ → SettlementFunding → Result E (PipelineTransaction E))

pub record PipelineInput (E I : Type 0) : Type 0 where
  pub client : PipelineClient E I
  pub intent : I
  pub merchant_signature : List ℕ
  pub has_customer_signer : Bool
  pub has_authorize_entry : Bool
  pub funding : Option SettlementFunding

-- A run that has ended, or stopped at an error, and what it did.
abbrev pub Run : Type 0 → Type 0 → Type 0
Run E A = Result (PipelineError E) A × List Effect

-- `onSubmitted`: a response without a hash, or with an empty one, is not reported.
abbrev pub watch : List (Option String) → List Effect
watch [] = []
watch (none ∷ rest) = watch rest
watch (some hash ∷ rest) =
    let later = watch rest in if is_empty hash then later else reported (submitted hash) ∷ later

abbrev pub is_reported : List Effect → Bool
is_reported [] = false
is_reported (effect ∷ rest) = true

-- The status `PENDING` or `DUPLICATE`.
abbrev pub is_accepted : String → Bool
is_accepted status = str_eq status "PENDING" || str_eq status "DUPLICATE"

module _ {E : Type 0} where
  unfoldable pub and_then : {A B : Type 0} → Run E A → (A → Run E B) → Run E B
  and_then (ok a, log) k = let (result, rest) = k a in (result, log ++ rest)
  and_then (err e, log) k = (err e, log)

  abbrev pub does : Effect → Run E (Unit {0})
  does effect = (ok tt, effect ∷ [])

  abbrev pub stops : {A : Type 0} → PipelineError E → Run E A
  stops e = (err e, [])

  abbrev pub or_throw : {A : Type 0} → Result E A → Run E A
  or_throw (ok a) = (ok a, [])
  or_throw (err e) = (err (thrown e), [])

  -- An effect whose promise may be rejected.
  abbrev pub attempt : Effect → Option E → Run E (Unit {0})
  attempt effect none = (ok tt, effect ∷ [])
  attempt effect (some e) = (err (thrown e), effect ∷ [])

  -- The funded call, if the contract's client has it.
  unfoldable pub call_swap :
      {I : Type 0}
      → Option (I → List ℕ → SettlementFunding → Result E (PipelineTransaction E))
      → I
      → List ℕ
      → SettlementFunding
      → Run E (PipelineTransaction E)
  call_swap none intent signature funding = stops swap_unsupported
  call_swap (some swap) intent signature funding =
      and_then (does (called (some funding))) (λ _. or_throw (swap intent signature funding))

  unfoldable pub call_with :
      {I : Type 0} → PipelineInput E I → Option SettlementFunding → Run E (PipelineTransaction E)
  call_with input none =
      and_then (does (called none))
        (λ _. or_throw (input.client.settle_payment input.intent input.merchant_signature))
  call_with input (some funding) =
      call_swap input.client.settle_payment_with_swap input.intent input.merchant_signature funding

  unfoldable pub build_settlement_call :
      {I : Type 0} → PipelineInput E I → Run E (PipelineTransaction E)
  build_settlement_call input = call_with input input.funding

  -- The loop over the required signers.
  unfoldable pub sign_each :
      (contract_account classic : Bool) → PipelineTransaction E → List String → Run E (Unit {0})
  sign_each contract_account classic transaction [] = (ok tt, [])
  sign_each contract_account classic transaction (address ∷ rest) =
      let signing =
        and_then
          (attempt (signed contract_account address) (transaction.sign contract_account address))
          (λ _. sign_each contract_account classic transaction rest) in
      if not contract_account && not classic then stops customer_auth_required else signing

  abbrev pub require_signers : List String → Run E (Unit {0})
  require_signers [] = stops customer_auth_required
  require_signers (address ∷ rest) = (ok tt, [])

  -- `await transaction.simulate?.({restore: true})`, for a contract account.
  abbrev pub simulate_again : Bool → Option (Option E) → Run E (Unit {0})
  simulate_again false simulate = (ok tt, [])
  simulate_again true none = (ok tt, [])
  simulate_again true (some outcome) = attempt simulated_again outcome

  -- Submission: what was sent, and whether the watcher reported it.
  unfoldable pub send_outcome :
      Result E SentTransaction → List Effect → Run E (SentTransaction × Bool)
  send_outcome (ok outcome) told = (ok (outcome, is_reported told), sent ∷ told)
  send_outcome (err e) told = (err (thrown e), sent ∷ told)

  unfoldable pub sign_and_send : PipelineTransaction E → Run E (SentTransaction × Bool)
  sign_and_send transaction = send_outcome transaction.send (watch transaction.watched)

  unfoldable pub check_submission : Option SendResponse → Bool → Run E (Unit {0})
  check_submission none told = stops submission_failed
  check_submission (some response) told =
      if not (is_accepted response.status)
      then stops submission_failed
      else if told
      then (ok tt, [])
      else does (reported (submitted response.hash))

  abbrev pub confirm_at : TransactionResponse → Option ℕ → Run E Receipt
  confirm_at response none = stops confirmation_failed
  confirm_at response (some ledger) = (
    ok (record { transaction_hash = response.tx_hash; ledger = ledger }),
    reported (confirmed response.tx_hash ledger) ∷ [],
  )

  unfoldable pub check_confirmation : Option TransactionResponse → Run E Receipt
  check_confirmation none = stops confirmation_failed
  check_confirmation (some response) =
      let done = confirm_at response response.ledger in
      if str_eq response.status "SUCCESS" then done else stops confirmation_failed

  -- From the simulated call to the last signature.
  unfoldable pub authorize_transaction :
      {I : Type 0} → PipelineInput E I → PipelineTransaction E → Run E (PipelineTransaction E)
  authorize_transaction input transaction = and_then (does (reported simulated)) (λ _.
      and_then (require_signers transaction.needs_signing_by) (λ _.
        and_then
          (sign_each input.has_authorize_entry input.has_customer_signer transaction
            transaction.needs_signing_by)
          (λ _.
            and_then (simulate_again input.has_authorize_entry transaction.simulate)
              (λ _. and_then (does (reported authorized)) (λ _. (ok transaction, []))))))

  -- Everything before the transaction is sent.
  unfoldable pub authorize_call : {I : Type 0} → PipelineInput E I → Run E (PipelineTransaction E)
  authorize_call input = and_then (build_settlement_call input) (authorize_transaction input)

  -- The submission and the check of its answer.
  unfoldable pub deliver_call : PipelineTransaction E → Run E SentTransaction
  deliver_call transaction = and_then (sign_and_send transaction) (λ outcome.
      and_then (check_submission (outcome.0).submission outcome.1) (λ _. (ok outcome.0, [])))

  unfoldable pub submit_call : {I : Type 0} → PipelineInput E I → Run E SentTransaction
  submit_call input = and_then (authorize_call input) deliver_call

  unfoldable pub settle_payment : {I : Type 0} → PipelineInput E I → Run E Receipt
  settle_payment input =
      and_then (submit_call input) (λ outcome. check_confirmation outcome.confirmation)
