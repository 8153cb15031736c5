-- ===== src/Stellar/Pipeline/Stages.antt =====
-- The order in which a settlement reports its stages, part by part.
pub mod Order
pub mod Complete
use rosa_pay_application.Base.{
  ℕ, ◌≤◌, ◌≡◌, refl, ap, sym, subst, ◌∙◌, String, Bool, true, false, not, ◌&&◌, ◌||◌, Option, none,
  some, List, [], ◌∷◌, ◌++◌, Result, ok, err, ◌⊎◌, inl, inr, leb, map, arith, if◌then◌else◌,
  Bool-cases, Option-cases, str_eq,
}
use rosa_pay_application.Base.Text.{is_empty}
use rosa_pay_application.Stellar.Pipeline.{
  SettlementPipelineProgress, simulated, authorized, submitted, confirmed, SentTransaction,
  PipelineError, Effect, reported, PipelineTransaction, PipelineClient, PipelineInput, Run,
  and_then, does, build_settlement_call, sign_each, require_signers, simulate_again, watch,
  is_reported, sign_and_send, check_submission, check_confirmation, confirm_at, Receipt, call_with,
  call_swap, or_throw, attempt, called, signed, SettlementFunding, send_outcome,
  TransactionResponse, authorize_call, submit_call, settle_payment, is_accepted,
}
use rosa_pay_application.Stellar.Pipeline.Steps.{and_then-cases, and_then-ok, stages, stages-append}

-- The place of a stage.
abbrev pub rank : SettlementPipelineProgress → ℕ
rank simulated = 1
rank authorized = 2
rank (submitted hash) = 3
rank (confirmed hash ledger) = 4

-- The stages come in their order, from `low` on and up to `high`.
unfoldable pub climbs : ℕ → ℕ → List SettlementPipelineProgress → Bool
climbs low high [] = leb low high
climbs low high (progress ∷ rest) = leb low (rank progress) && climbs (rank progress) high rest

pub climbs-append :
    (low middle high : ℕ) (xs ys : List SettlementPipelineProgress)
    → climbs low middle xs ≡ true
    → climbs middle high ys ≡ true
    → climbs low high (xs ++ ys) ≡ true
unfolding climbs
climbs-append low middle high [] (y ∷ ys) h k = ground arith
climbs-append low middle high [] [] h k = ground arith
climbs-append low middle high (x ∷ xs) ys h k =
    ground (arith, climbs-append (rank x) middle high xs ys)

pub climbs-higher :
    (low middle high : ℕ) (xs : List SettlementPipelineProgress)
    → middle ≤ high
    → climbs low middle xs ≡ true
    → climbs low high xs ≡ true
unfolding climbs
climbs-higher low middle high [] h k = ground arith
climbs-higher low middle high (x ∷ xs) h k = ground (arith, climbs-higher (rank x) middle high xs)

pub record Climbs {E A : Type 0} (low high : ℕ) (m : Run E A) : Type 0 where
  pub in_order : climbs low high (stages m.1) ≡ true

module _ {E : Type 0} where
  pub and_then-Climbs :
      {A B : Type 0} (low middle high : ℕ) (m : Run E A) (k : A → Run E B)
      → middle ≤ high
      → Climbs low middle m
      → ((a : A) → Climbs middle high (k a))
      → Climbs low high (and_then m k)
  and_then-Climbs low middle high m k upward first second = elim (and_then-cases m k) [
    | inl (e, stopped, same) ↦ record {
      in_order =
          ap (λ r. climbs low high (stages r.1)) same
          ∙ climbs-higher low middle high (stages m.1) upward first.in_order;
    }
    | inr (a, went, same) ↦ record {
      in_order =
          ap (λ r. climbs low high (stages r.1)) same
          ∙ (ap (climbs low high) (stages-append m.1 (k a).1)
              ∙ climbs-append low middle high (stages m.1) (stages (k a).1) first.in_order
                  (second a).in_order);
    }
  ]

  pub quiet-Climbs : {A : Type 0} (at : ℕ) (m : Run E A) → stages m.1 ≡ [] → Climbs at at m
  quiet-Climbs at m quiet = record { in_order = rw quiet (unfold climbs in (ground arith)) }

  and_then-quiet :
      {A B : Type 0} (m : Run E A) (k : A → Run E B)
      → stages m.1 ≡ []
      → ((a : A) → stages (k a).1 ≡ [])
      → stages (and_then m k).1 ≡ []
  and_then-quiet m k first second = elim (and_then-cases m k) [
    | inl (e, stopped, same) ↦ ap (λ r. stages r.1) same ∙ first
    | inr (a, went, same) ↦
        ap (λ r. stages r.1) same
        ∙ (stages-append m.1 (k a).1 ∙ (ap (λ l. l ++ stages (k a).1) first ∙ second a))
  ]

  or_throw-quiet : {A : Type 0} (r : Result E A) → stages (or_throw r).1 ≡ []
  unfolding stages
  or_throw-quiet (ok a) = refl
  or_throw-quiet (err e) = refl

  attempt-quiet :
      (contract : Bool) (address : String) (o : Option E)
      → stages (attempt (signed contract address) o).1 ≡ []
  unfolding stages
  attempt-quiet contract address none = refl
  attempt-quiet contract address (some e) = refl

  module _ {I : Type 0} where
    pub build-quiet :
        (input : PipelineInput E I) (funding : Option SettlementFunding)
        → stages (call_with input funding).1 ≡ []
    unfolding call_with call_swap stages
    build-quiet input none =
        and_then-quiet (does (called none))
          (λ _. or_throw (input.client.settle_payment input.intent input.merchant_signature)) refl
          (λ _. or_throw-quiet (input.client.settle_payment input.intent input.merchant_signature))
    build-quiet input (some funding) = elim (Option-cases input.client.settle_payment_with_swap) [
      | inl missing ↦ rw (missing, call_swap) refl
      | inr (swap, present) ↦
          rw (present, call_swap)
            (and_then-quiet (does (called (some funding)))
              (λ _. or_throw (swap input.intent input.merchant_signature funding)) refl
              (λ _. or_throw-quiet (swap input.intent input.merchant_signature funding)))
    ]

  pub sign_each-quiet :
      (contract classic : Bool) (transaction : PipelineTransaction E) (addresses : List String)
      → stages (sign_each contract classic transaction addresses).1 ≡ []
  unfolding sign_each stages
  sign_each-quiet contract classic transaction [] = refl
  sign_each-quiet contract classic transaction (address ∷ rest) =
      elim (Bool-cases (not contract && not classic)) [
        | inl neither ↦ rw neither refl
        | inr either ↦ rw either (
            and_then-quiet (attempt (signed contract address) (transaction.sign contract address))
              (λ _. sign_each contract classic transaction rest)
              (attempt-quiet contract address (transaction.sign contract address))
              (λ _. sign_each-quiet contract classic transaction rest))
      ]

  pub simulate_again-quiet :
      (contract : Bool) (outcome : Option (Option E))
      → stages (simulate_again {E = E} contract outcome).1 ≡ []
  unfolding stages
  simulate_again-quiet false outcome = refl
  simulate_again-quiet true none = refl
  simulate_again-quiet true (some none) = refl
  simulate_again-quiet true (some (some e)) = refl

  pub branch-Climbs :
      {A : Type 0} (low high : ℕ) (b : Bool) (m n : Run E A)
      → Climbs low high m
      → Climbs low high n
      → Climbs low high (if b then m else n)
  branch-Climbs low high true m n h k = h
  branch-Climbs low high false m n h k = k

pub require_signers-quiet :
    (E : Type 0) (addresses : List String) → stages (require_signers {E = E} addresses).1 ≡ []
unfolding stages
require_signers-quiet E [] = refl
require_signers-quiet E (address ∷ rest) = refl
