-- ===== src/Stellar/Pipeline/Signing.antt =====
-- What the parts of a settlement sign before it is sent.
pub mod Sent
use rosa_pay_application.Base.{
  ℕ, ◌≤◌, ◌≡◌, refl, ap, sym, subst, ◌∙◌, String, Bool, true, false, not, ◌&&◌, Option, none, some,
  List, [], ◌∷◌, ◌++◌, Result, ok, err, ◌⊎◌, inl, inr, length, arith, if◌then◌else◌, Bool-cases,
  Option-cases,
}
use rosa_pay_application.Stellar.Pipeline.{
  SettlementFunding, SettlementPipelineProgress, simulated, authorized, PipelineError, Effect,
  reported, sent, called, signed, PipelineTransaction, PipelineInput, Run, and_then, does, attempt,
  or_throw, stops, call_with, call_swap, build_settlement_call, sign_each, require_signers,
  simulate_again, watch, sign_and_send, send_outcome, authorize_call, authorize_transaction,
  deliver_call, submit_call, check_confirmation, settle_payment, customer_auth_required,
  SentTransaction,
}
use rosa_pay_application.Stellar.Pipeline.Steps.{append_nil, and_then-cases, and_then-ok}

-- The addresses that have signed, in their order.
unfoldable pub signers : List Effect → List String
signers [] = []
signers (signed contract address ∷ rest) = address ∷ signers rest
signers (reported progress ∷ rest) = signers rest
signers (called funding ∷ rest) = signers rest
signers (Effect.simulated_again ∷ rest) = signers rest
signers (sent ∷ rest) = signers rest

unfoldable pub is_sent : List Effect → Bool
is_sent [] = false
is_sent (sent ∷ rest) = true
is_sent (signed contract address ∷ rest) = is_sent rest
is_sent (reported progress ∷ rest) = is_sent rest
is_sent (called funding ∷ rest) = is_sent rest
is_sent (Effect.simulated_again ∷ rest) = is_sent rest

pub signers-append : (xs ys : List Effect) → signers (xs ++ ys) ≡ signers xs ++ signers ys
unfolding signers
signers-append [] ys = refl
signers-append (signed contract address ∷ xs) ys = ap (λ l. address ∷ l) (signers-append xs ys)
signers-append (reported progress ∷ xs) ys = signers-append xs ys
signers-append (called funding ∷ xs) ys = signers-append xs ys
signers-append (Effect.simulated_again ∷ xs) ys = signers-append xs ys
signers-append (sent ∷ xs) ys = signers-append xs ys

pub is_sent-append : (xs ys : List Effect) → is_sent xs ≡ false → is_sent (xs ++ ys) ≡ is_sent ys
unfolding is_sent
is_sent-append [] ys h = refl
is_sent-append (signed contract address ∷ xs) ys h = is_sent-append xs ys h
is_sent-append (reported progress ∷ xs) ys h = is_sent-append xs ys h
is_sent-append (called funding ∷ xs) ys h = is_sent-append xs ys h
is_sent-append (Effect.simulated_again ∷ xs) ys h = is_sent-append xs ys h
is_sent-append (sent ∷ xs) ys h = ground arith

-- A run sends nothing, and if it returns, just these addresses have signed.
pub record Signs {E A : Type 0} (addresses : List String) (m : Run E A) : Type 0 where
  pub unsent : is_sent m.1 ≡ false
  pub signs : (a : A) → m.0 ≡ ok a → signers m.1 ≡ addresses

module _ {E : Type 0} where
  pub and_then-Signs :
      {A B : Type 0} (first second : List String) (m : Run E A) (k : A → Run E B)
      → Signs first m
      → ((a : A) → m.0 ≡ ok a → Signs second (k a))
      → Signs (first ++ second) (and_then m k)
  and_then-Signs first second m k before after = record {
    unsent = elim (and_then-cases m k) [
      | inl (e, stopped, same) ↦ ap (λ r. is_sent r.1) same ∙ before.unsent
      | inr (a, went, same) ↦
          ap (λ r. is_sent r.1) same
          ∙ (is_sent-append m.1 (k a).1 before.unsent ∙ (after a went).unsent)
    ];
    signs = λ b h.
        let (a, went, goes, log) = and_then-ok m k b h in
        ap signers log
        ∙ (signers-append m.1 (k a).1
            ∙ (ap (λ l. l ++ signers (k a).1) (before.signs a went)
                ∙ ap (λ l. first ++ l) ((after a went).signs b goes)));
  }

  or_throw-Signs : {A : Type 0} (r : Result E A) → Signs [] (or_throw r)
  or_throw-Signs (ok a) = record {
    unsent = unfold is_sent in refl;
    signs = λ b h. unfold signers in refl;
  }
  or_throw-Signs (err e) = record { unsent = unfold is_sent in refl; signs = λ b h. ground arith }

  stops-Signs :
      {A : Type 0} (addresses : List String) (e : PipelineError E)
      → Signs {A = A} addresses (stops e)
  stops-Signs addresses e = record { unsent = unfold is_sent in refl; signs = λ b h. ground arith }

  attempt-Signs :
      (contract : Bool) (address : String) (o : Option E)
      → Signs (address ∷ []) (attempt (signed contract address) o)
  attempt-Signs contract address none = record {
    unsent = unfold is_sent in refl;
    signs = λ b h. unfold signers in refl;
  }
  attempt-Signs contract address (some e) = record {
    unsent = unfold is_sent in refl;
    signs = λ b h. ground arith;
  }

  call-Signs :
      {A : Type 0} (funding : Option SettlementFunding) (r : Result E A)
      → Signs [] (and_then (does (called funding)) (λ _. or_throw r))
  call-Signs funding r =
      and_then-Signs [] [] (does (called funding)) (λ _. or_throw r)
        (record { unsent = unfold is_sent in refl; signs = λ b h. unfold signers in refl })
        (λ _ _. or_throw-Signs r)

  require-Signs : (addresses : List String) → Signs {E = E} [] (require_signers addresses)
  require-Signs [] = stops-Signs [] customer_auth_required
  require-Signs (address ∷ rest) = record {
    unsent = unfold is_sent in refl;
    signs = λ b h. unfold signers in refl;
  }

  pub require-some :
      (addresses : List String) (u : Unit {0})
      → (require_signers {E = E} addresses).0 ≡ ok u
      → 1 ≤ length addresses
  require-some [] u h = ground arith
  require-some (address ∷ rest) u h = omega arith

  sign_each-Signs :
      (contract classic : Bool) (transaction : PipelineTransaction E) (addresses : List String)
      → Signs addresses (sign_each contract classic transaction addresses)
  unfolding sign_each
  sign_each-Signs contract classic transaction [] = record {
    unsent = unfold is_sent in refl;
    signs = λ b h. unfold signers in refl;
  }
  sign_each-Signs contract classic transaction (address ∷ rest) =
      elim (Bool-cases (not contract && not classic)) [
        | inl neither ↦ rw neither (stops-Signs (address ∷ rest) customer_auth_required)
        | inr either ↦ rw either (
            and_then-Signs (address ∷ []) rest
              (attempt (signed contract address) (transaction.sign contract address))
              (λ _. sign_each contract classic transaction rest)
              (attempt-Signs contract address (transaction.sign contract address))
              (λ _ _. sign_each-Signs contract classic transaction rest))
      ]

  simulate_again-Signs :
      (contract : Bool) (outcome : Option (Option E)) → Signs [] (simulate_again contract outcome)
  simulate_again-Signs false outcome = record {
    unsent = unfold is_sent in refl;
    signs = λ b h. unfold signers in refl;
  }
  simulate_again-Signs true none = record {
    unsent = unfold is_sent in refl;
    signs = λ b h. unfold signers in refl;
  }
  simulate_again-Signs true (some none) = record {
    unsent = unfold is_sent in refl;
    signs = λ b h. unfold signers in refl;
  }
  simulate_again-Signs true (some (some e)) = record {
    unsent = unfold is_sent in refl;
    signs = λ b h. ground arith;
  }

  report-Signs :
      (progress : SettlementPipelineProgress) → Signs {E = E} [] (does (reported progress))
  report-Signs progress = record {
    unsent = unfold is_sent in refl;
    signs = λ b h. unfold signers in refl;
  }

  module _ {I : Type 0} (input : PipelineInput E I) where
    swap-unsent :
        (swap : Option (I → List ℕ → SettlementFunding → Result E (PipelineTransaction E)))
        (funding : SettlementFunding)
        → Signs [] (call_swap swap input.intent input.merchant_signature funding)
    unfolding call_swap
    swap-unsent none funding = stops-Signs [] PipelineError.swap_unsupported
    swap-unsent (some swap) funding =
        call-Signs (some funding) (swap input.intent input.merchant_signature funding)

    pub call-unsent : (funding : Option SettlementFunding) → Signs [] (call_with input funding)
    unfolding call_with
    call-unsent none =
        call-Signs none (input.client.settle_payment input.intent input.merchant_signature)
    call-unsent (some funding) = swap-unsent input.client.settle_payment_with_swap funding

    pub authorize-Signs :
        (transaction : PipelineTransaction E)
        → Signs transaction.needs_signing_by (authorize_transaction input transaction)
    unfolding authorize_transaction
    authorize-Signs transaction =
        let needs = transaction.needs_signing_by in
        subst (λ l. Signs l (authorize_transaction input transaction)) (append_nil needs)
          (and_then-Signs [] (needs ++ []) (does (reported simulated)) _ (report-Signs simulated)
            (λ _ _.
              and_then-Signs [] (needs ++ []) (require_signers needs) _ (require-Signs needs)
                (λ _ _.
                  and_then-Signs needs []
                    (sign_each input.has_authorize_entry input.has_customer_signer transaction
                      needs)
                    _
                    (sign_each-Signs input.has_authorize_entry input.has_customer_signer transaction
                      needs)
                    (λ _ _.
                      and_then-Signs [] []
                        (simulate_again input.has_authorize_entry transaction.simulate) _
                        (simulate_again-Signs input.has_authorize_entry transaction.simulate)
                        (λ _ _.
                          and_then-Signs [] [] (does (reported authorized)) _
                            (report-Signs authorized) (λ _ _. or_throw-Signs (ok transaction)))))))
