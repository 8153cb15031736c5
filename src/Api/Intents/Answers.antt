-- ===== src/Api/Intents/Answers.antt =====
-- What a settlement method answers is what the store holds, at the status that was asked for.
use rosa_pay_application.Base.{
  ℕ, zero, suc, String, Bool, true, ◌≡◌, refl, sym, Option, none, some, arith, eq_refl,
}
use rosa_pay_application.Base.Dict.{get, get-put}
use rosa_pay_application.Domain.Payment.{
  PaymentStatus, status_eq_iff, authorized, submitted, confirmed, failed,
}
use rosa_pay_application.Api.Intents.Records.{SettlementRecord, settlement_input}
use rosa_pay_application.Api.Intents.Store.{Repo, compare_and_set_settlement}
use rosa_pay_application.Api.Intents.Interleave.{M, ◌>>◌, require}
use rosa_pay_application.Api.Intents.Service.{
  Patch, updated, unchanged, transition_attempts, transition_settlement, authorize, submit, confirm,
  fail, AuthorizationInput,
}
use rosa_pay_application.Api.Intents.Hoare.{
  Triple, Triple-pure, Triple-throw, Triple-branch, Triple-call, Triple-bind, Triple-read,
  Triple-require, Triple-then, Triple-write, Triple-weaken,
}

-- The settlement that was answered is stored under its key, with the status that was asked for.
abbrev pub IsStored : String → PaymentStatus → SettlementRecord → Repo → Type 0
IsStored id next s r = (get id r.settlements ≡ some s) × (s.status ≡ next)

abbrev pub Anything : Repo → Type 0
Anything r = Unit

compare_and_set-stores :
    (id : String) (expected : PaymentStatus) (s : SettlementRecord) (r : Repo)
    → (compare_and_set_settlement id expected s r).0 ≡ true
    → get id (compare_and_set_settlement id expected s r).1.settlements ≡ some s
unfolding compare_and_set_settlement
compare_and_set-stores id expected s r h = ground (arith, get-put id id s r.settlements, eq_refl id)

module _ (R : Repo → Repo → Type 0) where
  unchanged-IsStored :
      (id : String) (next : PaymentStatus) (patch : Patch) (current : SettlementRecord)
      → current.status ≡ next
      → Triple R
          (λ r. Unit {0} × (some current ≡ get id r.settlements))
          (unchanged patch current)
          (IsStored id next)
  unfolding unchanged
  unchanged-IsStored id next patch current e =
      Triple-branch R (λ _. Triple-throw R _) (λ _. Triple-pure R _ (λ r p. (sym p.1, e)))

  transition_attempts-IsStored :
      (left : ℕ) (id : String) (next : PaymentStatus) (patch : Patch)
      → Triple R Anything (transition_attempts left id next patch) (IsStored id next)
  unfolding transition_attempts updated
  transition_attempts-IsStored zero id next patch = Triple-throw R _
  transition_attempts-IsStored (suc left) id next patch =
      Triple-bind R (Triple-read R _ (λ r s h p. tt)) (elim [
        | none ↦ Triple-throw R _
        | some current ↦
            Triple-branch R
              (λ same. unchanged-IsStored id next patch current ((status_eq_iff _ _).0 same))
              (λ _.
                Triple-branch R
                  (λ _.
                    Triple-bind R
                      {Post = λ done r.
                        done ≡ true → get id r.settlements ≡ some (updated current next patch)}
                      (Triple-weaken R (λ r p. tt)
                        (Triple-call R _ (λ r s h p. tt)
                          (λ r p.
                            compare_and_set-stores id current.status (updated current next patch)
                              r)))
                      (λ done.
                        Triple-branch R (λ won. Triple-pure R _ (λ r stored. (stored won, refl)))
                          (λ _.
                            Triple-weaken R (λ r p. tt)
                              (transition_attempts-IsStored left id next patch))))
                  (λ _. Triple-throw R _))
      ])

  transition_settlement-IsStored :
      (id : String) (next : PaymentStatus) (patch : Patch)
      → Triple R Anything (transition_settlement id next patch) (IsStored id next)
  unfolding transition_settlement
  transition_settlement-IsStored id next patch = transition_attempts-IsStored 3 id next patch

  -- A check of the input before the transition.
  checked :
      (b : Bool) (id : String) (next : PaymentStatus) (m : M SettlementRecord)
      → Triple R Anything m (IsStored id next)
      → Triple R Anything (require b settlement_input >> m) (IsStored id next)
  checked b id next m h =
      Triple-then R (Triple-require R b settlement_input) (Triple-weaken R (λ r p. tt) h)

  pub authorize-IsStored :
      (now id : String) (given : Option AuthorizationInput)
      → Triple R Anything (authorize now id given) (IsStored id authorized)
  unfolding authorize
  authorize-IsStored now id none = transition_settlement-IsStored id authorized _
  authorize-IsStored now id (some given) = checked _ id authorized _ (
      checked _ id authorized _ (
        checked _ id authorized _ (
          Triple-then R {Mid = λ _ r. Unit} (Triple-write R _ (λ r s h p. tt) (λ r p. tt))
            (transition_settlement-IsStored id authorized _))))

  pub submit-IsStored :
      (id hash : String) → Triple R Anything (submit id hash) (IsStored id submitted)
  unfolding submit
  submit-IsStored id hash = checked _ id submitted _ (transition_settlement-IsStored id submitted _)

  pub confirm-IsStored :
      (now id hash : String) (ledger : ℕ)
      → Triple R Anything (confirm now id hash ledger) (IsStored id confirmed)
  unfolding confirm
  confirm-IsStored now id hash ledger =
      checked _ id confirmed _
        (checked _ id confirmed _ (transition_settlement-IsStored id confirmed _))

  pub fail-IsStored : (id code : String) → Triple R Anything (fail id code) (IsStored id failed)
  unfolding fail
  fail-IsStored id code = checked _ id failed _ (transition_settlement-IsStored id failed _)
