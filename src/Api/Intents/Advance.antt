-- ===== src/Api/Intents/Advance.antt =====
-- Settlements only advance: no method of the service takes one back, whatever runs beside it.
use rosa_pay_application.Base.{
  ℕ, zero, suc, String, true, ◌≡◌, Option, none, some, inl, inr, Option-cases, Bool-cases, eq_iff,
  str_eq,
}
use rosa_pay_application.Base.Dict.{get, put, get-put}
use rosa_pay_application.Domain.Payment.{PaymentStatus, is_allowed, status_eq, status_eq_iff}
use rosa_pay_application.Domain.Payment.Lifecycle.{◌⟶*◌, here, ⟶*-trans, is_allowed-⟶}
use rosa_pay_application.Api.Intents.Records.{SettlementRecord, AuthorizationRecord}
use rosa_pay_application.Api.Intents.Store.{Repo, compare_and_set_settlement, save_authorization}
use rosa_pay_application.Api.Intents.Service.{
  Patch, updated, unchanged, transition_attempts, transition_settlement, authorize, submit, confirm,
  fail, AuthorizationInput,
}
use rosa_pay_application.Api.Intents.Rely.{
  IsProgress, Guarantees, Guarantees-pure, Guarantees-throw, Guarantees-require, Guarantees-bind,
  Guarantees-branch, Guarantees-then, Guarantees-call, Guarantees-read, Guarantees-write,
}

-- A settlement that is there is still there later, at a status that its own leads to.
abbrev pub HasAdvanced : SettlementRecord → Option SettlementRecord → Type 0
HasAdvanced s none = ⊥
HasAdvanced s (some t) = s.status ⟶* t.status

abbrev pub Advances : Repo → Repo → Type 0
Advances r r' =
    (id : String) (s : SettlementRecord)
    → get id r.settlements ≡ some s
    → HasAdvanced s (get id r'.settlements)

HasAdvanced-trans :
    (x y : SettlementRecord) (o : Option SettlementRecord)
    → x.status ⟶* y.status
    → HasAdvanced y o
    → HasAdvanced x o
HasAdvanced-trans x y none p q = q
HasAdvanced-trans x y (some z) p q = ⟶*-trans p q

Advances-onward : (r s t : Repo) → Advances r s → Advances s t → Advances r t
Advances-onward r s t p q id x e = elim (Option-cases (get id s.settlements)) [
  | inl gone ↦ absurd (rw gone at (p id x e))
  | inr (y, found) ↦ HasAdvanced-trans x y _ (rw found at (p id x e)) (q id y found)
]

abbrev Advances-still : (r : Repo) → Advances r r
Advances-still r id s e = rw e here

pub Advances-IsProgress : IsProgress Advances
Advances-IsProgress = record { still = Advances-still; onward = Advances-onward }

put-Advances :
    (id : String) (current s : SettlementRecord) (r : Repo)
    → get id r.settlements ≡ some current
    → is_allowed current.status s.status ≡ true
    → Advances r (record r { settlements = put id s r.settlements })
put-Advances id current s r found h j x e =
    rw (get-put id j s r.settlements) (elim (Bool-cases (str_eq id j)) [
      | inl same ↦
          let at_id : id ≡ j = (eq_iff id j).0 same in
          let same_record : current ≡ x = cc (found, e, at_id) in
          rw same (rw (← same_record) (◌⟶*◌.then (is_allowed-⟶ current.status s.status h) here))
      | inr other ↦ rw other (Advances-still r j x e)
    ])

-- The compare-and-set moves a settlement only from the status that was compared.
compare_and_set-Advances :
    (id : String) (expected : PaymentStatus) (s : SettlementRecord)
    → is_allowed expected s.status ≡ true
    → (r : Repo) → Advances r (compare_and_set_settlement id expected s r).1
unfolding compare_and_set_settlement get
compare_and_set-Advances id expected s h r = elim (Option-cases (get id r.settlements)) [
  | inl missing ↦ rw (missing, compare_and_set_settlement) (Advances-still r)
  | inr (current, found) ↦ elim (Bool-cases (status_eq current.status expected)) [
    | inl same ↦
        let at_status : current.status ≡ expected = (status_eq_iff _ _).0 same in
        rw (found, compare_and_set_settlement)
          (rw same (put-Advances id current s r found (rw at_status h)))
    | inr other ↦ rw (found, compare_and_set_settlement) (rw other (Advances-still r))
  ]
]

ruleset advancing = (
  Guarantees-pure, Guarantees-throw, Guarantees-require, Guarantees-bind, Guarantees-then,
  Guarantees-branch, Guarantees-read, Guarantees-write, Guarantees-call,
)

unchanged-Advances :
    (patch : Patch) (current : SettlementRecord) → Guarantees Advances (unchanged patch current)
unfolding unchanged
unchanged-Advances patch current = search (advancing, Advances-IsProgress)

transition_attempts-Advances :
    (left : ℕ) (id : String) (next : PaymentStatus) (patch : Patch)
    → Guarantees Advances (transition_attempts left id next patch)
unfolding transition_attempts updated
transition_attempts-Advances zero id next patch = search (advancing, Advances-IsProgress)
transition_attempts-Advances (suc left) id next patch =
    Guarantees-bind Advances Advances-IsProgress (Guarantees-read Advances Advances-IsProgress _)
      (elim [
        | none ↦ search (advancing, Advances-IsProgress)
        | some current ↦
            Guarantees-branch Advances Advances-IsProgress (λ _. unchanged-Advances patch current)
              (λ _.
                Guarantees-branch Advances Advances-IsProgress
                  (λ h.
                    Guarantees-bind Advances Advances-IsProgress
                      (Guarantees-call Advances Advances-IsProgress _
                        (compare_and_set-Advances id current.status (updated current next patch) h))
                      (λ done.
                        Guarantees-branch Advances Advances-IsProgress
                          (λ _. Guarantees-pure Advances Advances-IsProgress _)
                          (λ _. transition_attempts-Advances left id next patch)))
                  (λ _. Guarantees-throw Advances Advances-IsProgress _))
      ])

transition_settlement-Advances :
    (id : String) (next : PaymentStatus) (patch : Patch)
    → Guarantees Advances (transition_settlement id next patch)
unfolding transition_settlement
transition_settlement-Advances id next patch = transition_attempts-Advances 3 id next patch

save_authorization-Advances :
    (a : AuthorizationRecord) (r : Repo) → Advances r (save_authorization a r)
unfolding save_authorization
save_authorization-Advances a r = Advances-still r

pub authorize-Advances :
    (now id : String) (given : Option AuthorizationInput)
    → Guarantees Advances (authorize now id given)
unfolding authorize
authorize-Advances now id none = transition_settlement-Advances id _ _
authorize-Advances now id (some given) =
    search
      (advancing, Advances-IsProgress, transition_settlement-Advances, save_authorization-Advances)
      depth 8

pub submit-Advances : (id hash : String) → Guarantees Advances (submit id hash)
unfolding submit
submit-Advances id hash = search (advancing, Advances-IsProgress, transition_settlement-Advances)

pub confirm-Advances :
    (now id hash : String) (ledger : ℕ) → Guarantees Advances (confirm now id hash ledger)
unfolding confirm
confirm-Advances now id hash ledger =
    search (advancing, Advances-IsProgress, transition_settlement-Advances)

pub fail-Advances : (id code : String) → Guarantees Advances (fail id code)
unfolding fail
fail-Advances id code = search (advancing, Advances-IsProgress, transition_settlement-Advances)
