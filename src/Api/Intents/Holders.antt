-- ===== src/Api/Intents/Holders.antt =====
-- Who holds a request after `requestCountersignature` has answered.
use rosa_pay_application.Base.{
  String, ◌≡◌, sym, ◌∙◌, ◌≢◌, inl, inr, Option, none, some, Result, ok, err, eq_iff, eq_refl,
  Option-cases, subst,
}
use rosa_pay_application.Base.Dict.{get, get-put}
use rosa_pay_application.Api.Intents.Records.{CountersignatureRecord, ServiceError}
use rosa_pay_application.Api.Intents.Store.{Repo, save_countersignature}
use rosa_pay_application.Api.Intents.Interleave.{World}
use rosa_pay_application.Api.Intents.Claims.{
  request_countersignature, require_countersignature_settlement, persisted_claim, claim_record,
}
use rosa_pay_application.Api.Intents.Rely.{Respects}
use rosa_pay_application.Api.Intents.Exclusive.{
  IsKeptBy, ClaimsKept, request-ClaimsKept, require_countersignature_settlement-ClaimsKept,
}
use rosa_pay_application.Api.Intents.Hoare.{
  Triple, Triple-pure, Triple-throw, Triple-branch, Triple-bind, Triple-read, Triple-require,
  Triple-then, Triple-write, Triple-weaken, IsStable, Returns,
}

abbrev pub IsHeldBy : String → Option CountersignatureRecord → Type 0
IsHeldBy customer none = ⊥
IsHeldBy customer (some d) = d.customer_address ≡ customer

-- The store has a claim on the request, by this customer.
abbrev pub Holds : String → String → Repo → Type 0
Holds id customer r = IsHeldBy customer (get id r.countersignatures)

IsHeldBy-unique :
    (a b : String) (o : Option CountersignatureRecord) → IsHeldBy a o → IsHeldBy b o → a ≡ b
IsHeldBy-unique a b none p q = absurd p
IsHeldBy-unique a b (some d) p q = sym p ∙ q

IsHeldBy-kept :
    (a : String) (c : CountersignatureRecord) (o : Option CountersignatureRecord)
    → c.customer_address ≡ a
    → IsKeptBy c o
    → IsHeldBy a o
IsHeldBy-kept a c none p k = k
IsHeldBy-kept a c (some d) p (e, k) = sym e ∙ p

-- A claim outlasts what the others do.
pub Holds-IsStable : (id customer : String) → IsStable ClaimsKept (Holds id customer)
Holds-IsStable id customer r s kept h = elim (Option-cases (get id r.countersignatures)) [
  | inl gone ↦ absurd (rw gone at h)
  | inr (c, found) ↦ IsHeldBy-kept customer c _ (rw found at h) (kept id c found)
]

abbrev IsClaim : Option CountersignatureRecord → Type 0
IsClaim none = ⊥
IsClaim (some d) = Unit

abbrev IsClaimed : String → Repo → Type 0
IsClaimed id r = IsClaim (get id r.countersignatures)

IsClaim-of_kept :
    (c : CountersignatureRecord) (o : Option CountersignatureRecord) → IsKeptBy c o → IsClaim o
IsClaim-of_kept c none k = k
IsClaim-of_kept c (some d) k = tt

IsClaimed-IsStable : (id : String) → IsStable ClaimsKept (IsClaimed id)
IsClaimed-IsStable id r s kept h = elim (Option-cases (get id r.countersignatures)) [
  | inl gone ↦ absurd (rw gone at h)
  | inr (c, found) ↦ IsClaim-of_kept c _ (kept id c found)
]

save_countersignature-IsClaimed :
    (given : CountersignatureRecord) (r : Repo)
    → IsClaimed given.intent_id (save_countersignature given r)
unfolding save_countersignature
save_countersignature-IsClaimed given r = simp (get-put, eq_refl) tt

-- What a claim answers with: this customer's record, which the store holds.
abbrev pub IsAnswer : String → String → CountersignatureRecord → Repo → Type 0
IsAnswer id customer c r = (get id r.countersignatures ≡ some c) × (c.customer_address ≡ customer)

persisted_claim-IsAnswer :
    (id : String) (given : CountersignatureRecord) (kept : Option CountersignatureRecord)
    → Triple ClaimsKept
        (λ r. IsClaimed id r × (kept ≡ get id r.countersignatures))
        (persisted_claim given kept)
        (IsAnswer id given.customer_address)
unfolding persisted_claim
persisted_claim-IsAnswer id given none =
    Triple-pure ClaimsKept given (λ r p. absurd (rw (← p.1) at p.0))
persisted_claim-IsAnswer id given (some kept) =
    Triple-branch ClaimsKept
      (λ same. Triple-pure ClaimsKept kept (λ r p. (sym p.1, (eq_iff _ _).0 same)))
      (λ _. Triple-throw ClaimsKept _)

abbrev Anything : {A : Type 0} → A → Repo → Type 0
Anything a r = Unit

answered : {A : Type 0} (x : Result ServiceError A) (r : Repo) → Returns Anything x r
answered (ok a) r = tt
answered (err e) r = tt

settlement_of-Triple :
    (id : String) → Triple ClaimsKept (λ r. Unit) (require_countersignature_settlement id) Anything
settlement_of-Triple id = record {
  holds = λ w rely p. (
    answered (require_countersignature_settlement id w).0
        (require_countersignature_settlement id w).1.repo,
    ((require_countersignature_settlement-ClaimsKept id).holds w rely).1,
  );
}

request-IsAnswer :
    (now id customer : String)
    → Triple ClaimsKept
        (λ r. Unit)
        (request_countersignature now id customer)
        (IsAnswer id customer)
unfolding request_countersignature
request-IsAnswer now id customer = Triple-bind ClaimsKept (settlement_of-Triple id) (λ settlement.
    Triple-then ClaimsKept (Triple-require ClaimsKept _ _) (
      Triple-bind ClaimsKept
        (Triple-weaken ClaimsKept {Weak = λ r. Unit} (λ r p. tt)
          (Triple-read ClaimsKept _ (λ r s h p. tt)))
        (elim [
          | none ↦ Triple-then ClaimsKept (Triple-require ClaimsKept _ _) (
              Triple-then ClaimsKept {Mid = λ _ r. IsClaimed id r}
                (Triple-weaken ClaimsKept {Weak = λ r. Unit} (λ r p. tt)
                  (Triple-write ClaimsKept _ (λ r s h p. tt)
                    (λ r p. save_countersignature-IsClaimed (claim_record now id customer) r)))
                (Triple-bind ClaimsKept (Triple-read ClaimsKept _ (IsClaimed-IsStable id))
                  (λ kept. persisted_claim-IsAnswer id (claim_record now id customer) kept)))
          | some existing ↦ Triple-then ClaimsKept (Triple-require ClaimsKept _ _) (
              Triple-then ClaimsKept (Triple-require ClaimsKept _ _)
                (Triple-pure ClaimsKept existing (λ r p. (sym p.0.0.1, (eq_iff _ _).0 p.0.1))))
        ])))

-- If a customer's claim is answered, the answer names this customer and is what the store holds
-- for the request at that moment, whatever the others do that keeps claims as they are.
pub request-answers_own_claim :
    (now id customer : String) (w : World) (c : CountersignatureRecord)
    → Respects ClaimsKept w.others
    → (request_countersignature now id customer w).0 ≡ ok c
    → (get id (request_countersignature now id customer w).1.repo.countersignatures ≡ some c)
      × (c.customer_address ≡ customer)
request-answers_own_claim now id customer w c rely e =
    subst
      (λ x. Returns (IsAnswer id customer) x (request_countersignature now id customer w).1.repo) e
      ((request-IsAnswer now id customer).holds w rely tt).0

-- Once one customer's claim on a request has been answered, no other customer's claim on it is, at
-- any later time: between the two, and during both, others may write anything that keeps claims.
pub claims_are_exclusive :
    (now later id a b : String) (w w' : World) (c : CountersignatureRecord)
    → a ≢ b
    → Respects ClaimsKept w.others
    → (request_countersignature now id a w).0 ≡ ok c
    → ClaimsKept (request_countersignature now id a w).1.repo w'.repo
    → Respects ClaimsKept w'.others
    → (d : CountersignatureRecord) → (request_countersignature later id b w').0 ≢ ok d
claims_are_exclusive now later id a b w w' c distinct rely first between rely' d second =
    let (held, mine) = request-answers_own_claim now id a w c rely first in
    let (taken, theirs) = request-answers_own_claim later id b w' d rely' second in
    let first_holds : Holds id a (request_countersignature now id a w).1.repo = rw held mine in
    let still_holds : Holds id a (request_countersignature later id b w').1.repo =
      Holds-IsStable id a w'.repo (request_countersignature later id b w').1.repo
        ((request-ClaimsKept later id b).holds w' rely').0
        (Holds-IsStable id a (request_countersignature now id a w).1.repo w'.repo between
          first_holds) in
    distinct (IsHeldBy-unique a b (some d) (rw taken at still_holds) theirs)
