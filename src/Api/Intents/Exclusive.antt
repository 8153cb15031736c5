-- ===== src/Api/Intents/Exclusive.antt =====
-- One customer for each payment request: a claim keeps its customer, and its signature once it has
-- one, whatever runs beside the methods of `Claims`.
use rosa_pay_application.Base.{
  String, false, ◌≡◌, refl, ◌∙◌, inl, inr, Option, none, some, arith, eq_iff, str_eq, Option-cases,
  Bool-cases,
}
use rosa_pay_application.Base.Text.{is_empty}
use rosa_pay_application.Base.Dict.{get, get-put}
use rosa_pay_application.Api.Intents.Records.{CountersignatureRecord}
use rosa_pay_application.Api.Intents.Store.{
  Repo, save_countersignature, merge_countersignature, fill,
}
use rosa_pay_application.Api.Intents.Claims.{
  request_countersignature, supply_countersignature, require_countersignature_settlement,
  persisted_claim,
}
use rosa_pay_application.Api.Intents.Rely.{
  IsProgress, Guarantees, Guarantees-pure, Guarantees-throw, Guarantees-require, Guarantees-bind,
  Guarantees-then, Guarantees-branch, Guarantees-call, Guarantees-read, Guarantees-write,
}

-- A signature that the code would not take for absent.
abbrev pub KeepsSignature : Option String → Option String → Type 0
KeepsSignature old new = (s : String) → old ≡ some s → is_empty s ≡ false → new ≡ some s

abbrev pub IsKeptBy : CountersignatureRecord → Option CountersignatureRecord → Type 0
IsKeptBy c none = ⊥
IsKeptBy c (some d) =
    (c.customer_address ≡ d.customer_address) × KeepsSignature c.signature d.signature

-- Every claim of the one store is in the other, for the same customer and with its signature.
abbrev pub ClaimsKept : Repo → Repo → Type 0
ClaimsKept r r' =
    (id : String) (c : CountersignatureRecord)
    → get id r.countersignatures ≡ some c
    → IsKeptBy c (get id r'.countersignatures)

IsKeptBy-trans :
    (c d : CountersignatureRecord) (o : Option CountersignatureRecord)
    → IsKeptBy c (some d)
    → IsKeptBy d o
    → IsKeptBy c o
IsKeptBy-trans c d none p q = q
IsKeptBy-trans c d (some e) (p, k) (q, l) = (p ∙ q, λ s h nonempty. l s (k s h nonempty) nonempty)

ClaimsKept-onward : (r s t : Repo) → ClaimsKept r s → ClaimsKept s t → ClaimsKept r t
ClaimsKept-onward r s t p q id c e = elim (Option-cases (get id s.countersignatures)) [
  | inl gone ↦ absurd (rw gone at (p id c e))
  | inr (d, found) ↦ IsKeptBy-trans c d _ (rw found at (p id c e)) (q id d found)
]

abbrev ClaimsKept-still : (r : Repo) → ClaimsKept r r
ClaimsKept-still r id c e = rw e (refl, λ s h _. h)

pub ClaimsKept-IsProgress : IsProgress ClaimsKept
ClaimsKept-IsProgress = record { still = ClaimsKept-still; onward = ClaimsKept-onward }

fill-KeepsSignature : (old given : Option String) → KeepsSignature old (fill old given)
fill-KeepsSignature (some old) given s e h = ground arith
fill-KeepsSignature none given s e h = cc

merge-IsKeptBy :
    (c given : CountersignatureRecord) → IsKeptBy c (some (merge_countersignature (some c) given))
unfolding merge_countersignature
merge-IsKeptBy c given = elim (Bool-cases (str_eq c.customer_address given.customer_address)) [
  | inl same ↦ rw same (refl, fill-KeepsSignature c.signature given.signature)
  | inr other ↦ rw other (refl, λ s h _. h)
]

-- No write of a claim takes another customer's place or signature.
pub save_countersignature-ClaimsKept :
    (given : CountersignatureRecord) (r : Repo) → ClaimsKept r (save_countersignature given r)
unfolding save_countersignature
save_countersignature-ClaimsKept given r id c e =
    rw
      (get-put given.intent_id id
        (merge_countersignature (get given.intent_id r.countersignatures) given)
        r.countersignatures)
      (elim (Bool-cases (str_eq given.intent_id id)) [
        | inl same ↦
            let at_id : given.intent_id ≡ id = (eq_iff given.intent_id id).0 same in
            rw same (rw at_id (rw e (merge-IsKeptBy c given)))
        | inr other ↦ rw other (ClaimsKept-still r id c e)
      ])

ruleset keeping = (
  Guarantees-pure, Guarantees-throw, Guarantees-require, Guarantees-bind, Guarantees-then,
  Guarantees-branch, Guarantees-read, Guarantees-write, Guarantees-call,
)

pub require_countersignature_settlement-ClaimsKept :
    (id : String) → Guarantees ClaimsKept (require_countersignature_settlement id)
unfolding require_countersignature_settlement
require_countersignature_settlement-ClaimsKept id =
    Guarantees-bind ClaimsKept ClaimsKept-IsProgress
      (Guarantees-read ClaimsKept ClaimsKept-IsProgress _)
      (elim [
        | none ↦ search (keeping, ClaimsKept-IsProgress)
        | some _ ↦
            Guarantees-bind ClaimsKept ClaimsKept-IsProgress
              (Guarantees-read ClaimsKept ClaimsKept-IsProgress _)
              (elim [
                | none ↦ search (keeping, ClaimsKept-IsProgress)
                | some s ↦ search (keeping, ClaimsKept-IsProgress)
              ])
      ])

persisted_claim-ClaimsKept :
    (given : CountersignatureRecord) (kept : Option CountersignatureRecord)
    → Guarantees ClaimsKept (persisted_claim given kept)
unfolding persisted_claim
persisted_claim-ClaimsKept given none = search (keeping, ClaimsKept-IsProgress)
persisted_claim-ClaimsKept given (some kept) = search (keeping, ClaimsKept-IsProgress)

pub request-ClaimsKept :
    (now id customer : String) → Guarantees ClaimsKept (request_countersignature now id customer)
unfolding request_countersignature
request-ClaimsKept now id customer =
    Guarantees-bind ClaimsKept ClaimsKept-IsProgress
      (require_countersignature_settlement-ClaimsKept id)
      (λ settlement.
        Guarantees-then ClaimsKept ClaimsKept-IsProgress
          (Guarantees-require ClaimsKept ClaimsKept-IsProgress _ _)
          (Guarantees-bind ClaimsKept ClaimsKept-IsProgress
            (Guarantees-read ClaimsKept ClaimsKept-IsProgress _)
            (elim [
              | none ↦
                  search
                    (
                      keeping, ClaimsKept-IsProgress, save_countersignature-ClaimsKept,
                      persisted_claim-ClaimsKept,
                    )
                    depth 8
              | some existing ↦ search (keeping, ClaimsKept-IsProgress)
            ])))

pub supply-ClaimsKept :
    (now id customer signature : String)
    → Guarantees ClaimsKept (supply_countersignature now id customer signature)
unfolding supply_countersignature
supply-ClaimsKept now id customer signature =
    Guarantees-bind ClaimsKept ClaimsKept-IsProgress
      (require_countersignature_settlement-ClaimsKept id)
      (λ settlement.
        Guarantees-then ClaimsKept ClaimsKept-IsProgress
          (Guarantees-require ClaimsKept ClaimsKept-IsProgress _ _)
          (Guarantees-bind ClaimsKept ClaimsKept-IsProgress
            (Guarantees-read ClaimsKept ClaimsKept-IsProgress _)
            (elim [
              | none ↦ search (keeping, ClaimsKept-IsProgress)
              | some existing ↦
                  search (keeping, ClaimsKept-IsProgress, save_countersignature-ClaimsKept) depth 9
            ])))
