-- ===== src/Api/Intents/Transitions.antt =====
-- What a transition of a settlement comes to while nobody else writes, described without the code of
-- the service.
use rosa_pay_application.Base.{
  String, true, false, ◌≡◌, ◌≢◌, refl, ap, inl, inr, ◌⊎◌, Option, none, some, [], Result, ok, err,
  arith, Option-cases, Bool-cases, eq_iff,
}
use rosa_pay_application.Base.Text.{is_empty}
use rosa_pay_application.Base.Dict.{get, put}
use rosa_pay_application.Domain.Payment.{
  PaymentStatus, status_eq, status_eq_refl, status_eq_iff, is_allowed,
}
use rosa_pay_application.Domain.Payment.Lifecycle.{◌⟶◌, is_allowed-⟶, ⟶-is_allowed}
use rosa_pay_application.Api.Intents.Records.{
  SettlementRecord, ServiceError, settlement_not_found, settlement_transition,
}
use rosa_pay_application.Api.Intents.Store.{Repo, compare_and_set_settlement}
use rosa_pay_application.Api.Intents.Interleave.{World, throw, pure, ◌>>=◌, branch, read}
use rosa_pay_application.Api.Intents.Service.{
  transition_settlement, transition_attempts, Patch, patched, updated, hash_conflict, unchanged,
}

-- The branches of the transition, without the loop and the monad.
abbrev transition_reference :
    String → PaymentStatus → Patch → Repo → Result ServiceError SettlementRecord × Repo
transition_reference id next patch r = elim (get id r.settlements) [
  | none ↦ (err settlement_not_found, r)
  | some current ↦ elim (status_eq current.status next) [
    | true ↦ elim (hash_conflict patch.transaction_hash current.transaction_hash) [
      | true ↦ (err settlement_transition, r)
      | false ↦ (ok current, r)
    ]
    | false ↦ elim (is_allowed current.status next) [
      | true ↦ (
        ok (updated current next patch),
        record r { settlements = put id (updated current next patch) r.settlements },
      )
      | false ↦ (err settlement_transition, r)
    ]
  ]
]

abbrev pub alone : Repo → World
alone r = record { repo = r; others = [] }

transition_settlement-reference :
    (id : String) (next : PaymentStatus) (patch : Patch) (r : Repo)
    → transition_settlement id next patch (alone r)
      ≡ ((transition_reference id next patch r).0, alone (transition_reference id next patch r).1)
unfolding transition_settlement transition_attempts unchanged compare_and_set_settlement ◌>>=◌ pure
    throw branch read
transition_settlement-reference id next patch r = elim (Option-cases (get id r.settlements)) [
  | inl missing ↦ ground arith
  | inr (current, found) ↦ ground (arith, status_eq_refl current.status)
]

-- A field after the patch: the patch's value where it has one, otherwise what was there.
abbrev Takes : {A : Type 0} → Option A → Option A → Option A → Type 0
Takes given old new = ((given ≡ none) × (new ≡ old)) ⊎ ((given ≢ none) × (new ≡ given))

-- Two hashes, neither the empty text, that differ.
abbrev pub IsOtherHash : Option String → Option String → Type 0
IsOtherHash given kept =
    (g : String) × (k : String) × (given ≡ some g) × (kept ≡ some k) × (g ≢ "") × (k ≢ "") × (g ≢ k)

-- The settlement at its new status, with the patch written over it and all else as it was.
pub record IsMoved (current : SettlementRecord) (next : PaymentStatus) (patch : Patch)
    (after : SettlementRecord) : Type 0 where
  pub same_id : after.intent_id ≡ current.intent_id
  pub at_next : after.status ≡ next
  pub hash : Takes patch.transaction_hash current.transaction_hash after.transaction_hash
  pub ledger : Takes patch.ledger current.ledger after.ledger
  pub failure : Takes patch.failure_code current.failure_code after.failure_code
  pub confirmation : Takes patch.confirmed_at current.confirmed_at after.confirmed_at

-- The answers to a request for a status, with the store that each leaves.
pub data IsTransition (id : String) (next : PaymentStatus) (patch : Patch) (r : Repo)
    : Result ServiceError SettlementRecord → Repo → Type 0 where
  missing : get id r.settlements ≡ none → IsTransition id next patch r (err settlement_not_found) r
  repeated :
      (current : SettlementRecord)
      → get id r.settlements ≡ some current
      → current.status ≡ next
      → ¬ IsOtherHash patch.transaction_hash current.transaction_hash
      → IsTransition id next patch r (ok current) r
  other_hash :
      (current : SettlementRecord)
      → get id r.settlements ≡ some current
      → current.status ≡ next
      → IsOtherHash patch.transaction_hash current.transaction_hash
      → IsTransition id next patch r (err settlement_transition) r
  moved :
      (current after : SettlementRecord)
      → get id r.settlements ≡ some current
      → current.status ≢ next
      → current.status ⟶ next
      → IsMoved current next patch after
      → IsTransition id next patch r
          (ok after)
          (record r { settlements = put id after r.settlements })
  refused :
      (current : SettlementRecord)
      → get id r.settlements ≡ some current
      → current.status ≢ next
      → ¬ (current.status ⟶ next)
      → IsTransition id next patch r (err settlement_transition) r

patched-Takes : {A : Type 0} (given old : Option A) → Takes given old (patched given old)
patched-Takes none old = inl (refl, refl)
patched-Takes (some v) old = inr ((λ e. ground arith), refl)

updated-IsMoved :
    (current : SettlementRecord) (next : PaymentStatus) (patch : Patch)
    → IsMoved current next patch (updated current next patch)
unfolding updated
updated-IsMoved current next patch = record {
  same_id = refl;
  at_next = refl;
  hash = patched-Takes patch.transaction_hash current.transaction_hash;
  ledger = patched-Takes patch.ledger current.ledger;
  failure = patched-Takes patch.failure_code current.failure_code;
  confirmation = patched-Takes patch.confirmed_at current.confirmed_at;
}

not_empty : (text : String) → is_empty text ≡ false → text ≢ ""
not_empty text h e = ground (arith, ap is_empty e)

hash_conflict-IsOtherHash :
    (given kept : Option String) → hash_conflict given kept ≡ true → IsOtherHash given kept
unfolding hash_conflict
hash_conflict-IsOtherHash (some g) (some k) h = (
  g,
  k,
  refl,
  refl,
  not_empty g (ground arith),
  not_empty k (ground arith),
  λ e. ground (arith, eq_iff g k),
)
hash_conflict-IsOtherHash none kept h = ground arith
hash_conflict-IsOtherHash (some g) none h = ground arith

IsOtherHash-conflict :
    (given kept : Option String) → IsOtherHash given kept → hash_conflict given kept ≡ true
unfolding hash_conflict
IsOtherHash-conflict given kept (g, k, has, had, g_text, k_text, differ) =
    ground (arith, eq_iff g "", eq_iff k "", eq_iff g k)

reference-IsTransition :
    (id : String) (next : PaymentStatus) (patch : Patch) (r : Repo)
    → IsTransition id next patch r
        (transition_reference id next patch r).0
        (transition_reference id next patch r).1
reference-IsTransition id next patch r = elim (Option-cases (get id r.settlements)) [
  | inl gone ↦ rw (gone, transition_reference) (missing gone)
  | inr (current, found) ↦
      rw (found, transition_reference)
        (elim (Bool-cases (status_eq current.status next)) [
          | inl same ↦
              let at_next = (status_eq_iff current.status next).0 same in
              rw same
                (elim (Bool-cases (hash_conflict patch.transaction_hash current.transaction_hash)) [
                  | inl other ↦ rw other (
                      other_hash current found at_next (
                        hash_conflict-IsOtherHash patch.transaction_hash current.transaction_hash
                          other))
                  | inr agrees ↦ rw agrees (
                      repeated current found at_next λ differs. ground (
                        arith,
                        IsOtherHash-conflict patch.transaction_hash current.transaction_hash
                            differs,
                      ))
                ])
          | inr differs ↦
              let moves : current.status ≢ next =
                λ e. ground (arith, (status_eq_iff current.status next).1 e) in
              rw differs (elim (Bool-cases (is_allowed current.status next)) [
                | inl allowed ↦ rw allowed (
                    moved current (updated current next patch) found moves
                      (is_allowed-⟶ current.status next allowed)
                      (updated-IsMoved current next patch))
                | inr barred ↦
                    rw barred
                      (refused current found moves λ edge. ground (arith, ⟶-is_allowed edge))
              ])
        ])
]

-- While nobody else writes, a transition comes to one of five: the settlement is missing; it has the
-- status already and is answered as it is, or refused where its hash and the one given, neither empty,
-- differ; it moves along an edge of the lifecycle and is stored and answered at the new status with
-- the patch written over it and nothing else changed; or there is no such edge and it is refused. The
-- store changes only where it moves.
pub transition_settlement-IsTransition :
    (id : String) (next : PaymentStatus) (patch : Patch) (r : Repo)
    → IsTransition id next patch r
        (transition_settlement id next patch (alone r)).0
        (transition_settlement id next patch (alone r)).1.repo
transition_settlement-IsTransition id next patch r =
    rw (transition_settlement-reference id next patch r) (reference-IsTransition id next patch r)
