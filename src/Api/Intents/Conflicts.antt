-- ===== src/Api/Intents/Conflicts.antt =====
-- Why the service refuses to create an intent, while no other request writes.
use rosa_pay_application.Base.{
  ℕ, ◌≡◌, ◌≢◌, String, some, err, ◌⊎◌, inl, inr, arith, Option-cases, Bool-cases, str_eq, eq_iff,
}
use rosa_pay_application.Base.Dict.{get}
use rosa_pay_application.Protocol.Schema.{SignedPaymentIntentV1}
use rosa_pay_application.Api.Intents.Records.{StoredIntent, ServiceError, intent_conflict}
use rosa_pay_application.Api.Intents.Store.{Repo}
use rosa_pay_application.Api.Intents.Interleave.{
  ◌>>=◌, ◌>>◌, pure, throw, branch, read, write, call, interfere,
}
use rosa_pay_application.Api.Intents.Service.{create}
use rosa_pay_application.Api.Intents.Transitions.{alone}

-- The key is that of an intent with another hash, or the intent's id is there: the store stays as it is.
pub create-conflict :
    (ms : ℕ) (payload : SignedPaymentIntentV1) (hash key : String) (r : Repo) (e : ServiceError)
    → (create ms payload hash key (alone r)).0 ≡ err e
    → (e ≡ intent_conflict)
      × ((create ms payload hash key (alone r)).1.repo ≡ r)
      × (((stored : StoredIntent) × (get key r.by_idempotency_key ≡ some stored)
            × (stored.payload_hash ≢ hash))
          ⊎ ((stored : StoredIntent) × (get payload.intent.intent_id r.by_id ≡ some stored)))
unfolding create ◌>>=◌ ◌>>◌ pure throw branch read write call interfere
create-conflict ms payload hash key r e h = elim (Option-cases (get key r.by_idempotency_key)) [
  | inr (stored, found) ↦ elim (Bool-cases (str_eq stored.payload_hash hash)) [
    | inl same ↦ ground arith
    | inr other ↦ (
      ground arith,
      ground arith,
      inl (stored, found, (λ e. ground (arith, eq_iff stored.payload_hash hash))),
    )
  ]
  | inl fresh ↦ elim (Option-cases (get payload.intent.intent_id r.by_id)) [
    | inr (stored, found) ↦ (ground arith, ground arith, inr (stored, found))
    | inl new ↦ ground arith
  ]
]
