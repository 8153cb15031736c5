-- ===== src/Api/Intents/Store.antt =====
-- apps/api/src/infrastructure/InMemoryIntentRepository.ts: five maps, and when each intent was seen.
use rosa_pay_application.Base.{
  ℕ, String, Bool, true, false, Option, none, some, List, [], keep, str_eq, if◌then◌else◌,
}
use rosa_pay_application.Base.Dict.{Dict, get, put, values}
use rosa_pay_application.Base.Text.{is_empty as is_empty_text}
use rosa_pay_application.Domain.Payment.{PaymentStatus, status_eq}
use rosa_pay_application.Api.Intents.Records.{
  StoredIntent, AuthorizationRecord, CountersignatureRecord, SettlementRecord,
}

pub record Repo : Type 0 where
  pub by_id : Dict StoredIntent
  pub by_idempotency_key : Dict StoredIntent
  pub settlements : Dict SettlementRecord
  pub authorizations : Dict AuthorizationRecord
  pub countersignatures : Dict CountersignatureRecord
  pub created_at : Dict ℕ

unfoldable pub empty : Repo
empty = record {
  by_id = [];
  by_idempotency_key = [];
  settlements = [];
  authorizations = [];
  countersignatures = [];
  created_at = [];
}

-- `now` is `Date.now()`.
unfoldable pub save : ℕ → StoredIntent → Repo → Repo
save now intent r = record r {
  by_id = put id intent r.by_id;
  by_idempotency_key = put intent.idempotency_key intent r.by_idempotency_key;
  created_at = elim (get id r.created_at) [
    | none ↦ put id now r.created_at
    | some seen ↦ r.created_at
  ];
}
  where
    id : String
    id = intent.payload.intent.intent_id

unfoldable pub save_settlement : SettlementRecord → Repo → Repo
save_settlement s r = record r { settlements = put s.intent_id s r.settlements }

unfoldable pub save_intent_with_settlement : ℕ → StoredIntent → SettlementRecord → Repo → Repo
unfolding save save_settlement
save_intent_with_settlement now intent s r = save_settlement s (save now intent r)

unfoldable pub list_settlements : Option PaymentStatus → Repo → List SettlementRecord
list_settlements none r = values r.settlements
list_settlements (some status) r = keep (λ s. status_eq s.status status) (values r.settlements)

unfoldable pub save_authorization : AuthorizationRecord → Repo → Repo
save_authorization a r = record r { authorizations = put a.intent_id a r.authorizations }

-- `existing ? {} : given ? {given} : {}`: a text that is there and not empty stays.
abbrev pub fill : Option String → Option String → Option String
fill none given = elim given [ none ↦ none | some g ↦ if is_empty_text g then none else some g ]
fill (some old) given =
    if is_empty_text old
    then elim given [ none ↦ some old | some g ↦ if is_empty_text g then some old else some g ]
    else some old

-- What `saveCountersignature` leaves under the key: the first customer keeps the claim.
unfoldable pub merge_countersignature :
    Option CountersignatureRecord → CountersignatureRecord → CountersignatureRecord
merge_countersignature none given = given
merge_countersignature (some existing) given =
    if str_eq existing.customer_address given.customer_address
    then record existing {
      signature = fill existing.signature given.signature;
      signed_at = fill existing.signed_at given.signed_at;
    }
    else existing

unfoldable pub save_countersignature : CountersignatureRecord → Repo → Repo
unfolding merge_countersignature
save_countersignature given r = record r {
  countersignatures =
      put given.intent_id (merge_countersignature (get given.intent_id r.countersignatures) given)
        r.countersignatures;
}

-- The write of `compareAndSetSettlement`, with its Boolean.
unfoldable pub compare_and_set_settlement :
    String → PaymentStatus → SettlementRecord → Repo → Bool × Repo
compare_and_set_settlement intent_id expected s r = elim (get intent_id r.settlements) [
  | none ↦ (false, r)
  | some current ↦
      if status_eq current.status expected
      then (true, record r { settlements = put intent_id s r.settlements })
      else (false, r)
]
