-- ===== src/Api/Intents/Listing.antt =====
-- `listMerchantPayments` of apps/api/src/infrastructure/InMemoryIntentRepository.ts. `later` is a
-- positive `localeCompare` of two texts.
pub mod Selection
use rosa_pay_application.Base.{
  ℕ, String, Bool, true, false, Option, none, some, List, [], ◌∷◌, keep, take, map, str_eq,
  if◌then◌else◌,
}
use rosa_pay_application.Base.Dict.{get, values}
use rosa_pay_application.Base.Text.{is_empty as is_empty_text}
use rosa_pay_application.Domain.Payment.{PaymentStatus, created}
use rosa_pay_application.Api.Intents.Records.{StoredIntent, SettlementRecord}
use rosa_pay_application.Api.Intents.Store.{Repo}

pub record MerchantPayment : Type 0 where
  pub intent_id : String
  pub amount : String
  pub asset_code : String
  pub reference : String
  pub created_at : String
  pub status : PaymentStatus
  pub transaction_hash : Option String
  pub ledger : Option ℕ
  pub confirmed_at : Option String

-- `text ? {text} : {}`
abbrev pub truthy : Option String → Option String
truthy none = none
truthy (some text) = if is_empty_text text then none else some text

unfoldable pub merchant_payment : Option SettlementRecord → StoredIntent → MerchantPayment
merchant_payment none stored = record {
  intent_id = stored.payload.intent.intent_id;
  amount = stored.payload.intent.amount;
  asset_code = stored.payload.intent.asset.code;
  reference = stored.payload.intent.reference;
  created_at = stored.payload.intent.created_at;
  status = created;
  transaction_hash = none;
  ledger = none;
  confirmed_at = none;
}
merchant_payment (some settlement) stored = record {
  intent_id = stored.payload.intent.intent_id;
  amount = stored.payload.intent.amount;
  asset_code = stored.payload.intent.asset.code;
  reference = stored.payload.intent.reference;
  created_at = stored.payload.intent.created_at;
  status = settlement.status;
  transaction_hash = truthy settlement.transaction_hash;
  ledger = settlement.ledger;
  confirmed_at = truthy settlement.confirmed_at;
}

abbrev pub is_of : String → StoredIntent → Bool
is_of profile stored = str_eq stored.payload.intent.merchant_profile_id profile

module _ (later : String → String → Bool) where
  -- The sort by creation, the latest first; equal times keep their places.
  unfoldable pub insert_latest : StoredIntent → List StoredIntent → List StoredIntent
  insert_latest stored [] = stored ∷ []
  insert_latest stored (next ∷ rest) =
      let behind = insert_latest stored rest in
      if later next.payload.intent.created_at stored.payload.intent.created_at
      then next ∷ behind
      else stored ∷ next ∷ rest

  unfoldable pub latest_first : List StoredIntent → List StoredIntent
  latest_first [] = []
  latest_first (stored ∷ rest) = insert_latest stored (latest_first rest)

  unfoldable pub select_intents : String → ℕ → Repo → List StoredIntent
  select_intents profile limit r = take limit (latest_first (keep (is_of profile) (values r.by_id)))

  unfoldable pub list_merchant_payments : String → ℕ → Repo → List MerchantPayment
  list_merchant_payments profile limit r =
      map (λ stored. merchant_payment (get stored.payload.intent.intent_id r.settlements) stored)
        (select_intents profile limit r)
