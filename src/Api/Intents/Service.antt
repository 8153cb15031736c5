-- ===== src/Api/Intents/Service.antt =====
-- apps/api/src/application/IntentService.ts: one function for each method, in the monad of
-- `Interleave`. Times are arguments: `now` is `new Date().toISOString()`.
use rosa_pay_application.Base.{
  ℕ, zero, suc, String, Bool, false, not, ◌&&◌, ◌||◌, Option, none, some, List, str_eq,
}
use rosa_pay_application.Base.Dict.{get}
use rosa_pay_application.Base.Text.{is_empty, trim}
use rosa_pay_application.Domain.Payment.{
  created, PaymentStatus, awaiting_approval, authorized, submitted, confirmed, failed, status_eq,
  is_allowed,
}
use rosa_pay_application.Protocol.Schema.{SignedPaymentIntentV1}
use rosa_pay_application.Api.Intents.Records.{
  StoredIntent, AuthorizationRecord, CountersignatureRecord, SettlementRecord, intent_conflict,
  settlement_not_found, settlement_input, settlement_transition,
}
use rosa_pay_application.Api.Intents.Store.{
  save, save_settlement, save_authorization, list_settlements, compare_and_set_settlement,
}
use rosa_pay_application.Api.Intents.Interleave.{
  M, ◌>>=◌, ◌>>◌, pure, throw, require, branch, call, read, write,
}
use rosa_pay_application.Api.Intents.Checks.{
  is_stellar_address, is_transaction_hash, is_positive_ledger, optional,
}

abbrev pub find_by_intent_id : String → M (Option StoredIntent)
find_by_intent_id id = read (λ r. get id r.by_id)

abbrev pub find_by_idempotency_key : String → M (Option StoredIntent)
find_by_idempotency_key key = read (λ r. get key r.by_idempotency_key)

abbrev pub find_settlement : String → M (Option SettlementRecord)
find_settlement id = read (λ r. get id r.settlements)

abbrev pub find_authorization : String → M (Option AuthorizationRecord)
find_authorization id = read (λ r. get id r.authorizations)

abbrev pub find_countersignature : String → M (Option CountersignatureRecord)
find_countersignature id = read (λ r. get id r.countersignatures)

abbrev pub initial_settlement : String → SettlementRecord
initial_settlement id = record {
  intent_id = id;
  status = awaiting_approval;
  transaction_hash = none;
  ledger = none;
  failure_code = none;
  confirmed_at = none;
}

-- The two writes of `saveIntentWithSettlement`, each awaited.
abbrev pub save_intent_with_settlement : ℕ → StoredIntent → SettlementRecord → M (Unit {0})
save_intent_with_settlement ms stored settlement = do
  write (save ms stored)
  write (save_settlement settlement)

-- `payload` is what `parseSignedPaymentIntent` returned and `hash` is its intent's hash.
unfoldable pub create : ℕ → SignedPaymentIntentV1 → String → String → M StoredIntent
create ms payload hash key = do
  previous ← find_by_idempotency_key key
  elim previous [
    | some stored ↦ branch (str_eq stored.payload_hash hash) (pure stored) (throw intent_conflict)
    | none ↦ do
      existing ← find_by_intent_id payload.intent.intent_id
      elim existing [
        | some _ ↦ throw intent_conflict
        | none ↦
            let stored : StoredIntent = record {
              payload = payload;
              payload_hash = hash;
              idempotency_key = key;
              status = created;
            } in
            do
              save_intent_with_settlement ms stored (initial_settlement payload.intent.intent_id)
              pure stored
      ]
  ]

unfoldable pub get_settlement : String → M (Option SettlementRecord)
get_settlement id = do
  stored ← find_by_intent_id id
  elim stored [ none ↦ pure none | some _ ↦ find_settlement id ]

unfoldable pub list_submitted_settlements : M (List SettlementRecord)
list_submitted_settlements = read (list_settlements (some submitted))

-- `Partial<SettlementRecord>`, for the fields that the service patches.
pub record Patch : Type 0 where
  pub transaction_hash : Option String
  pub ledger : Option ℕ
  pub failure_code : Option String
  pub confirmed_at : Option String

abbrev pub no_patch : Patch
no_patch = record {
  transaction_hash = none;
  ledger = none;
  failure_code = none;
  confirmed_at = none;
}

abbrev pub patched : {A : Type 0} → Option A → Option A → Option A
patched (some new) old = some new
patched none old = old

-- `{...current, status: next, ...patch}`
unfoldable pub updated : SettlementRecord → PaymentStatus → Patch → SettlementRecord
updated current next patch = record current {
  status = next;
  transaction_hash = patched patch.transaction_hash current.transaction_hash;
  ledger = patched patch.ledger current.ledger;
  failure_code = patched patch.failure_code current.failure_code;
  confirmed_at = patched patch.confirmed_at current.confirmed_at;
}

-- `given && kept && given !== kept`
unfoldable pub hash_conflict : Option String → Option String → Bool
hash_conflict (some given) (some kept) =
    not (is_empty given) && not (is_empty kept) && not (str_eq given kept)
hash_conflict _ _ = false

-- The answer where the settlement already has the status that is asked for.
unfoldable pub unchanged : Patch → SettlementRecord → M SettlementRecord
unfolding hash_conflict
unchanged patch current =
    branch (hash_conflict patch.transaction_hash current.transaction_hash)
      (throw settlement_transition) (pure current)

-- The loop of `transitionSettlement`, by the attempts that are left.
unfoldable pub transition_attempts : ℕ → String → PaymentStatus → Patch → M SettlementRecord
transition_attempts zero id next patch = throw settlement_transition
transition_attempts (suc left) id next patch = do
  found ← find_settlement id
  elim found [
    | none ↦ throw settlement_not_found
    | some current ↦ branch (status_eq current.status next) (unchanged patch current) (
        branch (is_allowed current.status next)
          (do
            done ← call (compare_and_set_settlement id current.status (updated current next patch))
            branch done (pure (updated current next patch))
                (transition_attempts left id next patch))
          (throw settlement_transition))
  ]

abbrev pub max_attempts : ℕ
max_attempts = 3

unfoldable pub transition_settlement : String → PaymentStatus → Patch → M SettlementRecord
transition_settlement id next patch = transition_attempts max_attempts id next patch

-- `authorization` without the fields that the service fills in.
pub record AuthorizationInput : Type 0 where
  pub authorizer : String
  pub authorization_hash : Option String
  pub expires_at_ledger : Option ℕ

unfoldable pub authorize : String → String → Option AuthorizationInput → M SettlementRecord
authorize now id none = transition_settlement id authorized no_patch
authorize now id (some given) = do
  require (is_stellar_address given.authorizer) settlement_input
  require (optional (λ h. is_empty h || is_transaction_hash h) given.authorization_hash)
      settlement_input
  require (optional is_positive_ledger given.expires_at_ledger) settlement_input
  write (
      save_authorization (record {
        intent_id = id;
        authorizer = given.authorizer;
        authorization_hash = given.authorization_hash;
        expires_at_ledger = given.expires_at_ledger;
        received_at = now;
      }))
  transition_settlement id authorized no_patch

unfoldable pub submit : String → String → M SettlementRecord
submit id hash = do
  require (is_transaction_hash hash) settlement_input
  transition_settlement id submitted (record no_patch { transaction_hash = some hash })

unfoldable pub confirm : String → String → String → ℕ → M SettlementRecord
confirm now id hash ledger = do
  require (is_transaction_hash hash) settlement_input
  require (is_positive_ledger ledger) settlement_input
  transition_settlement id confirmed (record no_patch {
    transaction_hash = some hash;
    ledger = some ledger;
    confirmed_at = some now;
  })

unfoldable pub fail : String → String → M SettlementRecord
fail id code = do
  require (not (is_empty (trim code))) settlement_input
  transition_settlement id failed (record no_patch { failure_code = some (trim code) })
