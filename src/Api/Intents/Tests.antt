-- ===== src/Api/Intents/Tests.antt =====
-- A payment request that two customers scan, and its settlement.
use rosa_pay_application.Base.{◌≡◌, ◌≢◌, refl, String, none, some, [], ◌∷◌, ok, arith, eq_iff}
use rosa_pay_application.Base.Dict.{get, put}
use rosa_pay_application.Domain.Payment.{submitted, authorized, created, status_eq, is_allowed}
use rosa_pay_application.Protocol.Schema.{testnet, native, PaymentIntentV1}
use rosa_pay_application.Api.Intents.Records.{
  StoredIntent, SettlementRecord, CountersignatureRecord,
}
use rosa_pay_application.Api.Intents.Store.{
  Repo, save_countersignature, merge_countersignature, compare_and_set_settlement,
}
use rosa_pay_application.Api.Intents.Interleave.{
  World, pure, throw, require, branch, read, write, call, interfere, ◌>>=◌, ◌>>◌,
}
use rosa_pay_application.Api.Intents.Checks.{is_stellar_address, is_transaction_hash}
use rosa_pay_application.Api.Intents.Service.{
  initial_settlement, transition_settlement, transition_attempts, no_patch, submit, unchanged,
  updated, hash_conflict,
}
use rosa_pay_application.Api.Intents.Claims.{
  request_countersignature, require_countersignature_settlement, persisted_claim, claim_record,
}
use rosa_pay_application.Api.Intents.Advance.{Advances}
use rosa_pay_application.Domain.Payment.Lifecycle.{here}
use rosa_pay_application.Api.Intents.Exclusive.{ClaimsKept, ClaimsKept-IsProgress}
use rosa_pay_application.Api.Intents.Transitions.{
  alone, IsTransition, transition_settlement-IsTransition,
}
use rosa_pay_application.Api.Intents.Requests.{
  submitting, perform, perform-never_regresses, perform-answers_stored,
}
use rosa_pay_application.Api.Intents.Holders.{request-answers_own_claim, claims_are_exclusive}

abbrev intent : PaymentIntentV1
intent = record {
  intent_id = "i";
  network = testnet;
  merchant_profile_id = "m";
  merchant_name = "Cafe";
  merchant_signing_key = "G";
  recipient = "G";
  asset = record { type = native; code = "XLM"; issuer = none; contract_id = none; decimals = 7 };
  amount = "2.5";
  reference = "coffee";
  nonce = "n";
  expires_at_ledger = 160;
  created_at = "2026-01-01T00:00:00Z";
}

abbrev stored : StoredIntent
stored = record {
  payload = record { intent = intent; signature = "s" };
  payload_hash = "h";
  idempotency_key = "k";
  status = created;
}

abbrev waiting : Repo
waiting = record {
  by_id = ("i", stored) ∷ [];
  by_idempotency_key = ("k", stored) ∷ [];
  settlements = ("i", initial_settlement "i") ∷ [];
  authorizations = [];
  countersignatures = [];
  created_at = ("i", 1) ∷ [];
}

abbrev alice : String
alice = "GAAAAAAAAAAAAAAAAAAAAAAAAAAAAAAAAAAAAAAAAAAAAAAAAAAAAWHF"

abbrev bob : String
bob = "GBBBBBBBBBBBBBBBBBBBBBBBBBBBBBBBBBBBBBBBBBBBBBBBBBBBBBBB"

abbrev hash : String
hash = "0123456789abcdef0123456789abcdef0123456789abcdef0123456789ABCDEF"

-- Another request notes who authorized the payment, and nothing else.
abbrev note : Repo → Repo
note r = record r {
  authorizations =
      put "i"
        (record {
          intent_id = "i";
          authorizer = alice;
          authorization_hash = none;
          expires_at_ledger = none;
          received_at = "t";
        })
        r.authorizations;
}

abbrev going : Repo
going = record waiting {
  settlements = ("i", record (initial_settlement "i") { status = authorized }) ∷ [];
}

abbrev beside : World
beside = record { repo = going; others = note ∷ [] }

note-Advances : (r : Repo) → Advances r (note r)
note-Advances r id s found = rw found here

note-ClaimsKept : (r : Repo) → ClaimsKept r (note r)
note-ClaimsKept r id c found = ClaimsKept-IsProgress.still r id c found

perform-never_regresses_example : Advances going (perform (submitting "i" hash) beside).1.repo
perform-never_regresses_example =
    perform-never_regresses (submitting "i" hash) beside (note-Advances, tt)

abbrev sent : SettlementRecord
sent = record (initial_settlement "i") { status = submitted; transaction_hash = some hash }

perform-answers_stored_example :
    (get "i" (perform (submitting "i" hash) beside).1.repo.settlements ≡ some sent)
    × (sent.status ≡ submitted)
unfolding perform submit transition_settlement transition_attempts unchanged updated hash_conflict
    compare_and_set_settlement is_transaction_hash status_eq is_allowed get put pure throw require
    branch read call interfere ◌>>=◌ ◌>>◌
perform-answers_stored_example =
    perform-answers_stored (submitting "i" hash) beside sent (note-Advances, tt) refl

transition_settlement-IsTransition_example :
    IsTransition "i" authorized no_patch waiting
      (transition_settlement "i" authorized no_patch (alone waiting)).0
      (transition_settlement "i" authorized no_patch (alone waiting)).1.repo
transition_settlement-IsTransition_example =
    transition_settlement-IsTransition "i" authorized no_patch waiting

abbrev scanned : World
scanned = record { repo = waiting; others = note ∷ [] }

abbrev claim : CountersignatureRecord
claim = claim_record "t" "i" alice

abbrev after_alice : World
after_alice = (request_countersignature "t" "i" alice scanned).1

alice_claims : (request_countersignature "t" "i" alice scanned).0 ≡ ok claim
unfolding request_countersignature require_countersignature_settlement persisted_claim
    save_countersignature merge_countersignature is_stellar_address status_eq get put pure throw
    require branch read write call interfere ◌>>=◌ ◌>>◌
alice_claims = refl

request-answers_own_claim_example :
    (get "i" (request_countersignature "t" "i" alice scanned).1.repo.countersignatures ≡ some claim)
    × (claim.customer_address ≡ alice)
request-answers_own_claim_example =
    request-answers_own_claim "t" "i" alice scanned claim (note-ClaimsKept, tt) alice_claims

alice≢bob : alice ≢ bob
alice≢bob e = ground (arith, eq_iff alice bob)

claims_are_exclusive_example :
    (request_countersignature "u" "i" bob (alone after_alice.repo)).0
    ≢ ok (claim_record "u" "i" bob)
claims_are_exclusive_example =
    claims_are_exclusive "t" "u" "i" alice bob scanned (alone after_alice.repo) claim alice≢bob
      (note-ClaimsKept, tt) alice_claims (ClaimsKept-IsProgress.still after_alice.repo) tt
      (claim_record "u" "i" bob)
