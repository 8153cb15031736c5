-- ===== src/Protocol/Amounts/Created.antt =====
-- The requests that the factory makes, in front of a reader.
use rosa_pay_application.Base.{
  ℕ, ◌+◌, ◌<◌, ◌≤◌, ◌≡◌, refl, subst, String, true, some, Result, ok, err, arith,
}
use rosa_pay_application.Protocol.Schema.{
  PaymentAsset, PaymentIntentV1, network_eq, testnet, pubnet, Network,
}
use rosa_pay_application.Protocol.Schema.Parsing.{Formats, parse_payment_intent}
use rosa_pay_application.Protocol.Schema.Parsing.Stable.{parse-some, parse_payment_intent-stable}
use rosa_pay_application.Protocol.Validation.{validate_payment_intent, check_expiry}
use rosa_pay_application.Protocol.Amounts.{
  FactoryError, CreatePaymentIntentInput, normalize_payment_amount, create_payment_intent, drafted,
  given_or, native_xlm, default_intent_lifetime_ledgers, max_intent_acceptance_ledgers, parse_draft,
}

-- What a request that is made has passed.
record IsDrafted (formats : Formats) (input : CreatePaymentIntentInput) (intent : PaymentIntentV1)
    : Type 0 where
  lifetime : ℕ
  lives : 0 < lifetime
  short : lifetime ≤ 60
  asset : PaymentAsset
  amount : String
  parsed : parse_payment_intent formats (drafted input lifetime asset amount) ≡ some intent

draft-IsDrafted :
    (formats : Formats) (input : CreatePaymentIntentInput) (intent : PaymentIntentV1) (lifetime : ℕ)
    (asset : PaymentAsset) (amount : Result FactoryError String)
    → 0 < lifetime
    → lifetime ≤ 60
    → parse_draft formats input lifetime asset amount ≡ ok (some intent)
    → IsDrafted formats input intent
unfolding parse_draft
draft-IsDrafted formats input intent lifetime asset (err e) lives short h = ground arith
draft-IsDrafted formats input intent lifetime asset (ok amount) lives short h = record {
  lifetime = lifetime;
  lives = lives;
  short = short;
  asset = asset;
  amount = amount;
  parsed = ground arith;
}

create-IsDrafted :
    (formats : Formats) (input : CreatePaymentIntentInput) (intent : PaymentIntentV1)
    → create_payment_intent formats input ≡ ok (some intent)
    → IsDrafted formats input intent
unfolding create_payment_intent
create-IsDrafted formats input intent h =
    let lifetime = given_or default_intent_lifetime_ledgers input.lifetime_ledgers in
    let asset = given_or native_xlm input.asset in
    draft-IsDrafted formats input intent lifetime asset
      (normalize_payment_amount input.amount asset.decimals) (ground arith) (ground arith)
      (ground arith)

parsed-of_draft :
    (formats : Formats) (input : CreatePaymentIntentInput) (intent : PaymentIntentV1)
    → IsDrafted formats input intent
    → (intent.network ≡ input.profile.network)
      × (input.latest_ledger < intent.expires_at_ledger)
      × (intent.expires_at_ledger ≤ input.latest_ledger + 60)
parsed-of_draft formats input intent d =
    let made = drafted input d.lifetime d.asset d.amount in
    let lives = d.lives in
    let short = d.short in
    subst
      (λ i.
        (i.network ≡ input.profile.network)
        × (input.latest_ledger < i.expires_at_ledger)
        × (i.expires_at_ledger ≤ input.latest_ledger + 60))
      (parse-some formats made intent d.parsed).1 (refl, omega (arith, lives), omega (arith, short))

network_eq_refl : (n : Network) → network_eq n n ≡ true
network_eq_refl testnet = refl
network_eq_refl pubnet = refl

-- What the factory makes, with the ledger that the merchant saw, the schema parses again unchanged,
-- and a reader on the same network accepts it whose own ledger is before the expiry and at most twelve
-- behind the merchant's.
pub create_payment_intent-accepted :
    (formats : Formats) (input : CreatePaymentIntentInput) (intent : PaymentIntentV1) (latest : ℕ)
    → create_payment_intent formats input ≡ ok (some intent)
    → input.latest_ledger ≤ latest + 12
    → latest < intent.expires_at_ledger
    → (parse_payment_intent formats intent ≡ some intent)
      × (validate_payment_intent intent (record {
        network = input.profile.network;
        latest_ledger = some latest;
        max_ledger_lifetime = some max_intent_acceptance_ledgers;
      })
          ≡ ok intent)
unfolding validate_payment_intent check_expiry
create_payment_intent-accepted formats input intent latest h lag open_still =
    let d = create-IsDrafted formats input intent h in
    let stable =
      parse_payment_intent-stable formats (drafted input d.lifetime d.asset d.amount) intent
        d.parsed in
    let facts = parsed-of_draft formats input intent d in
    (stable, rw (facts.0) (rw (network_eq_refl input.profile.network) (ground arith)))
