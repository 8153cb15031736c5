-- ===== src/Api/Wallets/Once.antt =====
-- A device's key is given a wallet once.
use rosa_pay_application.Base.{
  ℕ, ◌≡◌, refl, sym, subst, ◌∙◌, String, Bool, true, false, not, Option, none, some, List, [], ◌∷◌,
  All, Result, ok, err, if◌then◌else◌, Bool-cases, inl, inr, arith, eq_refl,
}
use rosa_pay_application.Base.Dict.{get, put, get-put}
use rosa_pay_application.Signer.{Bytes, uncompressed_point_from_spki}
use rosa_pay_application.Api.Wallets.{
  Recovery, WalletRecord, Wallets, find_by_signer, save_wallet, ProvisioningError,
  ProvisionedWallet, Spending, ProvisioningOptions, Ledger, Outcome, reuse, finish,
  after_deployment, find_or_deploy, read_recovery, with_recovery, with_point, point_or_throw,
  is_enabled, provision,
}
use rosa_pay_application.Api.Wallets.Kept.{Keeps, reuse-Keeps, provision-Keeps}

get-put-same : (k : String) (v : WalletRecord) (m : Wallets) → get k (put k v m) ≡ some v
get-put-same k v m = get-put k k v m ∙ rw (eq_refl k) refl

reuse-unspent :
    (existing : WalletRecord) (signer : String) (user : Option String) (wallets : Wallets)
    → ((reuse existing signer user wallets).0).1 ≡ []
unfolding reuse
reuse-unspent existing signer user wallets = ground arith

branches-stored :
    (bad funded : Bool) (e e' : ProvisioningError) (made answer : ProvisionedWallet)
    (l l' l'' : List Spending) (signer : String) (wallet : WalletRecord) (wallets : Wallets)
    → let outcome : Outcome ProvisionedWallet × Wallets =
        if bad
        then ((err e, l), wallets)
        else if funded
        then ((ok made, l'), put signer wallet wallets)
        else ((err e', l''), wallets) in
      (outcome.0).0 ≡ ok answer → (w : WalletRecord) × (get signer outcome.1 ≡ some w)
branches-stored true funded e e' made answer l l' l'' signer wallet wallets h = ground arith
branches-stored false true e e' made answer l l' l'' signer wallet wallets h =
    (wallet, get-put-same signer wallet wallets)
branches-stored false false e e' made answer l l' l'' signer wallet wallets h = ground arith

disabled_throws :
    (answer : ProvisionedWallet)
    → ◌≡◌ {A = Result ProvisioningError ProvisionedWallet}
        (err ProvisioningError.provisioning_disabled)
        (ok answer)
    → ⊥
disabled_throws answer h = ground arith

module _ (ledger : Ledger) (options : ProvisioningOptions) (others : Keeps ledger.meanwhile) where
  deployment-stored :
      (signer : String) (user : Option String) (recovery : Option (Recovery × Bytes))
      (result : Option (String × String)) (wallets : Wallets) (answer : ProvisionedWallet)
      → ((after_deployment ledger options signer user recovery result wallets).0).0 ≡ ok answer
      → (w : WalletRecord) × (get signer
            (after_deployment ledger options signer user recovery result wallets).1
          ≡ some w)
  unfolding finish save_wallet
  deployment-stored signer user recovery none wallets answer h = ground arith
  deployment-stored signer user recovery (some result) wallets answer h =
      branches-stored (not (ledger.is_valid_contract result.1)) _ _ _ _ answer _ _ _ signer _
        wallets h

  found-stored :
      (signer : String) (user : Option String) (recovery : Option (Recovery × Bytes))
      (existing : Option WalletRecord) (wallets : Wallets) (answer : ProvisionedWallet)
      → get signer wallets ≡ existing
      → ((find_or_deploy ledger options signer user recovery existing wallets).0).0 ≡ ok answer
      → (w : WalletRecord) × (get signer
            (find_or_deploy ledger options signer user recovery existing wallets).1
          ≡ some w)
  found-stored signer user recovery none wallets answer found h =
      deployment-stored signer user recovery ledger.deploy (ledger.meanwhile wallets) answer h
  found-stored signer user recovery (some existing) wallets answer found h =
      let (w, kept) = others signer wallets existing found in
      reuse-Keeps existing signer user signer (ledger.meanwhile wallets) w kept

  recovery-stored :
      (user : Option String) (point : Bytes)
      (recovery : Result ProvisioningError (Option (Recovery × Bytes))) (wallets : Wallets)
      (answer : ProvisionedWallet)
      → ((with_recovery ledger options user point recovery wallets).0).0 ≡ ok answer
      → (w : WalletRecord) × (get
            (ledger.to_base64 point)
            (with_recovery ledger options user point recovery wallets).1
          ≡ some w)
  unfolding find_by_signer
  recovery-stored user point (err e) wallets answer h = ground arith
  recovery-stored user point (ok recovery) wallets answer h =
      found-stored (ledger.to_base64 point) user recovery (get (ledger.to_base64 point) wallets)
        wallets answer refl h

  -- A key that has been answered has a wallet, under the text of its point.
  point-stored :
      (user : Option String) (recovery : Option Recovery) (point : Result ProvisioningError Bytes)
      (wallets : Wallets) (answer : ProvisionedWallet)
      → ((with_point ledger options user recovery point wallets).0).0 ≡ ok answer
      → (p : Bytes) × (w : WalletRecord) × (point ≡ ok p)
        × (get (ledger.to_base64 p) (with_point ledger options user recovery point wallets).1
            ≡ some w)
  point-stored user recovery (err e) wallets answer h = ground arith
  point-stored user recovery (ok p) wallets answer h =
      let (w, stored) = recovery-stored user p (read_recovery ledger p recovery) wallets answer h in
      (p, w, refl, stored)

  provision-stored :
      (device_public_key : String) (user : Option String) (recovery : Option Recovery)
      (wallets : Wallets) (answer : ProvisionedWallet)
      → ((provision ledger options device_public_key user recovery wallets).0).0 ≡ ok answer
      → (p : Bytes) × (w : WalletRecord) × (point_or_throw
            (uncompressed_point_from_spki (ledger.from_base64 device_public_key))
          ≡ ok p)
        × (get
              (ledger.to_base64 p)
              (provision ledger options device_public_key user recovery wallets).1
            ≡ some w)
  unfolding provision
  provision-stored device_public_key user recovery wallets answer h =
      let point =
        point_or_throw (uncompressed_point_from_spki (ledger.from_base64 device_public_key)) in
      elim (Bool-cases (is_enabled options)) [
        | inr off ↦ absurd (
            disabled_throws answer (
              subst
                (λ b.
                  ((if b
                    then with_point ledger options user recovery point wallets
                    else ((err ProvisioningError.provisioning_disabled, []), wallets)).0
                  ).0
                  ≡ ok answer)
                off h))
        | inl on ↦ rw on (
            point-stored user recovery point wallets answer (
              subst
                (λ b.
                  ((if b
                    then with_point ledger options user recovery point wallets
                    else ((err ProvisioningError.provisioning_disabled, []), wallets)).0
                  ).0
                  ≡ ok answer)
                on h))
      ]

module _ (ledger : Ledger) (options : ProvisioningOptions) where
  -- A wallet that is there is used again, and nothing is spent.
  recovery-unspent :
      (user : Option String) (point : Bytes)
      (recovery : Result ProvisioningError (Option (Recovery × Bytes))) (wallets : Wallets)
      (w : WalletRecord)
      → get (ledger.to_base64 point) wallets ≡ some w
      → ((with_recovery ledger options user point recovery wallets).0).1 ≡ []
  unfolding find_by_signer
  recovery-unspent user point (err e) wallets w h = refl
  recovery-unspent user point (ok recovery) wallets w h =
      rw h (reuse-unspent w (ledger.to_base64 point) user (ledger.meanwhile wallets))

  -- A key with a wallet costs nothing.
  provision-unspent :
      (device_public_key : String) (user : Option String) (recovery : Option Recovery)
      (wallets : Wallets) (p : Bytes) (w : WalletRecord)
      → point_or_throw (uncompressed_point_from_spki (ledger.from_base64 device_public_key)) ≡ ok p
      → get (ledger.to_base64 p) wallets ≡ some w
      → ((provision ledger options device_public_key user recovery wallets).0).1 ≡ []
  unfolding provision
  provision-unspent device_public_key user recovery wallets p w read stored =
      elim (Bool-cases (is_enabled options)) [
        | inr off ↦ rw off refl
        | inl on ↦
            rw on
              (rw read (recovery-unspent user p (read_recovery ledger p recovery) wallets w stored))
      ]

-- A call of the service: its options and arguments, what the ledger answers it, and what other
-- requests write meanwhile. Buffer is the same for all calls.
pub record Call : Type 0 where
  pub options : ProvisioningOptions
  pub device_public_key : String
  pub user : Option String
  pub recovery : Option Recovery
  pub is_valid_contract : String → Bool
  pub deploy : Option (String × String)
  pub transfer : String → ℕ → String → Bool
  pub meanwhile : Wallets → Wallets

abbrev pub ledger_of : Ledger → Call → Ledger
ledger_of buffer c = record {
  from_base64 = buffer.from_base64;
  to_base64 = buffer.to_base64;
  is_valid_contract = c.is_valid_contract;
  deploy = c.deploy;
  transfer = c.transfer;
  meanwhile = c.meanwhile;
}

abbrev pub make : Ledger → Call → Wallets → Outcome ProvisionedWallet × Wallets
make buffer c wallets =
    provision (ledger_of buffer c) c.options c.device_public_key c.user c.recovery wallets

-- The repository after calls, one after the other.
unfoldable pub after_calls : Ledger → List Call → Wallets → Wallets
after_calls buffer [] wallets = wallets
after_calls buffer (c ∷ calls) wallets = after_calls buffer calls (make buffer c wallets).1

calls-Keeps :
    (buffer : Ledger) (calls : List Call)
    → All (λ c. Keeps c.meanwhile) calls
    → Keeps (after_calls buffer calls)
unfolding after_calls
calls-Keeps buffer [] others k m w h = (w, h)
calls-Keeps buffer (c ∷ calls) (other, others) k m w h =
    let (v, kept) =
      provision-Keeps (ledger_of buffer c) c.options other c.device_public_key c.user c.recovery k m
        w h in
    calls-Keeps buffer calls others k (make buffer c m).1 v kept

-- Once a device's key has been answered with a wallet, no later call for that key, by whatever user,
-- with whatever recovery key and under whatever options, asks for a deployment or a transfer, after
-- any calls for any keys in between, whatever the ledger answers; as long as no write of other
-- requests during the first call and those in between takes a key's wallet away.
pub provision-once :
    (buffer : Ledger) (first later : Call) (between : List Call) (wallets : Wallets)
    (answer : ProvisionedWallet)
    → later.device_public_key ≡ first.device_public_key
    → Keeps first.meanwhile
    → All (λ c. Keeps c.meanwhile) between
    → ((make buffer first wallets).0).0 ≡ ok answer
    → ((make buffer later (after_calls buffer between (make buffer first wallets).1)).0).1 ≡ []
provision-once buffer first later between wallets answer same other others answered =
    let (p, w, read, stored) =
      provision-stored (ledger_of buffer first) first.options other first.device_public_key
        first.user first.recovery wallets answer answered in
    let (v, kept) =
      calls-Keeps buffer between others (buffer.to_base64 p) (make buffer first wallets).1 w
        stored in
    provision-unspent (ledger_of buffer later) later.options later.device_public_key later.user
      later.recovery (after_calls buffer between (make buffer first wallets).1) p v
      (subst (λ key. point_or_throw (uncompressed_point_from_spki (buffer.from_base64 key)) ≡ ok p)
        (sym same) read)
      kept
