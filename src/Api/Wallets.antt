-- ===== src/Api/Wallets.antt =====
-- apps/api/src/application/WalletProvisioningService.ts over the in-memory repository of
-- WalletRepository.ts beside it. The RPC server is what a deployment and a transfer come to; what is
-- asked of it is kept in a log, and what other requests write between the look at the repository and
-- the save is part of it.
pub mod Kept
pub mod Once
mod Tests
use rosa_pay_application.Base.{
  ℕ, String, Bool, true, false, not, ◌&&◌, Option, none, some, List, [], ◌∷◌, ◌++◌, Result, ok, err,
  ◌==◌, str_eq, if◌then◌else◌,
}
use rosa_pay_application.Base.Dict.{Dict, get, put, values}
use rosa_pay_application.Base.Text.{is_empty, trim}
use rosa_pay_application.Protocol.Schema.{Network}
use rosa_pay_application.Signer.{Bytes, uncompressed_point_from_spki}
use rosa_pay_application.Stellar.Amounts.{parse_stroops}

pub data SignerKind : Type 0 where
  device passkey : SignerKind

pub record Recovery : Type 0 where
  pub public_key : String
  pub credential_id : String
  pub kind : SignerKind

pub record WalletRecord : Type 0 where
  pub contract_address : String
  pub public_signer : String
  pub network : Network
  pub user_id : Option String
  pub recovery : Option Recovery

abbrev pub Wallets : Type 0
Wallets = Dict WalletRecord

unfoldable pub find_by_signer : String → Wallets → Option WalletRecord
find_by_signer signer wallets = get signer wallets

unfoldable pub save_wallet : WalletRecord → Wallets → Wallets
save_wallet wallet wallets = put wallet.public_signer wallet wallets

abbrev pub recovers : String → Option Recovery → Bool
recovers credential none = false
recovers credential (some recovery) = str_eq recovery.credential_id credential

abbrev pub first_recovered : String → List WalletRecord → Option WalletRecord
first_recovered credential [] = none
first_recovered credential (wallet ∷ rest) =
    let later = first_recovered credential rest in
    if recovers credential wallet.recovery then some wallet else later

unfoldable pub find_by_recovery_credential : String → Wallets → Option WalletRecord
find_by_recovery_credential credential wallets = first_recovered credential (values wallets)

pub data ProvisioningError : Type 0 where
  provisioning_disabled invalid_device_key provisioning_failed ownership_conflict :
      ProvisioningError

pub record ProvisionedWallet : Type 0 where
  pub wallet_contract_id : String
  pub device_public_key : String
  pub transaction_hash : String
  pub funded_amount : String
  pub reused : Bool

-- What is asked of the ledger: a deployment for a device's key, and a transfer to a wallet.
pub data Spending : Type 0 where
  deployed : String → Option (Bytes × SignerKind) → Spending
  transferred : String → ℕ → String → Spending

pub record SecondaryFunding : Type 0 where
  pub contract_id : String
  pub amount : String

pub record ProvisioningOptions : Type 0 where
  pub network : Network
  pub wallet_wasm_hash : Option String
  pub deployer_secret : Option String
  pub funding_amount : Option String
  pub secondary_funding : Option SecondaryFunding
  pub native_contract_id : String

-- Buffer, the RPC server and the other requests: what a deployment returns, its hash first, whether a
-- transfer succeeds, and what is written to the repository in the meantime.
pub record Ledger : Type 0 where
  pub from_base64 : String → Bytes
  pub to_base64 : Bytes → String
  pub is_valid_contract : String → Bool
  pub deploy : Option (String × String)
  pub transfer : String → ℕ → String → Bool
  pub meanwhile : Wallets → Wallets

-- `text?.trim()` that is not empty.
abbrev pub has_text : Option String → Bool
has_text none = false
has_text (some text) = not (is_empty (trim text))

abbrev pub has_hash : Option String → Bool
has_hash none = false
has_hash (some hash) = not (is_empty hash)

unfoldable pub is_enabled : ProvisioningOptions → Bool
is_enabled options = has_text options.deployer_secret && has_hash options.wallet_wasm_hash

abbrev pub point_or_throw : {E : Type 0} → Result E Bytes → Result ProvisioningError Bytes
point_or_throw (ok point) = ok point
point_or_throw (err e) = err invalid_device_key

-- The owner of a wallet is another user than the caller, where both are known; an empty text is falsy.
abbrev pub other_owner : Option String → Option String → Bool
other_owner none owner = false
other_owner (some user) none = false
other_owner (some user) (some owner) =
    not (is_empty user) && not (is_empty owner) && not (str_eq owner user)

abbrev pub is_truthy : Option String → Bool
is_truthy none = false
is_truthy (some text) = not (is_empty text)

abbrev pub Outcome : Type 0 → Type 0
Outcome A = Result ProvisioningError A × List Spending

-- What a repeated call comes to: no call of the ledger, and perhaps the owner filled in.
unfoldable pub reuse :
    WalletRecord → String → Option String → Wallets → Outcome ProvisionedWallet × Wallets
reuse existing signer user wallets =
    let answer : ProvisionedWallet = record {
      wallet_contract_id = existing.contract_address;
      device_public_key = signer;
      transaction_hash = "";
      funded_amount = "0";
      reused = true;
    } in
    if other_owner user existing.user_id
    then ((err ownership_conflict, []), wallets)
    else if is_truthy user && not (is_truthy existing.user_id)
    then ((ok answer, []), save_wallet (record existing { user_id = user }) wallets)
    else ((ok answer, []), wallets)

abbrev pub given_or : {A : Type 0} → A → Option A → A
given_or otherwise none = otherwise
given_or otherwise (some value) = value

-- `fund`: an amount that is none throws before anything is sent.
abbrev pub fund_units : {E : Type 0} → Ledger → String → String → Result E ℕ → Bool × List Spending
fund_units ledger wallet asset (err e) = (false, [])
fund_units ledger wallet asset (ok stroops) =
    (ledger.transfer wallet stroops asset, transferred wallet stroops asset ∷ [])

unfoldable pub fund : Ledger → String → String → String → Bool × List Spending
fund ledger wallet amount asset = fund_units ledger wallet asset (parse_stroops amount)

-- The second balance, whose failure is reported and does not stop the provisioning.
abbrev pub fund_secondary : Ledger → String → Option SecondaryFunding → List Spending
fund_secondary ledger wallet none = []
fund_secondary ledger wallet (some secondary) =
    (fund ledger wallet secondary.amount secondary.contract_id).1

abbrev pub kept_recovery : Ledger → Option (Recovery × Bytes) → Option Recovery
kept_recovery ledger none = none
kept_recovery ledger (some (recovery, point)) =
    some (record recovery { public_key = ledger.to_base64 point })

abbrev pub deployed_signer : Option (Recovery × Bytes) → Option (Bytes × SignerKind)
deployed_signer none = none
deployed_signer (some (recovery, point)) = some (point, recovery.kind)

-- Funding, and the record of the wallet, once it is deployed.
unfoldable pub finish :
    Ledger
    → ProvisioningOptions
    → String
    → Option String
    → Option (Recovery × Bytes)
    → Spending
    → String × String
    → Wallets
    → Outcome ProvisionedWallet × Wallets
finish ledger options signer user recovery first result wallets =
    let hash = result.0 in
    let contract = result.1 in
    let amount = given_or "25" options.funding_amount in
    let funding = fund ledger contract amount options.native_contract_id in
    let later = fund_secondary ledger contract options.secondary_funding in
    let wallet : WalletRecord = record {
      contract_address = contract;
      public_signer = signer;
      network = options.network;
      user_id = if is_truthy user then user else none;
      recovery = kept_recovery ledger recovery;
    } in
    let answer : ProvisionedWallet = record {
      wallet_contract_id = contract;
      device_public_key = signer;
      transaction_hash = hash;
      funded_amount = amount;
      reused = false;
    } in
    if not (ledger.is_valid_contract contract)
    then ((err provisioning_failed, first ∷ []), wallets)
    else if funding.0
    then ((ok answer, first ∷ (funding.1 ++ later)), save_wallet wallet wallets)
    else ((err provisioning_failed, first ∷ funding.1), wallets)

abbrev pub after_deployment :
    Ledger
    → ProvisioningOptions
    → String
    → Option String
    → Option (Recovery × Bytes)
    → Option (String × String)
    → Wallets
    → Outcome ProvisionedWallet × Wallets
after_deployment ledger options signer user recovery none wallets =
    ((err provisioning_failed, deployed signer (deployed_signer recovery) ∷ []), wallets)
after_deployment ledger options signer user recovery (some result) wallets =
    finish ledger options signer user recovery (deployed signer (deployed_signer recovery)) result
      wallets

abbrev pub find_or_deploy :
    Ledger
    → ProvisioningOptions
    → String
    → Option String
    → Option (Recovery × Bytes)
    → Option WalletRecord
    → Wallets
    → Outcome ProvisionedWallet × Wallets
find_or_deploy ledger options signer user recovery (some existing) wallets =
    reuse existing signer user (ledger.meanwhile wallets)
find_or_deploy ledger options signer user recovery none wallets =
    after_deployment ledger options signer user recovery ledger.deploy (ledger.meanwhile wallets)

-- `a.equals(b)`
abbrev pub same_bytes : Bytes → Bytes → Bool
same_bytes [] [] = true
same_bytes (a ∷ as_) (b ∷ bs) = a == b && same_bytes as_ bs
same_bytes [] (b ∷ bs) = false
same_bytes (a ∷ as_) [] = false

-- The recovery key, which must be a point and not the device's own.
abbrev pub check_recovery :
    Ledger
    → Bytes
    → Recovery
    → Result ProvisioningError Bytes
    → Result ProvisioningError (Option (Recovery × Bytes))
check_recovery ledger point recovery (err e) = err e
check_recovery ledger point recovery (ok recovery_point) =
    if same_bytes recovery_point point
    then err invalid_device_key
    else ok (some (recovery, recovery_point))

abbrev pub read_recovery :
    Ledger → Bytes → Option Recovery → Result ProvisioningError (Option (Recovery × Bytes))
read_recovery ledger point none = ok none
read_recovery ledger point (some recovery) =
    check_recovery ledger point recovery
      (point_or_throw (uncompressed_point_from_spki (ledger.from_base64 recovery.public_key)))

abbrev pub with_recovery :
    Ledger
    → ProvisioningOptions
    → Option String
    → Bytes
    → Result ProvisioningError (Option (Recovery × Bytes))
    → Wallets
    → Outcome ProvisionedWallet × Wallets
with_recovery ledger options user point (err e) wallets = ((err e, []), wallets)
with_recovery ledger options user point (ok recovery) wallets =
    find_or_deploy ledger options (ledger.to_base64 point) user recovery
      (find_by_signer (ledger.to_base64 point) wallets) wallets

abbrev pub with_point :
    Ledger
    → ProvisioningOptions
    → Option String
    → Option Recovery
    → Result ProvisioningError Bytes
    → Wallets
    → Outcome ProvisionedWallet × Wallets
with_point ledger options user recovery (err e) wallets = ((err e, []), wallets)
with_point ledger options user recovery (ok point) wallets =
    with_recovery ledger options user point (read_recovery ledger point recovery) wallets

unfoldable pub provision :
    Ledger
    → ProvisioningOptions
    → String
    → Option String
    → Option Recovery
    → Wallets
    → Outcome ProvisionedWallet × Wallets
provision ledger options device_public_key user recovery wallets =
    let outcome =
      with_point ledger options user recovery
        (point_or_throw (uncompressed_point_from_spki (ledger.from_base64 device_public_key)))
        wallets in
    if is_enabled options then outcome else ((err provisioning_disabled, []), wallets)
