-- ===== src/Api/Wallets/Kept.antt =====
-- No call for a wallet takes another key's wallet away.
use rosa_pay_application.Base.{
  ◌≡◌, refl, ◌∙◌, String, not, ◌&&◌, Option, none, some, Result, ok, err, str_eq, Bool-cases, inl,
  inr,
}
use rosa_pay_application.Base.Dict.{get, put, get-put}
use rosa_pay_application.Signer.{Bytes, uncompressed_point_from_spki}
use rosa_pay_application.Api.Wallets.{
  Recovery, WalletRecord, Wallets, find_by_signer, save_wallet, ProvisioningError,
  ProvisioningOptions, Ledger, reuse, other_owner, is_truthy, finish, fund, given_or,
  after_deployment, find_or_deploy, read_recovery, with_recovery, with_point, point_or_throw,
  is_enabled, provision,
}

-- Every key that has a wallet has one afterwards.
abbrev pub Keeps : (Wallets → Wallets) → Type 0
Keeps f =
    (k : String) (m : Wallets) (w : WalletRecord)
    → get k m ≡ some w
    → (w' : WalletRecord) × (get k (f m) ≡ some w')

-- The wallet that a write under some key leaves under a key that had one.
get-put-some :
    (k j : String) (v : WalletRecord) (m : Wallets) (w : WalletRecord)
    → get j m ≡ some w
    → (w' : WalletRecord) × (get j (put k v m) ≡ some w')
get-put-some k j v m w h = elim (Bool-cases (str_eq k j)) [
  | inl same ↦ (v, get-put k j v m ∙ rw same refl)
  | inr other ↦ (w, get-put k j v m ∙ rw other h)
]

pub reuse-Keeps :
    (existing : WalletRecord) (signer : String) (user : Option String)
    → Keeps (λ wallets. (reuse existing signer user wallets).1)
unfolding reuse save_wallet
reuse-Keeps existing signer user k wallets w h =
    elim (Bool-cases (other_owner user existing.user_id)) [
      | inl other ↦ rw other (w, h)
      | inr mine ↦ elim (Bool-cases (is_truthy user && not (is_truthy existing.user_id))) [
        | inl claims ↦ rw mine (
            rw claims (
              get-put-some existing.public_signer k (record existing { user_id = user }) wallets w
                h))
        | inr leaves ↦ rw mine (rw leaves (w, h))
      ]
    ]

module _ (ledger : Ledger) (options : ProvisioningOptions) (others : Keeps ledger.meanwhile) where
  deployment-Keeps :
      (signer : String) (user : Option String) (recovery : Option (Recovery × Bytes))
      (result : Option (String × String))
      → Keeps (λ wallets. (after_deployment ledger options signer user recovery result wallets).1)
  unfolding finish save_wallet
  deployment-Keeps signer user recovery none k m w h = (w, h)
  deployment-Keeps signer user recovery (some result) k m w h =
      let amount = given_or "25" options.funding_amount in
      elim (Bool-cases (not (ledger.is_valid_contract result.1))) [
        | inl bad ↦ rw bad (w, h)
        | inr valid ↦ elim (Bool-cases (fund ledger result.1 amount options.native_contract_id).0) [
          | inl funded ↦ rw valid (rw funded (get-put-some signer k _ m w h))
          | inr unfunded ↦ rw valid (rw unfunded (w, h))
        ]
      ]

  found-Keeps :
      (signer : String) (user : Option String) (recovery : Option (Recovery × Bytes))
      (existing : Option WalletRecord)
      → Keeps (λ wallets. (find_or_deploy ledger options signer user recovery existing wallets).1)
  found-Keeps signer user recovery none k m w h =
      let (v, kept) = others k m w h in
      deployment-Keeps signer user recovery ledger.deploy k (ledger.meanwhile m) v kept
  found-Keeps signer user recovery (some existing) k m w h =
      let (v, kept) = others k m w h in
      reuse-Keeps existing signer user k (ledger.meanwhile m) v kept

  recovery-Keeps :
      (user : Option String) (point : Bytes)
      (recovery : Result ProvisioningError (Option (Recovery × Bytes)))
      → Keeps (λ wallets. (with_recovery ledger options user point recovery wallets).1)
  unfolding find_by_signer
  recovery-Keeps user point (err e) k m w h = (w, h)
  recovery-Keeps user point (ok recovery) k m w h =
      found-Keeps (ledger.to_base64 point) user recovery (get (ledger.to_base64 point) m) k m w h

  point-Keeps :
      (user : Option String) (recovery : Option Recovery) (point : Result ProvisioningError Bytes)
      → Keeps (λ wallets. (with_point ledger options user recovery point wallets).1)
  point-Keeps user recovery (err e) k m w h = (w, h)
  point-Keeps user recovery (ok point) k m w h =
      recovery-Keeps user point (read_recovery ledger point recovery) k m w h

  pub provision-Keeps :
      (device_public_key : String) (user : Option String) (recovery : Option Recovery)
      → Keeps (λ wallets. (provision ledger options device_public_key user recovery wallets).1)
  unfolding provision
  provision-Keeps device_public_key user recovery k m w h = elim (Bool-cases (is_enabled options)) [
    | inr off ↦ rw off (w, h)
    | inl on ↦ rw on (
        point-Keeps user recovery
          (point_or_throw (uncompressed_point_from_spki (ledger.from_base64 device_public_key))) k m
          w h)
  ]
