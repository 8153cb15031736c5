-- ===== src/Mobile/Session/Restore.antt =====
-- `dropUnusableSecrets`, `merge` and `onRehydrateStorage` of apps/mobile/src/state/appStore.ts.
use rosa_pay_application.Base.{
  ℕ, String, Bool, true, false, not, ◌&&◌, Option, none, some, List, [], ◌∷◌, all, take, keep,
  length, str_eq, if◌then◌else◌, leb, ◌==◌,
}
use rosa_pay_application.Base.Text.{codes, is_digit, is_empty}
use rosa_pay_application.Base.Pieces.{split}
use rosa_pay_application.Protocol.Schema.{SignedPaymentIntentV1}
use rosa_pay_application.Mobile.Session.{AppState, max_persisted_receipts, is_some}
use rosa_pay_application.Mobile.Session.Records.{
  AppMode, customer, Account, MerchantProfile, SmartWallet, ApiSession, StellarAccount,
  PendingAnchorTransfer, LocalReceipt, RampActivity, RampKind, RampAsset, AuthProtocol,
}

-- StrKey and `Date.parse`: whether a text is a contract's id, an account's key, a date.
pub record Checks : Type 0 where
  pub is_valid_contract : String → Bool
  pub is_valid_public_key : String → Bool
  pub is_date : String → Bool

-- What `partialize` stores and the storage gives back, a record that is not there or not of its
-- shape as `none`.
pub record Stored : Type 0 where
  pub account : Option Account
  pub require_unlock : Bool
  pub mode : AppMode
  pub api_base_url : String
  pub display_currency : String
  pub language : String
  pub merchant_profile : Option MerchantProfile
  pub merchant_registered_on_chain : Bool
  pub smart_wallet : Option SmartWallet
  pub api_session : Option ApiSession
  pub wallet : Option StellarAccount
  pub pending_anchor_transfer : Option PendingAnchorTransfer
  pub pending_request : Option SignedPaymentIntentV1
  pub receipts : List LocalReceipt
  pub ramp_activities : List RampActivity

unfoldable pub partialize : AppState → Stored
partialize s = record {
  account = s.account;
  require_unlock = s.require_unlock;
  mode = s.mode;
  api_base_url = s.api_base_url;
  display_currency = s.display_currency;
  language = s.language;
  merchant_profile = s.merchant_profile;
  merchant_registered_on_chain = s.merchant_registered_on_chain;
  smart_wallet = s.smart_wallet;
  api_session = s.api_session;
  wallet = s.wallet;
  pending_anchor_transfer = s.pending_anchor_transfer;
  pending_request = s.pending_request;
  receipts = s.receipts;
  ramp_activities = s.ramp_activities;
}

-- UTF-16 units in the code: the same number for the texts below, which are ASCII.
abbrev text_length : String → ℕ
text_length s = length (codes s)

abbrev pub is_signing_key : MerchantProfile → Bool
is_signing_key profile = length profile.development_signing_secret == 32

abbrev pub usable : {A : Type 0} → (A → Bool) → Option A → Option A
usable test none = none
usable test (some a) = if test a then some a else none

abbrev is_digits : List ℕ → Bool
is_digits [] = false
is_digits (c ∷ rest) = is_digit c && all is_digit rest

-- `/^\d+(\.\d+)?$/`
unfoldable pub is_decimal : String → Bool
is_decimal amount = elim (split b'.' amount) [
  | [] ↦ false
  | whole ∷ [] ↦ is_digits (codes whole)
  | whole ∷ fraction ∷ [] ↦ is_digits (codes whole) && is_digits (codes fraction)
  | whole ∷ fraction ∷ more ∷ rest ↦ false
]

abbrev pub fits_kind : RampKind → RampAsset → Bool
fits_kind RampKind.deposit RampAsset.try = true
fits_kind RampKind.deposit RampAsset.usdc = false
fits_kind RampKind.withdrawal RampAsset.try = false
fits_kind RampKind.withdrawal RampAsset.usdc = true

module _ (checks : Checks) where
  unfoldable pub is_api_session : ApiSession → Bool
  is_api_session session =
      leb 32 (text_length session.token)
      && leb 64 (text_length session.public_signer)
      && checks.is_date session.expires_at

  unfoldable pub is_smart_wallet : SmartWallet → Bool
  is_smart_wallet wallet =
      checks.is_valid_contract wallet.contract_id
      && leb 64 (text_length wallet.device_public_key)
      && leb (text_length wallet.device_public_key) 512

  unfoldable pub is_stellar_account : StellarAccount → Bool
  is_stellar_account account = checks.is_valid_public_key account.address

  abbrev pub account_matches : PendingAnchorTransfer → Bool
  account_matches transfer = elim transfer.auth_protocol [
    | AuthProtocol.sep_45 ↦ checks.is_valid_contract transfer.account
    | AuthProtocol.sep_10 ↦ checks.is_valid_public_key transfer.account
  ]

  unfoldable pub is_pending_anchor_transfer : PendingAnchorTransfer → Bool
  is_pending_anchor_transfer transfer =
      str_eq transfer.home_domain "testanchor.stellar.org"
      && not (is_empty transfer.transaction_id)
      && not (is_empty transfer.token)
      && account_matches transfer
      && str_eq transfer.asset_code "native"
      && checks.is_date transfer.started_at

  unfoldable pub is_ramp_activity : RampActivity → Bool
  unfolding is_decimal
  is_ramp_activity activity =
      not (is_empty activity.id)
      && is_decimal activity.amount
      && fits_kind activity.kind activity.asset_code
      && checks.is_date activity.created_at

  -- Without a usable profile nothing of the merchant's side is left.
  abbrev pub without_profile : Stored → Stored
  without_profile s = elim s.merchant_profile [
    | none ↦ record s {
      merchant_registered_on_chain = false;
      pending_request = none;
      mode = customer;
    }
    | some profile ↦ s
  ]

  unfoldable pub drop_unusable_secrets : Stored → Stored
  drop_unusable_secrets s = without_profile (record s {
    mode = customer;
    merchant_profile = usable is_signing_key s.merchant_profile;
    pending_anchor_transfer = usable is_pending_anchor_transfer s.pending_anchor_transfer;
    smart_wallet = usable is_smart_wallet s.smart_wallet;
    api_session = usable is_api_session s.api_session;
    wallet = usable is_stellar_account s.wallet;
    ramp_activities = take max_persisted_receipts (keep is_ramp_activity s.ramp_activities);
  })

  -- `merge`, then `onRehydrateStorage`: an owner who asked to be challenged is.
  unfoldable pub rehydrate : Stored → AppState → AppState
  rehydrate stored current =
      let s = drop_unusable_secrets stored in
      record {
        hydrated = true;
        mode = s.mode;
        api_base_url = s.api_base_url;
        display_currency = s.display_currency;
        language = s.language;
        account = s.account;
        locked = is_some s.account && s.require_unlock;
        require_unlock = s.require_unlock;
        merchant_profile = s.merchant_profile;
        merchant_registered_on_chain = s.merchant_registered_on_chain;
        smart_wallet = s.smart_wallet;
        api_session = s.api_session;
        wallet = s.wallet;
        pending_anchor_transfer = s.pending_anchor_transfer;
        pending_request = s.pending_request;
        receipts = s.receipts;
        ramp_activities = s.ramp_activities;
      }
