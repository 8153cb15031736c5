-- ===== src/Mobile/Session.antt =====
-- apps/mobile/src/state/appStore.ts: the session of the app, its actions, and what a stored session
-- is worth when the app starts again. Times that the store only keeps are texts.
pub mod Records
pub mod Restore
pub mod Consistency
mod Tests
use rosa_pay_application.Base.{
  ℕ, String, Bool, true, false, not, ◌&&◌, ◌||◌, Option, none, some, List, [], ◌∷◌, any, take,
  str_eq, if◌then◌else◌,
}
use rosa_pay_application.Protocol.Schema.{SignedPaymentIntentV1}
use rosa_pay_application.Mobile.Session.Records.{
  AppMode, customer, merchant, Account, MerchantProfile, SmartWallet, ApiSession, StellarAccount,
  PendingAnchorTransfer, LocalReceipt, RampActivity,
}

pub record AppState : Type 0 where
  pub hydrated : Bool
  pub mode : AppMode
  pub api_base_url : String
  pub display_currency : String
  pub language : String
  pub account : Option Account
  pub locked : Bool
  pub require_unlock : Bool
  pub merchant_profile : Option MerchantProfile
  pub merchant_registered_on_chain : Bool
  pub smart_wallet : Option SmartWallet
  pub api_session : Option ApiSession
  pub wallet : Option StellarAccount
  pub pending_anchor_transfer : Option PendingAnchorTransfer
  pub pending_request : Option SignedPaymentIntentV1
  pub receipts : List LocalReceipt
  pub ramp_activities : List RampActivity

abbrev pub max_persisted_receipts : ℕ
max_persisted_receipts = 25

abbrev pub is_some : {A : Type 0} → Option A → Bool
is_some none = false
is_some (some a) = true

-- The state before anything is read back; the default address is a constant of the build.
unfoldable pub initial : String → AppState
initial default_api_base_url = record {
  hydrated = false;
  mode = customer;
  api_base_url = default_api_base_url;
  display_currency = "TRY";
  language = "en";
  account = none;
  locked = false;
  require_unlock = false;
  merchant_profile = none;
  merchant_registered_on_chain = false;
  smart_wallet = none;
  api_session = none;
  wallet = none;
  pending_anchor_transfer = none;
  pending_request = none;
  receipts = [];
  ramp_activities = [];
}

-- Which of the native calls of `signOut` succeed.
pub record SignOutCalls : Type 0 where
  pub delete_identity : Bool
  pub clear_signing_key : Bool
  pub clear_bridge_key : Bool

-- The actions, with the arguments that a screen gives; `create_account` has the time of the call.
pub data Action : Type 0 where
  create_account : String → Option String → String → Action
  unlock lock : Action
  set_require_unlock : Bool → Action
  sign_out : SignOutCalls → Action
  set_mode : AppMode → Action
  set_api_base_url set_display_currency set_language : String → Action
  save_merchant_profile : MerchantProfile → Action
  set_merchant_registered_on_chain : Bool → Action
  set_smart_wallet : Option SmartWallet → Action
  set_api_session : Option ApiSession → Action
  set_wallet : Option StellarAccount → Action
  set_pending_anchor_transfer : Option PendingAnchorTransfer → Action
  set_pending_request : Option SignedPaymentIntentV1 → Action
  add_receipt : LocalReceipt → Action
  add_ramp_activity : RampActivity → Action

abbrev pub signed_out : AppState → AppState
signed_out s = record s {
  account = none;
  locked = false;
  mode = customer;
  merchant_profile = none;
  merchant_registered_on_chain = false;
  smart_wallet = none;
  api_session = none;
  wallet = none;
  pending_anchor_transfer = none;
  pending_request = none;
  receipts = [];
  ramp_activities = [];
}

-- The native calls come first: where one of those that are made fails, `signOut` throws before it
-- sets anything.
unfoldable pub sign_out_state : SignOutCalls → AppState → AppState
sign_out_state calls s =
    if (not (is_some s.smart_wallet) || calls.delete_identity)
      && (not (is_some s.wallet) || calls.clear_signing_key)
      && calls.clear_bridge_key
    then signed_out s
    else s

abbrev pub enter_mode : AppMode → AppState → AppState
enter_mode customer s = record s { mode = customer }
enter_mode merchant s = elim s.merchant_profile [
  | none ↦ s
  | some profile ↦ record s { mode = merchant }
]

unfoldable pub with_ramp_activity : RampActivity → List RampActivity → List RampActivity
with_ramp_activity activity activities =
    if any (λ existing. str_eq existing.id activity.id) activities
    then activities
    else take max_persisted_receipts (activity ∷ activities)

unfoldable pub act : Action → AppState → AppState
act (create_account name email now) s = record s {
  account = some (record { name = name; email = email; created_at = now });
  locked = false;
}
act unlock s = record s { locked = false }
act lock s = if is_some s.account && s.require_unlock then record s { locked = true } else s
act (set_require_unlock required) s = record s { require_unlock = required; locked = false }
act (sign_out calls) s = sign_out_state calls s
act (set_mode mode) s = enter_mode mode s
act (set_api_base_url url) s = record s { api_base_url = url }
act (set_display_currency currency) s = record s { display_currency = currency }
act (set_language language) s = record s { language = language }
act (save_merchant_profile profile) s = record s {
  merchant_profile = some profile;
  mode = merchant;
  merchant_registered_on_chain = false;
}
act (set_merchant_registered_on_chain registered) s = record s {
  merchant_registered_on_chain = registered;
}
act (set_smart_wallet wallet) s = record s { smart_wallet = wallet }
act (set_api_session session) s = record s { api_session = session }
act (set_wallet wallet) s = record s { wallet = wallet }
act (set_pending_anchor_transfer transfer) s = record s { pending_anchor_transfer = transfer }
act (set_pending_request request) s = record s { pending_request = request }
act (add_receipt receipt) s = record s {
  receipts = take max_persisted_receipts (receipt ∷ s.receipts);
}
act (add_ramp_activity activity) s = record s {
  ramp_activities = with_ramp_activity activity s.ramp_activities;
}

-- True once a session exists that a returning user should come back to.
unfoldable pub has_restorable_session : AppState → Bool
has_restorable_session s =
    is_some s.account
    || is_some s.smart_wallet
    || is_some s.wallet
    || is_some s.merchant_profile
    || elim s.receipts [ [] ↦ false | receipt ∷ rest ↦ true ]
