-- ===== src/Protocol/Schema.antt =====
-- packages/protocol/src/schema.ts: an RTP/1 payment request as `parse` leaves it, and the rules of its
-- asset. Parsing is the checks of the fields.
pub mod Parsing
use rosa_pay_application.Base.{
  ℕ, Bool, true, false, ◌||◌, not, Option, none, some, String, List, [], ◌∷◌, str_eq, if◌then◌else◌,
}

pub data Network : Type 0 where
  testnet pubnet : Network

abbrev pub network_eq : Network → Network → Bool
network_eq testnet testnet = true
network_eq pubnet pubnet = true
network_eq _ _ = false

pub data AssetType : Type 0 where
  native credit sac : AssetType

pub record PaymentAsset : Type 0 where
  pub type : AssetType
  pub code : String
  pub issuer : Option String
  pub contract_id : Option String
  pub decimals : ℕ

pub record PaymentIntentV1 : Type 0 where
  pub intent_id : String
  pub network : Network
  pub merchant_profile_id : String
  pub merchant_name : String
  pub merchant_signing_key : String
  pub recipient : String
  pub asset : PaymentAsset
  pub amount : String
  pub reference : String
  pub nonce : String
  pub expires_at_ledger : ℕ
  pub created_at : String

pub record SignedPaymentIntentV1 : Type 0 where
  pub intent : PaymentIntentV1
  pub signature : String

abbrev pub is_some : Option String → Bool
is_some none = false
is_some (some s) = not (str_eq s "")

pub data AssetIssue : Type 0 where
  native_must_be_xlm credit_needs_issuer sac_needs_contract : AssetIssue

-- The issues that `superRefine` adds to an asset; an empty text is falsy.
unfoldable pub asset_issues : PaymentAsset → List AssetIssue
asset_issues asset = elim asset.type [
  | native ↦
      if not (str_eq asset.code "XLM") || is_some asset.issuer || is_some asset.contract_id
      then native_must_be_xlm ∷ []
      else []
  | credit ↦ if is_some asset.issuer then [] else credit_needs_issuer ∷ []
  | sac ↦ if is_some asset.contract_id then [] else sac_needs_contract ∷ []
]
