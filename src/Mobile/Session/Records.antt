-- ===== src/Mobile/Session/Records.antt =====
-- The records that apps/mobile/src/state/appStore.ts keeps, and the merchant's profile.
use rosa_pay_application.Base.{ℕ, String, Bool, Option}
use rosa_pay_application.Domain.Payment.{PaymentStatus}
use rosa_pay_application.Protocol.Schema.{Network}
use rosa_pay_application.Signer.{Bytes}

pub data Origin : Type 0 where
  created imported : Origin

pub record StellarAccount : Type 0 where
  pub address : String
  pub origin : Origin
  pub funding_pending : Option Bool

pub record Recovery : Type 0 where
  pub credential_id : String
  pub public_key : String

pub record SmartWallet : Type 0 where
  pub contract_id : String
  pub device_public_key : String
  pub recovery : Option Recovery

pub record ApiSession : Type 0 where
  pub token : String
  pub expires_at : String
  pub public_signer : String

pub data AuthProtocol : Type 0 where
  sep_10 sep_45 : AuthProtocol

pub data TransferKind : Type 0 where
  deposit withdraw : TransferKind

pub record PendingAnchorTransfer : Type 0 where
  pub home_domain : String
  pub transaction_id : String
  pub token : String
  pub account : String
  pub auth_protocol : AuthProtocol
  pub kind : TransferKind
  pub asset_code : String
  pub started_at : String

pub data AppMode : Type 0 where
  customer merchant : AppMode

pub data PaymentTransport : Type 0 where
  qr nfc ble unknown : PaymentTransport

pub record LocalReceipt : Type 0 where
  pub intent_id : String
  pub merchant_name : String
  pub recipient : String
  pub amount : String
  pub asset_code : String
  pub network : Network
  pub payload_hash : String
  pub status : PaymentStatus
  pub transaction_hash : String
  pub created_at : String
  pub ledger : Option ℕ
  pub confirmed_at : Option String
  pub transport : Option PaymentTransport

pub data RampKind : Type 0 where
  deposit withdrawal : RampKind

pub data RampAsset : Type 0 where
  try usdc : RampAsset

pub record RampActivity : Type 0 where
  pub id : String
  pub kind : RampKind
  pub amount : String
  pub asset_code : RampAsset
  pub created_at : String

pub record Account : Type 0 where
  pub name : String
  pub email : Option String
  pub created_at : String

pub record MerchantProfile : Type 0 where
  pub merchant_profile_id : String
  pub display_name : String
  pub email : Option String
  pub recipient : String
  pub signing_key : String
  pub network : Network
  pub development_signing_secret : Bytes
