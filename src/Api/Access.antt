-- ===== src/Api/Access.antt =====
-- apps/api/src/application/AuthContext.ts: who calls, and what the caller may do. What `options.resolve`
-- comes to for a request is an argument.
pub mod Owned
mod Tests
use rosa_pay_application.Base.{
  String, Bool, true, false, not, ◌&&◌, Option, none, some, List, [], ◌∷◌, Result, ok, err, any,
  str_eq, map, guard, ◌>>=◌, ◌>>◌, if◌then◌else◌,
}
use rosa_pay_application.Protocol.Schema.{SignedPaymentIntentV1}
use rosa_pay_application.Api.Profiles.{MerchantProfile, Table, find_by_owner, option_eq}

pub data ApiCapability : Type 0 where
  customer merchant : ApiCapability

pub record ApiPrincipal : Type 0 where
  pub user_id : String
  pub capabilities : List ApiCapability
  pub merchant_profile_ids : Option (List String)
  pub public_signer : Option String
  pub wallet_contract_id : Option String

pub data AccessError : Type 0 where
  authentication_required capability_denied : AccessError

-- What `createDeviceAuthResolver` reads: a verified session, and the address of the signer's wallet.
pub record DeviceSession : Type 0 where
  pub user_id : String
  pub public_signer : String

abbrev pub capabilities_of : List MerchantProfile → List ApiCapability
capabilities_of [] = customer ∷ []
capabilities_of (profile ∷ rest) = customer ∷ merchant ∷ []

abbrev pub profile_ids : List MerchantProfile → List String
profile_ids profiles = map (λ profile. profile.id) profiles

-- `none` is a request without a bearer token, or with one that is not a session.
unfoldable pub resolve_principal :
    Option DeviceSession → Table → Option String → Option ApiPrincipal
resolve_principal none t wallet = none
resolve_principal (some session) t wallet =
    let profiles = find_by_owner session.user_id t in
    some (record {
      user_id = session.user_id;
      capabilities = capabilities_of profiles;
      merchant_profile_ids = some (profile_ids profiles);
      public_signer = some session.public_signer;
      wallet_contract_id = wallet;
    })

abbrev pub is_merchant : List ApiCapability → Bool
is_merchant [] = false
is_merchant (customer ∷ rest) = is_merchant rest
is_merchant (merchant ∷ rest) = true

-- `principal?.walletContractId && principal.walletContractId !== address`
abbrev pub other_wallet : Option String → String → Bool
other_wallet none address = false
other_wallet (some wallet) address = not (str_eq wallet "") && not (str_eq wallet address)

unfoldable pub assert_wallet_ownership :
    Option ApiPrincipal → String → Result AccessError (Unit {0})
assert_wallet_ownership none address = ok tt
assert_wallet_ownership (some principal) address =
    guard (not (other_wallet principal.wallet_contract_id address)) capability_denied

unfoldable pub require_authenticated_principal :
    Bool → Option ApiPrincipal → Result AccessError (Option ApiPrincipal)
require_authenticated_principal required none =
    if required then err authentication_required else ok none
require_authenticated_principal required (some principal) = ok (some principal)

unfoldable pub require_merchant_principal :
    Bool → Option ApiPrincipal → Result AccessError (Option ApiPrincipal)
require_merchant_principal required none = if required then err authentication_required else ok none
require_merchant_principal required (some principal) =
    if is_merchant principal.capabilities then ok (some principal) else err capability_denied

unfoldable pub assert_resource_ownership :
    Option ApiPrincipal → Option String → Result AccessError (Unit {0})
assert_resource_ownership none owner = ok tt
assert_resource_ownership (some principal) owner =
    guard (option_eq owner (some principal.user_id)) capability_denied

-- `principal.merchantProfileIds?.includes(id)`
abbrev pub includes : Option (List String) → String → Bool
includes none id = false
includes (some ids) id = any (str_eq id) ids

-- What follows the parsing of the request.
unfoldable pub authorize_merchant_intent :
    Bool → Option ApiPrincipal → SignedPaymentIntentV1 → Result AccessError SignedPaymentIntentV1
authorize_merchant_intent required none payload =
    if required then err authentication_required else ok payload
authorize_merchant_intent required (some principal) payload =
    guard (is_merchant principal.capabilities) capability_denied
    >> (guard (includes principal.merchant_profile_ids payload.intent.merchant_profile_id)
          capability_denied
        >> ok payload)
