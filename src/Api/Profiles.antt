-- ===== src/Api/Profiles.antt =====
-- apps/api/src/application/MerchantProfileService.ts over the two repositories of
-- apps/api/src/infrastructure. What other requests write between the read and the write of `create` is
-- an argument, and so is the address check of the Stellar SDK; the input is what `zod` has parsed.
pub mod Lasting
mod Tests
use rosa_pay_application.Base.{
  ℕ, String, Bool, true, false, not, ◌&&◌, ◌||◌, Option, none, some, List, [], ◌∷◌, Result, ok, err,
  ◌==◌, str_eq, keep, if◌then◌else◌,
}
use rosa_pay_application.Base.Dict.{Dict, get, put, values}
use rosa_pay_application.Base.Text.{codes}
use rosa_pay_application.Protocol.Schema.{Network, network_eq, is_some}

pub record MerchantProfile : Type 0 where
  pub id : String
  pub user_id : Option String
  pub display_name : String
  pub email : Option String
  pub recipient : String
  pub signing_key : String
  pub network : Network

pub record CreateMerchantProfileInput : Type 0 where
  pub id : String
  pub display_name : String
  pub email : String
  pub recipient : String
  pub signing_key : String
  pub network : Network

pub data ProfileError : Type 0 where
  invalid_input conflict not_found : ProfileError

abbrev pub Table : Type 0
Table = Dict MerchantProfile

-- `InMemoryMerchantProfileRepository.save`
unfoldable pub save_in_memory : MerchantProfile → Table → Table
save_in_memory profile t = put profile.id profile t

abbrev pub save_over : Option MerchantProfile → MerchantProfile → Table → Table
save_over none profile t = put profile.id profile t
save_over (some row) profile t = elim row.email [
  | none ↦ put profile.id (record row { email = profile.email }) t
  | some email ↦ t
]

-- `PostgresMerchantProfileRepository.save`: an INSERT that, on a conflict, fills in an email that is
-- NULL and changes nothing else.
unfoldable pub save_in_postgres : MerchantProfile → Table → Table
save_in_postgres profile t = save_over (get profile.id t) profile t

abbrev pub option_eq : Option String → Option String → Bool
option_eq none none = true
option_eq (some a) (some b) = str_eq a b
option_eq none (some b) = false
option_eq (some a) none = false

-- `existing.email !== undefined && existing.email !== parsed.email`
abbrev pub other_email : Option String → String → Bool
other_email none email = false
other_email (some kept) email = not (str_eq kept email)

unfoldable pub differs : MerchantProfile → CreateMerchantProfileInput → Option String → Bool
differs existing input user =
    not (str_eq existing.display_name input.display_name)
    || other_email existing.email input.email
    || not (str_eq existing.recipient input.recipient)
    || not (str_eq existing.signing_key input.signing_key)
    || not (network_eq existing.network input.network)
    || not (option_eq existing.user_id user)

abbrev pub starts_with_g : List ℕ → Bool
starts_with_g [] = false
starts_with_g (c ∷ rest) = c == b'G'

abbrev pub fresh_profile : CreateMerchantProfileInput → Option String → MerchantProfile
fresh_profile input user = record {
  id = input.id;
  user_id = user;
  display_name = input.display_name;
  email = some input.email;
  recipient = input.recipient;
  signing_key = input.signing_key;
  network = input.network;
}

module _ (save : MerchantProfile → Table → Table) (between : Table → Table) where
  -- What follows the look for a profile of that identifier.
  unfoldable pub create_over :
      Option MerchantProfile
      → CreateMerchantProfileInput
      → Option String
      → Table
      → Result ProfileError MerchantProfile × Table
  create_over none input user t =
      let profile = fresh_profile input user in (ok profile, save profile (between t))
  create_over (some existing) input user t =
      let completed = record existing { email = some input.email } in
      if differs existing input user
      then (err conflict, t)
      else if not (is_some existing.email)
      then (ok completed, save completed (between t))
      else (ok existing, t)

  unfoldable pub create :
      (String → Bool)
      → CreateMerchantProfileInput
      → Option String
      → Table
      → Result ProfileError MerchantProfile × Table
  create is_valid_stellar_address input user t =
      let outcome = create_over (get input.id t) input user t in
      if not (is_valid_stellar_address input.recipient)
      then (err invalid_input, t)
      else if not (is_valid_stellar_address input.signing_key)
          || not (starts_with_g (codes input.signing_key))
      then (err invalid_input, t)
      else outcome

abbrev pub found_or_throw : Option MerchantProfile → Result ProfileError MerchantProfile
found_or_throw none = err not_found
found_or_throw (some profile) = ok profile

unfoldable pub get_profile : String → Table → Result ProfileError MerchantProfile
get_profile id t = found_or_throw (get id t)

-- `findByOwner` of the repository in memory.
unfoldable pub find_by_owner : String → Table → List MerchantProfile
find_by_owner user t = keep (λ profile. option_eq profile.user_id (some user)) (values t)
