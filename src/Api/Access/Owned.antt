-- ===== src/Api/Access/Owned.antt =====
-- What a caller who is let through owns.
use rosa_pay_application.Base.{
  ◌≡◌, sym, ap, subst, String, Bool, true, false, ◌||◌, Option, none, some, List, [], ◌∷◌, ok, inl,
  inr, any, keep, str_eq, eq_iff, guard, guard_ok, bind_ok, Bool-cases, arith,
}
use rosa_pay_application.Base.Dict.{values}
use rosa_pay_application.Protocol.Schema.{SignedPaymentIntentV1}
use rosa_pay_application.Api.Profiles.{MerchantProfile, Table, find_by_owner, option_eq}
use rosa_pay_application.Api.Access.{
  DeviceSession, capability_denied, is_merchant, profile_ids, resolve_principal, capabilities_of,
  authorize_merchant_intent,
}

-- The profile is in the list.
pub data In (profile : MerchantProfile) : List MerchantProfile → Type 0 where
  here : {rest : List MerchantProfile} → In profile (profile ∷ rest)
  there :
      {first : MerchantProfile} {rest : List MerchantProfile}
      → In profile rest
      → In profile (first ∷ rest)

any-keep :
    (id : String) (p : MerchantProfile → Bool) (profiles : List MerchantProfile)
    → any (str_eq id) (profile_ids (keep p profiles)) ≡ true
    → (profile : MerchantProfile) × (profile.id ≡ id) × (p profile ≡ true) × In profile profiles
any-keep id p [] h = ground arith
any-keep id p (profile ∷ rest) h = elim (Bool-cases (p profile)) [
  | inr dropped ↦ later (any-keep id p rest (subst (λ b. among b ≡ true) dropped h))
  | inl kept ↦ elim (Bool-cases (str_eq id profile.id)) [
    | inl same ↦ (profile, sym ((eq_iff id profile.id).0 same), kept, here)
    | inr other ↦ later (
        any-keep id p rest (
          subst (λ b. b || any (str_eq id) (profile_ids (keep p rest)) ≡ true) other
            (subst (λ b. among b ≡ true) kept h)))
  ]
]
  where
    among : Bool → Bool
    among b =
        any (str_eq id)
          (profile_ids (elim b [ true ↦ profile ∷ keep p rest | false ↦ keep p rest ]))

    later :
        (q : MerchantProfile) × (q.id ≡ id) × (p q ≡ true) × In q rest
        → (q : MerchantProfile) × (q.id ≡ id) × (p q ≡ true) × In q (profile ∷ rest)
    later (q, named, chosen, place) = (q, named, chosen, there place)

owner-is :
    (owner : Option String) (user : String) → option_eq owner (some user) ≡ true → owner ≡ some user
owner-is none user h = ground arith
owner-is (some u) user h = ap some ((eq_iff u user).0 h)

-- A signed-in device can put in a payment request only for a merchant profile that is in the table under
-- its own user.
pub authorize_merchant_intent-owned :
    (required : Bool) (session : DeviceSession) (t : Table) (wallet : Option String)
    (payload authorized : SignedPaymentIntentV1)
    → authorize_merchant_intent required (resolve_principal (some session) t wallet) payload
      ≡ ok authorized
    → (authorized ≡ payload)
      × ((profile : MerchantProfile) × (profile.id ≡ payload.intent.merchant_profile_id)
          × (profile.user_id ≡ some session.user_id)
          × In profile (values t))
unfolding authorize_merchant_intent resolve_principal find_by_owner
authorize_merchant_intent-owned required session t wallet payload authorized h =
    let mine : MerchantProfile → Bool = λ p. option_eq p.user_id (some session.user_id) in
    let profiles = keep mine (values t) in
    let id = payload.intent.merchant_profile_id in
    let (u, merchant, rest) =
      bind_ok (guard (is_merchant (capabilities_of profiles)) capability_denied) _ authorized h in
    let (v, listed, returned) =
      bind_ok (guard (any (str_eq id) (profile_ids profiles)) capability_denied) _ authorized
        rest in
    let (profile, named, owned, place) =
      any-keep id mine (values t)
        (guard_ok (any (str_eq id) (profile_ids profiles)) capability_denied v listed) in
    (ground arith, (profile, named, owner-is profile.user_id session.user_id owned, place))
