-- ===== src/Mobile/Session/Consistency.antt =====
-- What every session of appStore.ts keeps to.
use rosa_pay_application.Base.{
  ℕ, ◌≡◌, refl, String, Bool, true, false, not, ◌&&◌, ◌||◌, List, [], ◌∷◌, any, take, keep, length,
  str_eq, arith, length-take, suc, zero, ◌≤◌, Bool-cases, Option-cases, inl, inr,
}
use rosa_pay_application.Mobile.Session.{
  AppState, Action, act, initial, sign_out_state, with_ramp_activity, is_some,
}
use rosa_pay_application.Mobile.Session.Records.{AppMode, customer, merchant, RampActivity}
use rosa_pay_application.Mobile.Session.Restore.{
  Checks, Stored, usable, is_signing_key, is_ramp_activity, partialize, rehydrate,
  drop_unusable_secrets,
}

abbrev pub has_id : String → RampActivity → Bool
has_id id existing = str_eq existing.id id

-- No id twice.
unfoldable pub distinct : List RampActivity → Bool
distinct [] = true
distinct (activity ∷ rest) = not (any (has_id activity.id) rest) && distinct rest

abbrev pub mode_fits : AppMode → Bool → Bool
mode_fits customer has_profile = true
mode_fits merchant has_profile = has_profile

-- A merchant has a profile, who is locked out has an account and asked for it, and both lists are
-- bounded, with no ramp activity twice.
pub record IsConsistent (s : AppState) : Type 0 where
  pub merchant_has_profile : mode_fits s.mode (is_some s.merchant_profile) ≡ true
  pub locked_on_request : (not s.locked || (is_some s.account && s.require_unlock)) ≡ true
  pub receipts_bounded : length s.receipts ≤ 25
  pub ramps_bounded : length s.ramp_activities ≤ 25
  pub ramps_distinct : distinct s.ramp_activities ≡ true

any-take :
    (p : RampActivity → Bool) (n : ℕ) (l : List RampActivity)
    → any p l ≡ false
    → any p (take n l) ≡ false
any-take p zero l h = refl
any-take p (suc n) [] h = refl
any-take p (suc n) (a ∷ l) h = ground (arith, any-take p n l)

distinct-take : (n : ℕ) (l : List RampActivity) → distinct l ≡ true → distinct (take n l) ≡ true
unfolding distinct
distinct-take zero l h = refl
distinct-take (suc n) [] h = refl
distinct-take (suc n) (a ∷ l) h = ground (arith, distinct-take n l, any-take (has_id a.id) n l)

any-keep :
    (p q : RampActivity → Bool) (l : List RampActivity) → any p l ≡ false → any p (keep q l) ≡ false
any-keep p q [] h = refl
any-keep p q (a ∷ l) h = ground (arith, any-keep p q l)

distinct-keep :
    (q : RampActivity → Bool) (l : List RampActivity)
    → distinct l ≡ true
    → distinct (keep q l) ≡ true
unfolding distinct
distinct-keep q [] h = refl
distinct-keep q (a ∷ l) h = ground (arith, distinct-keep q l, any-keep (has_id a.id) q l)

take_25 : {A : Type 0} (l : List A) → length (take 25 l) ≤ 25
take_25 l = omega (arith, length-take 25 l)

with_ramp_activity-distinct :
    (activity : RampActivity) (l : List RampActivity)
    → distinct l ≡ true
    → distinct (with_ramp_activity activity l) ≡ true
unfolding with_ramp_activity distinct
with_ramp_activity-distinct activity l h = elim (Bool-cases (any (has_id activity.id) l)) [
  | inl known ↦ rw known h
  | inr fresh ↦ rw fresh (distinct-take 25 (activity ∷ l) (ground arith))
]

with_ramp_activity-bounded :
    (activity : RampActivity) (l : List RampActivity)
    → length l ≤ 25
    → length (with_ramp_activity activity l) ≤ 25
unfolding with_ramp_activity
with_ramp_activity-bounded activity l h = elim (Bool-cases (any (has_id activity.id) l)) [
  | inl known ↦ rw known h
  | inr fresh ↦ rw fresh (take_25 (activity ∷ l))
]

pub initial-IsConsistent : (url : String) → IsConsistent (initial url)
unfolding initial distinct
initial-IsConsistent url = record {
  merchant_has_profile = refl;
  locked_on_request = refl;
  receipts_bounded = omega arith;
  ramps_bounded = omega arith;
  ramps_distinct = refl;
}

-- Every action keeps a session consistent: a merchant has a profile, a locked session has an
-- account whose owner asked for the lock, receipts and ramp activities are at most 25 each, and no
-- ramp activity is kept twice.
pub act-IsConsistent : (a : Action) (s : AppState) → IsConsistent s → IsConsistent (act a s)
unfolding act sign_out_state distinct
act-IsConsistent a s h = record {
  merchant_has_profile = mode_kept a s h.merchant_has_profile;
  locked_on_request = lock_kept a s h.locked_on_request;
  receipts_bounded = receipts_kept a s h.receipts_bounded;
  ramps_bounded = ramps_kept a s h.ramps_bounded;
  ramps_distinct = distinct_kept a s h.ramps_distinct;
}
  where
    mode_kept :
        (a : Action) (s : AppState)
        → mode_fits s.mode (is_some s.merchant_profile) ≡ true
        → mode_fits (act a s).mode (is_some (act a s).merchant_profile) ≡ true
    mode_kept a s h = ground arith

    lock_kept :
        (a : Action) (s : AppState)
        → (not s.locked || (is_some s.account && s.require_unlock)) ≡ true
        → (not (act a s).locked || (is_some (act a s).account && (act a s).require_unlock)) ≡ true
    lock_kept a s h = ground arith

    receipts_kept :
        (a : Action) (s : AppState) → length s.receipts ≤ 25 → length (act a s).receipts ≤ 25
    receipts_kept a s h = ground arith

    ramps_kept :
        (a : Action) (s : AppState)
        → length s.ramp_activities ≤ 25
        → length (act a s).ramp_activities ≤ 25
    ramps_kept a s h = grind (arith, with_ramp_activity-bounded)

    distinct_kept :
        (a : Action) (s : AppState)
        → distinct s.ramp_activities ≡ true
        → distinct (act a s).ramp_activities ≡ true
    distinct_kept a s h = grind (arith, with_ramp_activity-distinct)

drop_unusable_secrets-keeps :
    (checks : Checks) (stored : Stored)
    → ((drop_unusable_secrets checks stored).mode ≡ customer)
      × ((drop_unusable_secrets checks stored).receipts ≡ stored.receipts)
      × ((drop_unusable_secrets checks stored).ramp_activities
          ≡ take 25 (keep (is_ramp_activity checks) stored.ramp_activities))
unfolding drop_unusable_secrets
drop_unusable_secrets-keeps checks stored =
    elim (Option-cases (usable is_signing_key stored.merchant_profile)) [
      | inl gone ↦ rw (gone, drop_unusable_secrets) (refl, refl, refl)
      | inr (profile, found) ↦ rw (found, drop_unusable_secrets) (refl, refl, refl)
    ]

-- A session that is stored and read back is consistent, whatever state it is merged into, if the
-- stored one was; its mode is a customer's.
pub rehydrate-IsConsistent :
    (checks : Checks) (s current : AppState)
    → IsConsistent s
    → IsConsistent (rehydrate checks (partialize s) current)
      × ((rehydrate checks (partialize s) current).mode ≡ customer)
unfolding rehydrate partialize
rehydrate-IsConsistent checks s current h =
    let (in_mode, same_receipts, of_ramps) = drop_unusable_secrets-keeps checks (partialize s) in
    (
      record {
        merchant_has_profile = rw in_mode refl;
        locked_on_request = ground arith;
        receipts_bounded = rw same_receipts h.receipts_bounded;
        ramps_bounded = rw of_ramps (take_25 (keep (is_ramp_activity checks) s.ramp_activities));
        ramps_distinct = rw of_ramps (
            distinct-take 25 (keep (is_ramp_activity checks) s.ramp_activities)
              (distinct-keep (is_ramp_activity checks) s.ramp_activities h.ramps_distinct));
      },
      in_mode,
    )
