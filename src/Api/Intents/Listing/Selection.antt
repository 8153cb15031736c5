-- ===== src/Api/Intents/Listing/Selection.antt =====
-- Which requests a merchant's listing is made of.
use rosa_pay_application.Base.{
  ℕ, zero, suc, ◌≤◌, ◌≡◌, refl, ap, String, Bool, true, List, [], ◌∷◌, keep, take, length,
  length-take, arith, all, map,
}
use rosa_pay_application.Base.Dict.{values}
use rosa_pay_application.Api.Intents.Records.{StoredIntent}
use rosa_pay_application.Api.Intents.Store.{Repo}
use rosa_pay_application.Api.Intents.Listing.{
  is_of, insert_latest, latest_first, select_intents, list_merchant_payments,
}

all-keep : (p : StoredIntent → Bool) (l : List StoredIntent) → all p (keep p l) ≡ true
all-keep p [] = refl
all-keep p (a ∷ l) = ground (arith, all-keep p l)

all-take :
    (p : StoredIntent → Bool) (n : ℕ) (l : List StoredIntent)
    → all p l ≡ true
    → all p (take n l) ≡ true
all-take p zero l h = refl
all-take p (suc n) [] h = refl
all-take p (suc n) (a ∷ l) h = ground (arith, all-take p n l)

length-map : {A B : Type 0} (f : A → B) (l : List A) → length (map f l) ≡ length l
length-map f [] = refl
length-map f (a ∷ l) = ap suc (length-map f l)

module _ (later : String → String → Bool) where
  all-insert_latest :
      (p : StoredIntent → Bool) (a : StoredIntent) (l : List StoredIntent)
      → p a ≡ true
      → all p l ≡ true
      → all p (insert_latest later a l) ≡ true
  unfolding insert_latest
  all-insert_latest p a [] h k = ground arith
  all-insert_latest p a (b ∷ l) h k = ground (arith, all-insert_latest p a l)

  all-latest_first :
      (p : StoredIntent → Bool) (l : List StoredIntent)
      → all p l ≡ true
      → all p (latest_first later l) ≡ true
  unfolding latest_first
  all-latest_first p [] h = refl
  all-latest_first p (a ∷ l) h =
      all-insert_latest p a (latest_first later l) (ground arith)
        (all-latest_first p l (ground arith))

  -- A listing has at most as many payments as its limit, one for each request that is selected, and
  -- every one of those requests is this merchant's own.
  pub list_merchant_payments_bounded :
      (profile : String) (limit : ℕ) (r : Repo)
      → (length (list_merchant_payments later profile limit r) ≤ limit)
        × (length (list_merchant_payments later profile limit r)
            ≡ length (select_intents later profile limit r))
        × (all (is_of profile) (select_intents later profile limit r) ≡ true)
  unfolding list_merchant_payments select_intents
  list_merchant_payments_bounded profile limit r =
      let found = keep (is_of profile) (values r.by_id) in
      let listed = length-map _ (take limit (latest_first later found)) in
      (
        omega (arith, listed, length-take limit (latest_first later found)),
        listed,
        all-take (is_of profile) limit (latest_first later found)
            (all-latest_first (is_of profile) found (all-keep (is_of profile) (values r.by_id))),
      )
