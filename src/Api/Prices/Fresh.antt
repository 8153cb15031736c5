-- ===== src/Api/Prices/Fresh.antt =====
-- Where the rates that are served come from.
use rosa_pay_application.Base.{
  ℕ, ◌-◌, ◌<◌, ◌≡◌, refl, sym, ap, ◌∙◌, String, Option, none, some, List, [], ◌∷◌, ◌⊎◌, str_eq,
  if◌then◌else◌, arith,
}
use rosa_pay_application.Base.Dict.{Dict, get, get-put, get-delete}
use rosa_pay_application.Api.Prices.{
  AssetRate, CacheEntry, PriceState, cached, fresh_rates, join_or_start, serve, rates_for, Answer,
  answered, failed, keep_rates, finish_read,
}

-- What happens at the service: a caller asks, or a read ends.
pub data Event : Type 0 where
  asked : String → ℕ → Event
  ended : String → Answer → Event

unfoldable pub after : ℕ → Event → PriceState → PriceState
after cache_ms (asked asset now) s = (rates_for cache_ms asset now s).1
after cache_ms (ended asset answer) s = finish_read asset answer s

-- The state after events, the last one first.
unfoldable pub run : ℕ → List Event → PriceState
run cache_ms [] = record { cache = []; in_flight = [] }
run cache_ms (event ∷ earlier) = after cache_ms event (run cache_ms earlier)

abbrev pub or_earlier : String → List AssetRate → ℕ → Option CacheEntry → Option CacheEntry
or_earlier asset [] now earlier = earlier
or_earlier asset (rate ∷ rest) now earlier = some (record { rates = rate ∷ rest; read_at = now })

-- The last answer for an asset that had rates, unless a read of it has failed since.
unfoldable pub last_answer : String → List Event → Option CacheEntry
last_answer asset [] = none
last_answer asset (asked other now ∷ earlier) = last_answer asset earlier
last_answer asset (ended other (answered rates now) ∷ earlier) =
    let before = last_answer asset earlier in
    if str_eq other asset then or_earlier asset rates now before else before
last_answer asset (ended other failed ∷ earlier) =
    let before = last_answer asset earlier in if str_eq other asset then none else before

asked-cache :
    (cache_ms : ℕ) (asset : String) (now : ℕ) (s : PriceState)
    → ((rates_for cache_ms asset now s).1).cache ≡ s.cache
unfolding rates_for
asked-cache cache_ms asset now s = served (fresh_rates cache_ms now (get asset s.cache))
  where
    waiting : (o : Option (Unit {0})) → ((join_or_start asset o s).1).cache ≡ s.cache
    waiting none = refl
    waiting (some u) = refl

    served : (o : Option (List AssetRate)) → ((serve asset o s).1).cache ≡ s.cache
    served (some rates) = refl
    served none = waiting (get asset s.in_flight)

kept-rates :
    (asset other : String) (rates : List AssetRate) (now : ℕ) (cache : Dict CacheEntry)
    → get asset (keep_rates other rates now cache) ≡ (
        if str_eq other asset
        then or_earlier asset rates now (get asset cache)
        else get asset cache)
kept-rates asset other [] now cache = ground arith
kept-rates asset other (rate ∷ rest) now cache =
    get-put other asset (record { rates = rate ∷ rest; read_at = now }) cache

-- Whatever has been asked and answered, in whatever order, the cache holds for an asset just the last
-- answer with rates, if no read of the asset has failed since.
pub run-last_answer :
    (cache_ms : ℕ) (asset : String) (events : List Event)
    → get asset (run cache_ms events).cache ≡ last_answer asset events
unfolding run after last_answer finish_read
run-last_answer cache_ms asset [] = unfold get in refl
run-last_answer cache_ms asset (asked other now ∷ earlier) =
    ap (get asset) (asked-cache cache_ms other now (run cache_ms earlier))
    ∙ run-last_answer cache_ms asset earlier
run-last_answer cache_ms asset (ended other (answered rates now) ∷ earlier) =
    kept-rates asset other rates now (run cache_ms earlier).cache
    ∙ ap (λ o. if str_eq other asset then or_earlier asset rates now o else o)
        (run-last_answer cache_ms asset earlier)
run-last_answer cache_ms asset (ended other failed ∷ earlier) =
    get-delete other asset (run cache_ms earlier).cache
    ∙ ap (λ o. if str_eq other asset then none else o) (run-last_answer cache_ms asset earlier)

fresh-some :
    (cache_ms now : ℕ) (o : Option CacheEntry) (rates : List AssetRate)
    → fresh_rates cache_ms now o ≡ some rates
    → (entry : CacheEntry) × (o ≡ some entry)
      × (entry.rates ≡ rates)
      × ((now < entry.read_at) ⊎ (now - entry.read_at < cache_ms))
fresh-some cache_ms now none rates h = ground arith
fresh-some cache_ms now (some entry) rates h = (entry, refl, ground arith, ground arith)

served-cached :
    (asset : String) (o : Option (List AssetRate)) (s : PriceState) (rates : List AssetRate)
    → (serve asset o s).0 ≡ cached rates
    → o ≡ some rates
served-cached asset (some kept) s rates h = ground arith
served-cached asset none s rates h = waiting (get asset s.in_flight) h
  where
    waiting :
        (p : Option (Unit {0})) → (join_or_start asset p s).0 ≡ cached rates → none ≡ some rates
    waiting none k = ground arith
    waiting (some u) k = ground arith

-- Rates that are served without a read are the last answer for that asset with any rates in it, no read
-- of the asset has failed since, and that answer is younger than the time rates are kept for.
pub rates_for-fresh :
    (cache_ms : ℕ) (asset : String) (now : ℕ) (events : List Event) (rates : List AssetRate)
    → (rates_for cache_ms asset now (run cache_ms events)).0 ≡ cached rates
    → (entry : CacheEntry) × (last_answer asset events ≡ some entry)
      × (entry.rates ≡ rates)
      × ((now < entry.read_at) ⊎ (now - entry.read_at < cache_ms))
unfolding rates_for
rates_for-fresh cache_ms asset now events rates h =
    let s = run cache_ms events in
    let (entry, held, same, young) =
      fresh-some cache_ms now (get asset s.cache) rates
        (served-cached asset (fresh_rates cache_ms now (get asset s.cache)) s rates h) in
    (entry, sym (run-last_answer cache_ms asset events) ∙ held, same, young)
