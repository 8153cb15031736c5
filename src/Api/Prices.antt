-- ===== src/Api/Prices.antt =====
-- apps/api/src/application/PriceService.ts. A rate read goes out at one time and comes back at another,
-- so asking and answering are two steps; `Number(...)` of a text is an argument.
pub mod Fresh
mod Tests
use rosa_pay_application.Base.{
  ℕ, ◌-◌, String, Bool, true, false, not, ◌&&◌, ◌||◌, Option, none, some, List, [], ◌∷◌, ◌++◌,
  Result, ok, err, any, keep, ltb, length, ◌==◌, str_eq, if◌then◌else◌,
}
use rosa_pay_application.Base.Dict.{Dict, get, put, delete}

pub record AssetRate : Type 0 where
  pub asset : String
  pub price : String
  pub decimals : ℕ

pub record CacheEntry : Type 0 where
  pub rates : List AssetRate
  pub read_at : ℕ

pub record PriceOptions : Type 0 where
  pub sell_assets : List String
  pub buy_assets : List String
  pub cache_ms : ℕ

-- The two maps: what has been read, and which reads are under way.
pub record PriceState : Type 0 where
  pub cache : Dict CacheEntry
  pub in_flight : Dict (Unit {0})

-- What a caller of `ratesFor` is given: rates from the cache, a place at a read that is under way, or a
-- read that is started for it.
pub data Reading : Type 0 where
  cached : List AssetRate → Reading
  joined started : Reading

-- `cached && now - cached.readAt < cacheMs`; a time before the read counts as fresh.
abbrev pub fresh_rates : ℕ → ℕ → Option CacheEntry → Option (List AssetRate)
fresh_rates cache_ms now none = none
fresh_rates cache_ms now (some entry) =
    if ltb now entry.read_at || ltb (now - entry.read_at) cache_ms then some entry.rates else none

abbrev pub join_or_start : String → Option (Unit {0}) → PriceState → Reading × PriceState
join_or_start asset (some pending) s = (joined, s)
join_or_start asset none s = (started, record s { in_flight = put asset tt s.in_flight })

abbrev pub serve : String → Option (List AssetRate) → PriceState → Reading × PriceState
serve asset (some rates) s = (cached rates, s)
serve asset none s = join_or_start asset (get asset s.in_flight) s

unfoldable pub rates_for : ℕ → String → ℕ → PriceState → Reading × PriceState
rates_for cache_ms asset now s = serve asset (fresh_rates cache_ms now (get asset s.cache)) s

-- What the provider's promise comes to, and when.
pub data Answer : Type 0 where
  answered : List AssetRate → ℕ → Answer
  failed : Answer

abbrev pub keep_rates : String → List AssetRate → ℕ → Dict CacheEntry → Dict CacheEntry
keep_rates asset [] now cache = cache
keep_rates asset (rate ∷ rest) now cache =
    put asset (record { rates = rate ∷ rest; read_at = now }) cache

-- The end of a read: an empty answer is not kept, a failure drops what was kept.
unfoldable pub finish_read : String → Answer → PriceState → PriceState
finish_read asset (answered rates now) s = record {
  cache = keep_rates asset rates now s.cache;
  in_flight = delete asset s.in_flight;
}
finish_read asset failed s = record {
  cache = delete asset s.cache;
  in_flight = delete asset s.in_flight;
}

pub data PriceError : Type 0 where
  bad_amount unsupported_asset no_rate : PriceError

unfoldable pub supports_sell_asset : PriceOptions → String → Bool
supports_sell_asset options asset = any (str_eq asset) options.sell_assets

abbrev pub some_or_throw : List AssetRate → Result PriceError (List AssetRate)
some_or_throw [] = err no_rate
some_or_throw (rate ∷ rest) = ok (rate ∷ rest)

-- `prices`, around the rates that `ratesFor` gives. `is_positive` is whether `Number(text)` is finite
-- and above zero for an amount, and above zero for a price.
unfoldable pub check_request :
    (String → Bool) → PriceOptions → String → String → Result PriceError (Unit {0})
check_request is_positive options asset amount =
    if not (is_positive amount)
    then err bad_amount
    else if supports_sell_asset options asset
    then ok tt
    else err unsupported_asset

unfoldable pub wanted_rates :
    (String → Bool) → PriceOptions → List AssetRate → Result PriceError (List AssetRate)
wanted_rates is_positive options rates =
    some_or_throw
      (keep (λ rate. any (str_eq rate.asset) options.buy_assets && is_positive rate.price) rates)
