-- ===== src/Api/Prices/Tests.antt =====
-- A rate of the lumen that is asked for, read and asked for again.
use rosa_pay_application.Base.{◌-◌, ◌<◌, ◌≡◌, ◌⊎◌, refl, [], ◌∷◌, some}
use rosa_pay_application.Base.Dict.{get, put, delete}
use rosa_pay_application.Api.Prices.{
  AssetRate, CacheEntry, cached, answered, rates_for, finish_read,
}
use rosa_pay_application.Api.Prices.Fresh.{
  Event, asked, ended, after, run, last_answer, rates_for-fresh,
}
use rosa_pay_application.Base.{List}

abbrev rates : List AssetRate
rates = record { asset = "iso4217:TRY"; price = "4"; decimals = 2 } ∷ []

abbrev events : List Event
events = ended "stellar:native" (answered rates 1000) ∷ asked "stellar:native" 900 ∷ []

served : (rates_for 60000 "stellar:native" 2000 (run 60000 events)).0 ≡ cached rates
unfolding rates_for run after finish_read get put delete
served = refl

rates_for-fresh_example :
    (entry : CacheEntry) × (last_answer "stellar:native" events ≡ some entry)
    × (entry.rates ≡ rates)
    × ((2000 < entry.read_at) ⊎ (2000 - entry.read_at < 60000))
rates_for-fresh_example = rates_for-fresh 60000 "stellar:native" 2000 events rates served
