-- ===== src/Stellar/SwapFunding/Tests.antt =====
-- A quote of 1,234,567 stroops, with half a percent of room.
use rosa_pay_application.Base.{
  ℤ, pos, ℕ, ◌≡◌, ◌≢◌, ◌≤◌, ◌<◌, refl, String, Option, none, some, List, [], ◌∷◌, length,
}
use rosa_pay_application.Stellar.SwapFunding.{
  SwapFundingQuote, last, first, assert_funding_path, finish_quote, quote_swap_funding,
}
use rosa_pay_application.Stellar.SwapFunding.Ceiling.{IsCeiling, quote_swap_funding_sound}

abbrev path : List String
path = "XLM" ∷ "USDC" ∷ []

abbrev pool : List String → ℕ → Option (List ℤ)
pool _ amount = some (pos 1234567 ∷ pos amount ∷ [])

abbrev quote : SwapFundingQuote
quote = record {
  path = path;
  amount_in = 1234567;
  amount_out = 100000;
  amount_in_max = 1240739;
  slippage_bps = 50;
}

quote_swap_funding_sound_example :
    (path ≡ path)
    × (2 ≤ length path)
    × (last path ≡ some "USDC")
    × (first path ≢ some "USDC")
    × (pos 100000 ≡ pos 100000)
    × (0 < 100000)
    × IsCeiling 1234567 50 1240739
unfolding quote_swap_funding assert_funding_path finish_quote
quote_swap_funding_sound_example =
    quote_swap_funding_sound pool path "USDC" (pos 100000) none quote refl
