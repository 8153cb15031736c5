-- ===== src/Stellar/SwapFunding.antt =====
-- packages/stellar/src/swapFunding.ts: the quote for a payment that is funded by a swap. The router
-- is what is behind `quoted`; a `bigint` is an integer.
pub mod Ceiling
mod Tests
use rosa_pay_application.Base.{
  ℤ, pos, negsuc, ℕ, zero, suc, ◌+◌, ◌*◌, ◌/◌, String, Bool, true, false, not, ◌&&◌, ◌||◌, Option,
  none, some, List, [], ◌∷◌, Result, ok, err, length, ltb, leb, str_eq, if◌then◌else◌,
}

pub record SwapFundingQuote : Type 0 where
  pub path : List String
  pub amount_in : ℕ
  pub amount_out : ℕ
  pub amount_in_max : ℕ
  pub slippage_bps : ℕ

pub data SwapFundingError : Type 0 where
  no_route invalid_path invalid_amount : SwapFundingError

abbrev pub default_swap_slippage_bps : ℤ
default_swap_slippage_bps = pos 50

abbrev pub last : List String → Option String
last [] = none
last (token ∷ []) = some token
last (token ∷ next ∷ rest) = last (next ∷ rest)

abbrev pub first : List String → Option String
first [] = none
first (token ∷ rest) = some token

abbrev pub is_token : String → Option String → Bool
is_token token none = false
is_token token (some other) = str_eq other token

unfoldable pub assert_funding_path : List String → String → Result SwapFundingError (Unit {0})
assert_funding_path path settlement_token =
    if ltb (length path) 2
    then err invalid_path
    else if not (is_token settlement_token (last path))
    then err invalid_path
    else if is_token settlement_token (first path)
    then err invalid_path
    else ok tt

-- A positive integer as the number it is.
abbrev pub positive : ℤ → Option ℕ
positive (pos n) = if leb n 0 then none else some n
positive (negsuc n) = none

-- Between 0 and 10,000.
abbrev pub basis_points : ℤ → Option ℕ
basis_points (pos n) = if leb n 10000 then some n else none
basis_points (negsuc n) = none

abbrev pub first_amount : List ℤ → Option ℕ
first_amount [] = none
first_amount (amount ∷ rest) = positive amount

abbrev pub given_or : {A : Type 0} → A → Option A → A
given_or a none = a
given_or a (some b) = b

-- What the answer of the router is made into; `none` is a quote that throws.
unfoldable pub finish_quote :
    List String → ℕ → ℕ → Option (List ℤ) → Result SwapFundingError SwapFundingQuote
finish_quote path amount_out slippage_bps none = err no_route
finish_quote path amount_out slippage_bps (some amounts) = elim (first_amount amounts) [
  | none ↦ err no_route
  | some amount_in ↦ ok (record {
    path = path;
    amount_in = amount_in;
    amount_out = amount_out;
    amount_in_max = (amount_in * (10000 + slippage_bps)) / 10000;
    slippage_bps = slippage_bps;
  })
]

unfoldable pub quote_swap_funding :
    (List String → ℕ → Option (List ℤ))
    → List String
    → String
    → ℤ
    → Option ℤ
    → Result SwapFundingError SwapFundingQuote
quote_swap_funding quoted path settlement_token amount_out slippage =
    elim (assert_funding_path path settlement_token) [
      | err e ↦ err e
      | ok _ ↦ elim (positive amount_out) [
        | none ↦ err invalid_amount
        | some out ↦ elim (basis_points (given_or default_swap_slippage_bps slippage)) [
          | none ↦ err invalid_amount
          | some slippage_bps ↦ finish_quote path out slippage_bps (quoted path out)
        ]
      ]
    ]
