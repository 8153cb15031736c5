-- ===== src/Stellar/SwapFunding/Ceiling.antt =====
-- What a quote of swapFunding.ts promises.
use rosa_pay_application.Base.{
  ℤ, pos, ℕ, ◌+◌, ◌*◌, ◌/◌, ◌≤◌, ◌<◌, ◌≡◌, ◌≢◌, refl, ap, sym, ◌∙◌, subst, String, true, false,
  Option, none, some, List, Result, ok, arith, eq_iff, eq_refl, Option-cases, inl, inr, length,
}
use native.Mathlib.Nat.{mul-add, mul-le-mul_left}
use rosa_pay_application.Stellar.SwapFunding.{
  SwapFundingQuote, SwapFundingError, last, first, is_token, assert_funding_path, positive,
  basis_points, given_or, default_swap_slippage_bps, first_amount, finish_quote, quote_swap_funding,
}

is_token-some : (token : String) (o : Option String) → is_token token o ≡ true → o ≡ some token
is_token-some token none h = ground arith
is_token-some token (some t) h = ap some ((eq_iff t token).0 h)

is_token-other : (token : String) (o : Option String) → is_token token o ≡ false → o ≢ some token
is_token-other token none h e = ground arith
is_token-other token (some t) h e = ground (arith, eq_refl token, eq_iff t token)

assert_funding_path-ends :
    (path : List String) (token : String)
    → assert_funding_path path token ≡ ok tt
    → (2 ≤ length path) × (last path ≡ some token) × (first path ≢ some token)
unfolding assert_funding_path
assert_funding_path-ends path token h = (
  ground arith,
  is_token-some token (last path) (ground arith),
  is_token-other token (first path) (ground arith),
)

-- The greatest amount that the slippage leaves, rounded down, which is at most twice the quote.
abbrev pub IsCeiling : ℕ → ℕ → ℕ → Type 0
IsCeiling amount_in bps amount_in_max =
    (0 < amount_in)
    × (bps ≤ 10000)
    × (amount_in ≤ amount_in_max)
    × (amount_in_max ≤ 2 * amount_in)
    × (amount_in_max * 10000 ≤ amount_in * (10000 + bps))
    × (amount_in * (10000 + bps) < amount_in_max * 10000 + 10000)

product_bounds :
    (a bps : ℕ) → bps ≤ 10000 → (a * bps ≤ a * 10000) × (a * (10000 + bps) ≡ a * 10000 + a * bps)
product_bounds a bps h = (mul-le-mul_left a h, mul-add a 10000 bps)

rounded-IsCeiling :
    (a bps : ℕ) → 0 < a → bps ≤ 10000 → IsCeiling a bps ((a * (10000 + bps)) / 10000)
rounded-IsCeiling a bps some_in small =
    let (bound, spread) = product_bounds a bps small in
    (
      some_in,
      small,
      omega (arith, bound, spread),
      omega (arith, bound, spread),
      omega arith,
      omega arith,
    )

-- A quote for this path and amount, with a ceiling.
abbrev IsQuote : List String → ℕ → SwapFundingQuote → Type 0
IsQuote path out q =
    (q.path ≡ path) × (q.amount_out ≡ out) × IsCeiling q.amount_in q.slippage_bps q.amount_in_max

ok_injective : {A : Type 0} {a b : A} {x : Result SwapFundingError A} → x ≡ ok a → x ≡ ok b → a ≡ b
ok_injective h k = ground arith

first_amount-positive : (amounts : List ℤ) (n : ℕ) → first_amount amounts ≡ some n → 0 < n
first_amount-positive amounts n h = ground arith

finish_quote-IsQuote :
    (path : List String) (out bps : ℕ) (answer : Option (List ℤ)) (q : SwapFundingQuote)
    → bps ≤ 10000
    → finish_quote path out bps answer ≡ ok q
    → IsQuote path out q
unfolding finish_quote
finish_quote-IsQuote path out bps none q small h = ground arith
finish_quote-IsQuote path out bps (some amounts) q small h =
    elim (Option-cases (first_amount amounts)) [
      | inl nothing ↦ ground arith
      | inr (a, answered) ↦
          subst (IsQuote path out)
            (ok_injective {x = finish_quote path out bps (some amounts)}
              (rw (answered, finish_quote) refl) h)
            (refl, refl, rounded-IsCeiling a bps (first_amount-positive amounts a answered) small)
    ]

positive-pos : (amount : ℤ) (n : ℕ) → positive amount ≡ some n → (amount ≡ pos n) × (0 < n)
positive-pos amount n h = ground arith

basis_points-small : (bps : ℤ) (n : ℕ) → basis_points bps ≡ some n → n ≤ 10000
basis_points-small bps n h = ground arith

-- If a payment is quoted, the path has an input and ends at the merchant's token, which it does not
-- start at; the amount out is the positive one that was asked for; the amount in is positive, and
-- the ceiling is the amount in with the slippage, rounded down: it is not below the amount in and
-- not above twice it.
pub quote_swap_funding_sound :
    (quoted : List String → ℕ → Option (List ℤ)) (path : List String) (token : String)
    (amount_out : ℤ) (slippage : Option ℤ) (q : SwapFundingQuote)
    → quote_swap_funding quoted path token amount_out slippage ≡ ok q
    → (q.path ≡ path)
      × (2 ≤ length path)
      × (last path ≡ some token)
      × (first path ≢ some token)
      × (amount_out ≡ pos q.amount_out)
      × (0 < q.amount_out)
      × IsCeiling q.amount_in q.slippage_bps q.amount_in_max
unfolding quote_swap_funding
quote_swap_funding_sound quoted path token amount_out slippage q h =
    elim (Option-cases (positive amount_out)) [
      | inl refused ↦ ground arith
      | inr (out, asked) ↦
          elim (Option-cases (basis_points (given_or default_swap_slippage_bps slippage))) [
            | inl refused ↦ ground arith
            | inr (bps, wanted) ↦
                let (two, ends, starts) = assert_funding_path-ends path token (ground arith) in
                let (same, exact, ceiling) =
                  finish_quote-IsQuote path out bps (quoted path out) q
                    (basis_points-small (given_or default_swap_slippage_bps slippage) bps wanted)
                    (ground arith) in
                let (given, some_out) = positive-pos amount_out out asked in
                (
                  same,
                  two,
                  ends,
                  starts,
                  given ∙ ap pos (sym exact),
                  subst (λ n. 0 < n) (sym exact) some_out,
                  ceiling,
                )
          ]
    ]
