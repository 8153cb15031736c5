-- ===== src/Mobile/Funding/Affordable.antt =====
-- What the options of a choice can pay.
use rosa_pay_application.Base.{
  ℕ, pos, ◌≤◌, ◌≡◌, ◌≢◌, refl, sym, ap, subst, ◌∙◌, String, false, Option, none, some, List, [],
  ◌∷◌, Result, ok, err, leb, ltb, ◌==◌, str_eq, eq_refl, eq_iff, ◌⊎◌, if◌then◌else◌, bind_ok,
  Bool-cases, inl, inr, arith, All, lt→ltb,
}
use rosa_pay_application.Stellar.Amounts.{AmountError, parse_stroops}
use rosa_pay_application.Stellar.Envelope.{Sdk, EnvelopeError, asset_contract_id}
use rosa_pay_application.Stellar.Service.Cleared.{IsFunded}
use rosa_pay_application.Stellar.SwapFunding.{
  SwapFundingQuote, SwapFundingError, assert_funding_path, quote_swap_funding,
}
use rosa_pay_application.Stellar.SwapFunding.Ceiling.{quote_swap_funding_sound}
use rosa_pay_application.Mobile.Funding.{
  PayableAsset, FundingOption, direct, swap, unavailable, FundingChoice, ChoiceError,
  FundingChoiceInput, contract_or_throw, amount_or_throw, read_or_zero, price_swap, resolve_held,
  order_of, insert, sort_options, recommend, resolve, resolve_all, choose, resolve_funding_choice,
}

-- The balance of a contract that the wallet reads, or "0" where the read fails, in stroops.
abbrev pub IsHeld : FundingChoiceInput → (contract held : String) → ℕ → Type 0
IsHeld input contract held stroops =
    ((input.read_balance contract ≡ some held)
      ⊎ ((input.read_balance contract ≡ none) × (held ≡ "0")))
    × (parse_stroops held ≡ ok stroops)

-- An option that can settle. One that pays directly is in the token itself, and the balance of that
-- token covers the amount out. A swap starts at the contract of its asset, which is another one and
-- whose balance covers the ceiling, and goes straight to the token; its funding passes the checks of
-- the settlement for that token.
abbrev pub Settles : Sdk → FundingChoiceInput → String → ℕ → FundingOption → Type 0
Settles sdk input token amount_out (direct asset spend held) =
    (stroops : ℕ) × (asset_contract_id sdk asset.asset input.passphrase ≡ ok token)
    × IsHeld input token held stroops
    × (amount_out ≤ stroops)
Settles sdk input token amount_out (swap asset spend max_spend held rate funding) =
    (contract : String) × (stroops : ℕ) × (ceiling : ℕ) × (asset_contract_id sdk asset.asset
        input.passphrase
      ≡ ok contract)
    × (contract ≢ token)
    × IsHeld input contract held stroops
    × (funding.path ≡ contract ∷ token ∷ [])
    × (funding.amount_in_max ≡ pos ceiling)
    × (ceiling ≤ stroops)
    × IsFunded (some funding) token
Settles sdk input token amount_out (unavailable asset held reason) = Unit

read_or_zero-held :
    (balance : Option String)
    → (balance ≡ some (read_or_zero balance)) ⊎ ((balance ≡ none) × (read_or_zero balance ≡ "0"))
read_or_zero-held none = inr (refl, refl)
read_or_zero-held (some held) = inl refl

module _ (sdk : Sdk) (input : FundingChoiceInput) (token : String) (amount_out : ℕ)
    (asset : PayableAsset) (contract held : String) (stroops : ℕ)
    (built : asset_contract_id sdk asset.asset input.passphrase ≡ ok contract)
    (known : IsHeld input contract held stroops) where
  path-allowed :
      str_eq contract token ≡ false → assert_funding_path (contract ∷ token ∷ []) token ≡ ok tt
  unfolding assert_funding_path
  path-allowed other = rw (eq_refl token) (rw other refl)

  price_swap-Settles :
      (quote : Result SwapFundingError SwapFundingQuote)
      → str_eq contract token ≡ false
      → quote_swap_funding input.quoted
          (contract ∷ token ∷ [])
          token
          (pos amount_out)
          input.slippage_bps
        ≡ quote
      → Settles sdk input token amount_out
          (price_swap input token amount_out asset held stroops contract quote)
  unfolding price_swap
  price_swap-Settles (err e) other made = tt
  price_swap-Settles (ok priced) other made = elim (Bool-cases (ltb stroops priced.amount_in_max)) [
    | inl dear ↦ rw dear tt
    | inr covered ↦
        let (path, two, ends, starts, out, some_out, bounded) =
          quote_swap_funding_sound input.quoted (contract ∷ token ∷ []) token (pos amount_out)
            input.slippage_bps priced made in
        let (some_in, small, ceiling, twice, low, high) = bounded in
        rw covered (
          contract,
          stroops,
          priced.amount_in_max,
          built,
          (λ e. ground (arith, eq_iff contract token)),
          known,
          path,
          refl,
          ground arith,
          (
            ap (λ p. assert_funding_path p token) path ∙ path-allowed other,
            lt→ltb 0 priced.amount_in_max (omega (arith, some_in, ceiling)),
          ),
        )
  ]

  resolve_held-Settles :
      Settles sdk input token amount_out
        (resolve_held input token amount_out asset held stroops contract)
  unfolding resolve_held
  resolve_held-Settles = elim (Bool-cases (str_eq contract token)) [
    | inl same ↦ elim (Bool-cases (leb amount_out stroops)) [
      | inl enough ↦
          let at_token : contract ≡ token = (eq_iff contract token).0 same in
          rw same (
            rw enough (
              stroops,
              subst (λ c. asset_contract_id sdk asset.asset input.passphrase ≡ ok c) at_token built,
              subst (λ c. IsHeld input c held stroops) at_token known,
              ground arith,
            ))
      | inr short ↦ rw same (rw short tt)
    ]
    | inr other ↦ elim (Bool-cases (stroops == 0)) [
      | inl empty ↦ rw other (rw empty tt)
      | inr held_some ↦ rw other (
          rw held_some (
            price_swap-Settles
              (quote_swap_funding input.quoted (contract ∷ token ∷ []) token (pos amount_out)
                input.slippage_bps)
              other refl))
    ]
  ]

module _ (sdk : Sdk) (input : FundingChoiceInput) (token : String) (amount_out : ℕ) where
  insert-All :
      (option : FundingOption) (options : List FundingOption)
      → Settles sdk input token amount_out option
      → All (Settles sdk input token amount_out) options
      → All (Settles sdk input token amount_out) (insert option options)
  insert-All option [] h k = (h, tt)
  insert-All option (first ∷ rest) h (first_settles, rest_settle) =
      elim (Bool-cases (leb (order_of option) (order_of first))) [
        | inl here ↦ rw here (h, (first_settles, rest_settle))
        | inr later ↦ rw later (first_settles, insert-All option rest h rest_settle)
      ]

  sort-All :
      (options : List FundingOption)
      → All (Settles sdk input token amount_out) options
      → All (Settles sdk input token amount_out) (sort_options options)
  unfolding sort_options
  sort-All [] h = tt
  sort-All (option ∷ rest) (h, k) = insert-All option (sort_options rest) h (sort-All rest k)

  recommend-All :
      (options : List FundingOption) (option : FundingOption)
      → All (Settles sdk input token amount_out) options
      → recommend options ≡ some option
      → Settles sdk input token amount_out option × (order_of option == 2 ≡ false)
  unfolding recommend
  recommend-All [] option h found = ground arith
  recommend-All (first ∷ rest) option (h, k) found = elim (Bool-cases (order_of first == 2)) [
    | inl skipped ↦
        recommend-All rest option k
          (subst (λ b. (if b then recommend rest else some first) ≡ some option) skipped found)
    | inr taken ↦
        let same : first ≡ option =
          some_injective first option
            (subst (λ b. (if b then recommend rest else some first) ≡ some option) taken found) in
        (
          subst (Settles sdk input token amount_out) same h,
          ap (λ o. order_of o == 2) (sym same) ∙ taken,
        )
  ]
    where
      some_injective :
          (a b : FundingOption) → ◌≡◌ {A = Option FundingOption} (some a) (some b) → a ≡ b
      some_injective a b e = ground arith

contract_ok :
    {A : Type 0} (r : Result EnvelopeError A) (a : A) → contract_or_throw r ≡ ok a → r ≡ ok a
contract_ok (ok b) a h = ground arith
contract_ok (err e) a h = ground arith

amount_ok : {A : Type 0} (r : Result AmountError A) (a : A) → amount_or_throw r ≡ ok a → r ≡ ok a
amount_ok (ok b) a h = ground arith
amount_ok (err e) a h = ground arith

ok_injective : {A : Type 0} (a b : A) → ◌≡◌ {A = Result ChoiceError A} (ok a) (ok b) → a ≡ b
ok_injective a b h = ground arith

module _ (sdk : Sdk) (input : FundingChoiceInput) (token : String) (amount_out : ℕ) where
  resolve-Settles :
      (asset : PayableAsset) (option : FundingOption)
      → resolve sdk input token amount_out asset ≡ ok option
      → Settles sdk input token amount_out option
  unfolding resolve
  resolve-Settles asset option h =
      let (contract, built, h1) =
        bind_ok (contract_or_throw (asset_contract_id sdk asset.asset input.passphrase)) _ option
          h in
      let (stroops, read, made) =
        bind_ok (amount_or_throw (parse_stroops (read_or_zero (input.read_balance contract)))) _
          option h1 in
      let held = read_or_zero (input.read_balance contract) in
      subst (Settles sdk input token amount_out)
        (ok_injective (resolve_held input token amount_out asset held stroops contract) option made)
        (resolve_held-Settles sdk input token amount_out asset contract held stroops
          (contract_ok (asset_contract_id sdk asset.asset input.passphrase) contract built)
          (
            read_or_zero-held (input.read_balance contract),
            amount_ok (parse_stroops held) stroops read,
          ))

  resolve_all-All :
      (assets : List PayableAsset) (options : List FundingOption)
      → resolve_all sdk input token amount_out assets ≡ ok options
      → All (Settles sdk input token amount_out) options
  unfolding resolve_all
  resolve_all-All [] options h =
      subst (All (Settles sdk input token amount_out)) (ok_injective [] options h) tt
  resolve_all-All (asset ∷ rest) options h =
      let (option, first, h1) = bind_ok (resolve sdk input token amount_out asset) _ options h in
      let (others, second, made) =
        bind_ok (resolve_all sdk input token amount_out rest) _ options h1 in
      subst (All (Settles sdk input token amount_out)) (ok_injective (option ∷ others) options made)
        (resolve-Settles asset option first, resolve_all-All rest others second)

-- The option that a customer is recommended, if there is one, can be settled. It is either in the
-- token of the request, and the balance of that token that was read, "0" where it could not be,
-- covers the price; or it swaps another asset, whose balance, read likewise, covers the ceiling, and
-- the settlement accepts the path and the ceiling of that swap for the token of the request.
pub resolve_funding_choice-Settles :
    (sdk : Sdk) (input : FundingChoiceInput) (assets : List PayableAsset) (choice : FundingChoice)
    (option : FundingOption)
    → resolve_funding_choice sdk input assets ≡ ok choice
    → choice.recommended ≡ some option
    → (token : String) × (amount_out : ℕ) × (asset_contract_id sdk input.intent.asset
          input.passphrase
        ≡ ok token)
      × (parse_stroops input.intent.amount ≡ ok amount_out)
      × Settles sdk input token amount_out option
      × (order_of option == 2 ≡ false)
unfolding resolve_funding_choice
resolve_funding_choice-Settles sdk input assets choice option h found =
    let (token, built, h1) =
      bind_ok (contract_or_throw (asset_contract_id sdk input.intent.asset input.passphrase)) _
        choice h in
    let (amount_out, priced, h2) =
      bind_ok (amount_or_throw (parse_stroops input.intent.amount)) _ choice h1 in
    let (options, resolved, made) =
      bind_ok (resolve_all sdk input token amount_out assets) _ choice h2 in
    let same : choose sdk input options ≡ choice =
      ok_injective (choose sdk input options) choice made in
    let (settles, offered) =
      recommend-All sdk input token amount_out (sort_options options) option
        (sort-All sdk input token amount_out options
          (resolve_all-All sdk input token amount_out assets options resolved))
        (ap (λ c. c.recommended) same ∙ found) in
    (
      token,
      amount_out,
      contract_ok (asset_contract_id sdk input.intent.asset input.passphrase) token built,
      amount_ok (parse_stroops input.intent.amount) amount_out priced,
      settles,
      offered,
    )
