-- ===== src/Mobile/Funding.antt =====
-- apps/mobile/src/features/payments/fundingChoice.ts: what a customer can pay a request with. Reading a
-- balance and the router are arguments, and so is the time, in seconds.
pub mod Affordable
mod Tests
use rosa_pay_application.Base.{
  ℕ, ℤ, pos, negsuc, ◌+◌, ◌*◌, ◌/◌, String, Bool, true, false, Option, none, some, List, [], ◌∷◌,
  Result, ok, err, leb, ltb, ◌==◌, str_eq, if◌then◌else◌, ◌>>=◌,
}
use rosa_pay_application.Base.Pieces.{append}
use rosa_pay_application.Protocol.Schema.{PaymentAsset, PaymentIntentV1}
use rosa_pay_application.Stellar.Amounts.{AmountError, format_stroops, parse_stroops}
use rosa_pay_application.Stellar.Envelope.{Sdk, EnvelopeError, asset_contract_id}
use rosa_pay_application.Stellar.Pipeline.{SettlementFunding}
use rosa_pay_application.Stellar.SwapFunding.{
  SwapFundingQuote, SwapFundingError, quote_swap_funding,
}

pub record PayableAsset : Type 0 where
  pub code : String
  pub asset : PaymentAsset

pub data Reason : Type 0 where
  insufficient no_route : Reason

pub data FundingOption : Type 0 where
  direct : PayableAsset → (spend held : String) → FundingOption
  swap : PayableAsset → (spend max_spend held rate : String) → SettlementFunding → FundingOption
  unavailable : PayableAsset → (held : String) → Reason → FundingOption

pub record FundingChoice : Type 0 where
  pub options : List FundingOption
  pub recommended : Option FundingOption

-- What makes the whole choice throw.
pub data ChoiceError : Type 0 where
  no_contract : EnvelopeError → ChoiceError
  no_amount : AmountError → ChoiceError

pub record FundingChoiceInput : Type 0 where
  pub intent : PaymentIntentV1
  pub passphrase : String
  pub slippage_bps : Option ℤ
  pub read_balance : String → Option String
  pub quoted : List String → ℕ → Option (List ℤ)
  pub now : ℕ

-- `describeRate`, of amounts that are not negative.
unfoldable pub describe_rate : ℕ → ℕ → String → String → String
describe_rate amount_in amount_out in_code out_code =
    if leb amount_out 0
    then ""
    else append (format_stroops (pos ((amount_in * 10000000) / amount_out)))
        (append " " (append in_code (append " per " out_code)))

abbrev pub contract_or_throw : {A : Type 0} → Result EnvelopeError A → Result ChoiceError A
contract_or_throw (ok a) = ok a
contract_or_throw (err e) = err (no_contract e)

abbrev pub amount_or_throw : {A : Type 0} → Result AmountError A → Result ChoiceError A
amount_or_throw (ok a) = ok a
amount_or_throw (err e) = err (no_amount e)

-- `.catch(() => '0')`
abbrev pub read_or_zero : Option String → String
read_or_zero none = "0"
read_or_zero (some held) = held

module _ (input : FundingChoiceInput) (token : String) (amount_out : ℕ) (asset : PayableAsset)
    (held : String) (stroops : ℕ) where
  unfoldable pub price_swap : String → Result SwapFundingError SwapFundingQuote → FundingOption
  price_swap contract (err e) = unavailable asset held no_route
  price_swap contract (ok priced) =
      if ltb stroops priced.amount_in_max
      then unavailable asset held insufficient
      else swap asset (format_stroops (pos priced.amount_in))
          (format_stroops (pos priced.amount_in_max)) held
          (describe_rate priced.amount_in amount_out asset.code input.intent.asset.code)
          (record {
            path = priced.path;
            amount_in_max = pos priced.amount_in_max;
            deadline = pos (input.now + 300);
          })

  -- One asset's answer, once its contract and its balance are known.
  unfoldable pub resolve_held : String → FundingOption
  resolve_held contract =
      let priced = price_swap contract (
        quote_swap_funding input.quoted (contract ∷ token ∷ []) token (pos amount_out)
          input.slippage_bps) in
      if str_eq contract token
      then if leb amount_out stroops
        then direct asset input.intent.amount held
        else unavailable asset held insufficient
      else if stroops == 0
      then unavailable asset held insufficient
      else priced

-- The place of a kind of option, `sort` being stable.
abbrev pub order_of : FundingOption → ℕ
order_of (direct asset spend held) = 0
order_of (swap asset spend max_spend held rate funding) = 1
order_of (unavailable asset held reason) = 2

abbrev pub insert : FundingOption → List FundingOption → List FundingOption
insert option [] = option ∷ []
insert option (first ∷ rest) =
    let later = insert option rest in
    if leb (order_of option) (order_of first) then option ∷ first ∷ rest else first ∷ later

unfoldable pub sort_options : List FundingOption → List FundingOption
sort_options [] = []
sort_options (option ∷ rest) = insert option (sort_options rest)

-- `options.find(option => option.kind !== 'unavailable')`
unfoldable pub recommend : List FundingOption → Option FundingOption
recommend [] = none
recommend (option ∷ rest) =
    let later = recommend rest in if order_of option == 2 then later else some option

module _ (sdk : Sdk) (input : FundingChoiceInput) where
  unfoldable pub resolve : String → ℕ → PayableAsset → Result ChoiceError FundingOption
  resolve token amount_out asset =
      contract_or_throw (asset_contract_id sdk asset.asset input.passphrase) >>= (λ contract.
        amount_or_throw (parse_stroops (read_or_zero (input.read_balance contract))) >>= (λ stroops.
          ok (
            resolve_held input token amount_out asset (read_or_zero (input.read_balance contract))
              stroops contract)))

  -- `Promise.all`, whose rejection is that of any of the promises; which one it is, is not looked at.
  unfoldable pub resolve_all :
      String → ℕ → List PayableAsset → Result ChoiceError (List FundingOption)
  resolve_all token amount_out [] = ok []
  resolve_all token amount_out (asset ∷ rest) =
      resolve token amount_out asset
      >>= (λ option. resolve_all token amount_out rest >>= (λ options. ok (option ∷ options)))

  abbrev pub choose : List FundingOption → FundingChoice
  choose options = record {
    options = sort_options options;
    recommended = recommend (sort_options options);
  }

  unfoldable pub resolve_funding_choice : List PayableAsset → Result ChoiceError FundingChoice
  resolve_funding_choice assets =
      contract_or_throw (asset_contract_id sdk input.intent.asset input.passphrase) >>= (λ token.
        amount_or_throw (parse_stroops input.intent.amount) >>= (λ amount_out.
          resolve_all token amount_out assets >>= (λ options. ok (choose options))))
