-- ===== src/Stellar/Amounts.antt =====
-- Amounts in packages/stellar/src: `formatStroops` and `parseStroops` of balances.ts, and
-- `decimalToContractAmount` of settlementEnvelope.ts.
pub mod Stroops
pub mod Contract
mod Tests
use rosa_pay_application.Base.{
  ℕ, suc, ◌+◌, ◌-◌, ◌*◌, ◌/◌, ◌%◌, ◌^◌, String, Bool, true, false, not, ◌&&◌, ◌||◌, List, [], ◌∷◌,
  Result, ok, err, ltb, leb, ◌==◌, if◌then◌else◌, ℤ, pos, negsuc,
}
use rosa_pay_application.Base.Text.{is_empty, trim}
use rosa_pay_application.Base.Pieces.{split, append}
use rosa_pay_application.Base.Decimal.{
  print, read, all_digits, is_number, size, pad_end, pad_start, strip_end,
}

pub data AmountError : Type 0 where
  not_stellar_amount invalid_amount outside_i128 : AmountError

-- `fraction ? `.${fraction}` : ''`
abbrev pub dotted : String → String
dotted fraction = elim (is_empty fraction) [ true ↦ "" | false ↦ append "." fraction ]

-- Stroops that are not negative.
unfoldable pub format_absolute : ℕ → String
format_absolute absolute =
    append (print (absolute / 10000000))
      (dotted (strip_end (pad_start 7 (print (absolute % 10000000)))))

unfoldable pub format_stroops : ℤ → String
format_stroops (pos n) = format_absolute n
format_stroops (negsuc n) = append "-" (format_absolute (suc n))

-- The pieces at the points of a text that fits `/^\d+(?:\.\d{1,7})?$/`, read.
unfoldable pub parse_pieces : List String → Result AmountError ℕ
parse_pieces [] = err not_stellar_amount
parse_pieces (whole ∷ []) =
    if is_number whole
    then ok (read whole * 10000000 + read (pad_end 7 ""))
    else err not_stellar_amount
parse_pieces (whole ∷ fraction ∷ []) =
    if is_number whole && is_number fraction && leb (size fraction) 7
    then ok (read whole * 10000000 + read (pad_end 7 fraction))
    else err not_stellar_amount
parse_pieces (whole ∷ fraction ∷ more ∷ rest) = err not_stellar_amount

unfoldable pub parse_stroops : String → Result AmountError ℕ
parse_stroops amount = parse_pieces (split b'.' (trim amount))

unfoldable pub max_i128 : ℕ
max_i128 = 2 ^ 127 - 1

-- The units of a whole part and a fraction that have passed the checks.
unfoldable pub contract_units : String → String → ℕ → ℕ
contract_units whole fraction decimals =
    read whole * 10 ^ decimals + read (pad_end decimals fraction)

unfoldable pub check_units : ℕ → Result AmountError ℕ
check_units units = if leb units 0 || ltb max_i128 units then err outside_i128 else ok units

unfoldable pub contract_amount : String → String → ℕ → Result AmountError ℕ
contract_amount whole fraction decimals =
    if is_number whole && leb (size fraction) decimals && all_digits fraction
    then check_units (contract_units whole fraction decimals)
    else err invalid_amount

-- `[whole, fraction = '']`: what is behind a second point is not looked at.
abbrev pub amount_of_pieces : List String → ℕ → Result AmountError ℕ
amount_of_pieces [] decimals = err invalid_amount
amount_of_pieces (whole ∷ []) decimals = contract_amount whole "" decimals
amount_of_pieces (whole ∷ fraction ∷ rest) decimals = contract_amount whole fraction decimals

unfoldable pub decimal_to_contract_amount : String → ℕ → Result AmountError ℕ
decimal_to_contract_amount amount decimals = amount_of_pieces (split b'.' amount) decimals
