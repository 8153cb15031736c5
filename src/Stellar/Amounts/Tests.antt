-- ===== src/Stellar/Amounts/Tests.antt =====
-- Amounts as they are shown, typed and settled.
use rosa_pay_application.Base.{ℕ, ◌≡◌, refl, ok, pos}
use rosa_pay_application.Base.Text.{trim, trim_start, trim_end, is_space}
use rosa_pay_application.Base.Pieces.{split}
use rosa_pay_application.Base.Decimal.{all_digits, size, strip_end, strip_start}
use rosa_pay_application.Protocol.Amounts.{normalize_payment_amount, normalize_pieces, normalized}
use rosa_pay_application.Stellar.Amounts.{
  parse_stroops, format_stroops, decimal_to_contract_amount, check_units,
}
use rosa_pay_application.Stellar.Amounts.Stroops.{parse_stroops-format_stroops}
use rosa_pay_application.Stellar.Amounts.Contract.{decimal_to_contract_amount-normalized}

parse_stroops-format_stroops_example : parse_stroops (format_stroops (pos 245000000)) ≡ ok 245000000
parse_stroops-format_stroops_example = parse_stroops-format_stroops (pos 245000000)

keypad : normalize_payment_amount " 024.50 " 7 ≡ ok "24.5"
unfolding normalize_payment_amount normalize_pieces normalized split trim trim_start trim_end
    is_space all_digits size strip_end strip_start
keypad = refl

decimal_to_contract_amount-normalized_example :
    (decimal_to_contract_amount "24.5" 7 ≡ decimal_to_contract_amount (trim " 024.50 ") 7)
    × ((n : ℕ) × (decimal_to_contract_amount "24.5" 7 ≡ check_units n))
decimal_to_contract_amount-normalized_example =
    decimal_to_contract_amount-normalized " 024.50 " 7 "24.5" keypad
