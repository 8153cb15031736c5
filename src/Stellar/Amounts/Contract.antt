-- ===== src/Stellar/Amounts/Contract.antt =====
-- Amounts of requests as the units that the settlement contract moves.
use rosa_pay_application.Base.{
  ℕ, ◌≤◌, ◌≡◌, refl, ap, sym, ◌∙◌, String, true, List, [], ◌∷◌, ok, leb, arith, ◌⊎◌, inl, inr,
  leb→le,
}
use rosa_pay_application.Base.Text.{trim}
use rosa_pay_application.Base.Pieces.{split}
use rosa_pay_application.Base.Decimal.{all_digits, is_number, size, strip_end, strip_start}
use rosa_pay_application.Base.Decimal.Laws.{
  all_digits-strip_start, all_digits-strip_end, is_empty-strip_start, size-strip_end,
  read-strip_start, pad_end-strip_end,
}
use rosa_pay_application.Base.Decimal.Points.{pointed_pieces, split-pointed}
use rosa_pay_application.Protocol.Amounts.{normalize_payment_amount}
use rosa_pay_application.Protocol.Amounts.Canonical.{IsNormal, normalize-IsNormal}
use rosa_pay_application.Stellar.Amounts.{
  check_units, contract_units, contract_amount, decimal_to_contract_amount, amount_of_pieces,
}

contract_amount-valid :
    (whole fraction : String) (decimals : ℕ)
    → is_number whole ≡ true
    → leb (size fraction) decimals ≡ true
    → all_digits fraction ≡ true
    → contract_amount whole fraction decimals ≡ check_units (contract_units whole fraction decimals)
unfolding contract_amount
contract_amount-valid whole fraction decimals number fits digits = ground arith

contract_units-stripped :
    (whole fraction : String) (decimals : ℕ)
    → size fraction ≤ decimals
    → contract_units (strip_start whole) (strip_end fraction) decimals
      ≡ contract_units whole fraction decimals
unfolding contract_units
contract_units-stripped whole fraction decimals fits =
    rw (read-strip_start whole) (rw (pad_end-strip_end decimals fraction fits) refl)

of_pointed_pieces :
    (whole fraction : String) (decimals : ℕ)
    → amount_of_pieces (pointed_pieces whole fraction) decimals
      ≡ contract_amount whole fraction decimals
of_pointed_pieces whole String.[] decimals = refl
of_pointed_pieces whole (String.◌∷◌ c s) decimals = refl

of_cut :
    (pieces : List String) (whole fraction : String) (decimals : ℕ)
    → ((pieces ≡ whole ∷ []) × (fraction ≡ "")) ⊎ (pieces ≡ whole ∷ fraction ∷ [])
    → amount_of_pieces pieces decimals ≡ contract_amount whole fraction decimals
of_cut pieces whole fraction decimals (inl bare) = rw bare.0 (rw bare.1 refl)
of_cut pieces whole fraction decimals (inr both) = rw both refl

-- The contract is asked for the same amount of the normalized text as of the text that was typed, and
-- no text that has been normalized is refused for its form: the only check left is that of the range.
pub decimal_to_contract_amount-normalized :
    (value : String) (decimals : ℕ) (amount : String)
    → normalize_payment_amount value decimals ≡ ok amount
    → (decimal_to_contract_amount amount decimals
        ≡ decimal_to_contract_amount (trim value) decimals)
      × ((n : ℕ) × (decimal_to_contract_amount amount decimals ≡ check_units n))
unfolding decimal_to_contract_amount
decimal_to_contract_amount-normalized value decimals amount h =
    let n : IsNormal (split b'.' (trim value)) decimals amount =
      normalize-IsNormal value decimals amount h in
    let w = strip_start n.whole in
    let f = strip_end n.fraction in
    let number = n.whole_number in
    let fits = n.fits in
    let digits : all_digits f ≡ true = all_digits-strip_end n.fraction n.fraction_digits in
    let w_digits : all_digits w ≡ true = all_digits-strip_start n.whole (ground arith) in
    let w_number : is_number w ≡ true = ground (arith, is_empty-strip_start n.whole) in
    let units = contract_units n.whole n.fraction decimals in
    let typed : decimal_to_contract_amount (trim value) decimals ≡ check_units units =
      of_cut (split b'.' (trim value)) n.whole n.fraction decimals n.cut
      ∙ contract_amount-valid n.whole n.fraction decimals n.whole_number n.fits n.fraction_digits in
    let sent : decimal_to_contract_amount amount decimals ≡ check_units units =
      ap (λ a. decimal_to_contract_amount a decimals) n.amount_is
      ∙ (ap (λ p. amount_of_pieces p decimals) (split-pointed w f w_digits digits)
          ∙ (of_pointed_pieces w f decimals
              ∙ (contract_amount-valid w f decimals w_number
                    (ground (arith, size-strip_end n.fraction)) digits
                  ∙ ap check_units (
                      contract_units-stripped n.whole n.fraction decimals
                        (leb→le (size n.fraction) decimals n.fits))))) in
    (sent ∙ sym typed, (units, sent))
