-- ===== src/Protocol/Amounts/Canonical.antt =====
-- Normalized amounts are the canonical ones that the schema asks for.
use rosa_pay_application.Base.{
  ℕ, ◌≡◌, refl, ap, sym, ◌∙◌, subst, String, true, false, ◌&&◌, List, [], ◌∷◌, ok, leb, str_eq,
  arith, ◌⊎◌, inl, inr,
}
use rosa_pay_application.Base.Text.{is_empty, trim}
use rosa_pay_application.Base.Text.Trimming.{trim-visible}
use rosa_pay_application.Base.Pieces.{split}
use rosa_pay_application.Base.Decimal.{
  all_digits, is_number, size, strip_end, strip_start, ends_nonzero, is_whole,
}
use rosa_pay_application.Base.Decimal.Laws.{
  all_digits-strip_start, all_digits-strip_end, is_empty-strip_start, size-strip_end,
}
use rosa_pay_application.Base.Decimal.Points.{
  pointed, pointed_pieces, split-pointed, is_visible-pointed, is_whole-strip_start,
  ends_nonzero-strip_end, strip_start-is_whole, strip_end-strip_end,
}
use rosa_pay_application.Protocol.Schema.Parsing.{canonical_pieces, is_canonical_amount}
use rosa_pay_application.Protocol.Amounts.{normalized, normalize_pieces, normalize_payment_amount}

-- How an amount has been made of the pieces of a text.
pub record IsNormal (pieces : List String) (decimals : ℕ) (amount : String) : Type 0 where
  pub whole : String
  pub fraction : String
  pub whole_number : is_number whole ≡ true
  pub fraction_digits : all_digits fraction ≡ true
  pub precision : leb decimals 18 ≡ true
  pub fits : leb (size fraction) decimals ≡ true
  pub nonzero : str_eq (strip_start whole) "0" && is_empty (strip_end fraction) ≡ false
  pub amount_is : amount ≡ pointed (strip_start whole) (strip_end fraction)
  pub cut : ((pieces ≡ whole ∷ []) × (fraction ≡ "")) ⊎ (pieces ≡ whole ∷ fraction ∷ [])

module _ (whole fraction : String) (decimals : ℕ) (amount : String) where
  normalized-IsNormal :
      (pieces : List String)
      → is_number whole ≡ true
      → all_digits fraction ≡ true
      → ((pieces ≡ whole ∷ []) × (fraction ≡ "")) ⊎ (pieces ≡ whole ∷ fraction ∷ [])
      → normalized whole fraction decimals ≡ ok amount
      → IsNormal pieces decimals amount
  unfolding normalized
  normalized-IsNormal pieces number digits cut h = record {
    whole = whole;
    fraction = fraction;
    whole_number = number;
    fraction_digits = digits;
    precision = ground arith;
    fits = ground arith;
    nonzero = ground arith;
    amount_is = ground arith;
    cut = cut;
  }

  -- A normalized amount passes the checks again and is left as it is.
  normalized-again :
      is_number whole ≡ true
      → leb decimals 18 ≡ true
      → leb (size fraction) decimals ≡ true
      → str_eq (strip_start whole) "0" && is_empty (strip_end fraction) ≡ false
      → normalized (strip_start whole) (strip_end fraction) decimals
        ≡ ok (pointed (strip_start whole) (strip_end fraction))
  unfolding normalized
  normalized-again number precision fits nonzero =
      rw (strip_start-is_whole (strip_start whole) (is_whole-strip_start whole number))
        (rw (strip_end-strip_end fraction) (rw nonzero (ground (arith, size-strip_end fraction))))

normalize_pieces-IsNormal :
    (pieces : List String) (decimals : ℕ) (amount : String)
    → normalize_pieces pieces decimals ≡ ok amount
    → IsNormal pieces decimals amount
unfolding normalize_pieces
normalize_pieces-IsNormal [] decimals amount h = ground arith
normalize_pieces-IsNormal (whole ∷ []) decimals amount h =
    normalized-IsNormal whole "" decimals amount (whole ∷ []) (ground arith)
      (unfold all_digits in refl) (inl (refl, refl)) (ground arith)
normalize_pieces-IsNormal (whole ∷ fraction ∷ []) decimals amount h =
    normalized-IsNormal whole fraction decimals amount (whole ∷ fraction ∷ []) (ground arith)
      (ground arith) (inr refl) (ground arith)
normalize_pieces-IsNormal (whole ∷ fraction ∷ more ∷ rest) decimals amount h = ground arith

pub normalize-IsNormal :
    (value : String) (decimals : ℕ) (amount : String)
    → normalize_payment_amount value decimals ≡ ok amount
    → IsNormal (split b'.' (trim value)) decimals amount
unfolding normalize_payment_amount
normalize-IsNormal value decimals amount h =
    normalize_pieces-IsNormal (split b'.' (trim value)) decimals amount h

canonical-pointed_pieces :
    (whole fraction : String)
    → is_whole whole ≡ true
    → all_digits fraction ≡ true
    → (is_empty fraction ≡ false → ends_nonzero fraction ≡ true)
    → canonical_pieces (pointed_pieces whole fraction) ≡ true
unfolding canonical_pieces
canonical-pointed_pieces whole String.[] number digits last = number
canonical-pointed_pieces whole (String.◌∷◌ c s) number digits last =
    rw number (rw digits (last refl))

normalize-pointed_pieces :
    (whole fraction : String) (decimals : ℕ)
    → is_number whole ≡ true
    → all_digits fraction ≡ true
    → normalize_pieces (pointed_pieces whole fraction) decimals ≡ normalized whole fraction decimals
unfolding normalize_pieces
normalize-pointed_pieces whole String.[] decimals number digits = rw number refl
normalize-pointed_pieces whole (String.◌∷◌ c s) decimals number digits = rw number (rw digits refl)

is_number-strip_start : (s : String) → is_number s ≡ true → is_number (strip_start s) ≡ true
is_number-strip_start s h = ground (arith, is_empty-strip_start s, all_digits-strip_start s)

-- What the factory makes of an amount fits the schema's pattern, and normalizing it again, with the
-- same number of decimals, leaves it as it is.
pub normalize_payment_amount-canonical :
    (value : String) (decimals : ℕ) (amount : String)
    → normalize_payment_amount value decimals ≡ ok amount
    → (is_canonical_amount amount ≡ true) × (normalize_payment_amount amount decimals ≡ ok amount)
unfolding is_canonical_amount normalize_payment_amount
normalize_payment_amount-canonical value decimals amount h =
    let n : IsNormal (split b'.' (trim value)) decimals amount =
      normalize-IsNormal value decimals amount h in
    let w = strip_start n.whole in
    let f = strip_end n.fraction in
    let w_number : is_number w ≡ true = is_number-strip_start n.whole n.whole_number in
    let w_digits : all_digits w ≡ true = ground arith in
    let f_digits : all_digits f ≡ true = all_digits-strip_end n.fraction n.fraction_digits in
    let canonical : is_canonical_amount (pointed w f) ≡ true =
      ap canonical_pieces (split-pointed w f w_digits f_digits)
      ∙ canonical-pointed_pieces w f (is_whole-strip_start n.whole n.whole_number) f_digits
          (ends_nonzero-strip_end n.fraction n.fraction_digits) in
    let again : normalize_payment_amount (pointed w f) decimals ≡ ok (pointed w f) =
      ap (λ t. normalize_pieces (split b'.' t) decimals)
        (trim-visible (pointed w f) (is_visible-pointed w f w_digits f_digits))
      ∙ (ap (λ p. normalize_pieces p decimals) (split-pointed w f w_digits f_digits)
          ∙ (normalize-pointed_pieces w f decimals w_number f_digits
              ∙ normalized-again n.whole n.fraction decimals amount n.whole_number n.precision
                  n.fits n.nonzero)) in
    subst (λ a. (is_canonical_amount a ≡ true) × (normalize_payment_amount a decimals ≡ ok a))
      (sym n.amount_is) (canonical, again)
