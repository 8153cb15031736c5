-- ===== src/Stellar/Amounts/Stroops.antt =====
-- What `formatStroops` writes, `parseStroops` reads.
use Prim.Native.Char.{char}
use text.Mathlib.TextLemmas.{nil-append, cons-append, append-nil}
use rosa_pay_application.Base.{
  ℕ, suc, ◌+◌, ◌*◌, ◌/◌, ◌%◌, ◌<◌, ◌≤◌, ◌≡◌, refl, ap, sym, ◌∙◌, String, true, false, List, [], ◌∷◌,
  ok, err, le→leb, arith, Bool-cases, inl, inr, ℤ, pos, negsuc,
}
use rosa_pay_application.Base.Text.{is_empty}
use rosa_pay_application.Base.Text.Trimming.{is_visible, trim-visible, is_visible-append}
use rosa_pay_application.Base.Pieces.{split, widen, append, joined, split-free, split-joined}
use rosa_pay_application.Base.Decimal.{
  print, read, read_after, all_digits, is_number, size, pad_end, pad_start, strip_end,
}
use rosa_pay_application.Base.Decimal.Laws.{
  read-print, all_digits-print, is_empty-print, size-print, read-pad_start, size-pad_start,
  all_digits-pad_start, pad_end-full, pad_end-strip_end, size-strip_end, all_digits-strip_end,
  is_free-all_digits, is_empty-nil,
}
use rosa_pay_application.Stellar.Amounts.{
  not_stellar_amount, dotted, format_absolute, format_stroops, parse_pieces, parse_stroops,
}

fraction_of : ℕ → String
fraction_of f = strip_end (pad_start 7 (print f))

read-fraction : (f : ℕ) → f < 10000000 → read (pad_end 7 (fraction_of f)) ≡ f
unfolding fraction_of
read-fraction f h =
    let short : size (print f) ≤ 7 = size-print f 6 (omega (arith, h)) in
    let full : size (pad_start 7 (print f)) ≡ 7 = size-pad_start 7 (print f) short in
    ap read (pad_end-strip_end 7 (pad_start 7 (print f)) (omega (arith, full)))
    ∙ (ap read (
          ap (λ n. pad_end n (pad_start 7 (print f))) (sym full)
          ∙ pad_end-full (pad_start 7 (print f)))
        ∙ (read-pad_start 7 (print f) ∙ read-print f))

all_digits-fraction_of : (f : ℕ) → all_digits (fraction_of f) ≡ true
unfolding fraction_of
all_digits-fraction_of f =
    all_digits-strip_end (pad_start 7 (print f))
      (all_digits-pad_start 7 (print f) (all_digits-print f))

size-fraction_of : (f : ℕ) → f < 10000000 → size (fraction_of f) ≤ 7
unfolding fraction_of
size-fraction_of f h = omega (
  arith,
  size-strip_end (pad_start 7 (print f)),
  size-pad_start 7 (print f) (size-print f 6 (omega (arith, h))),
)

is_visible-all_digits : (s : String) → all_digits s ≡ true → is_visible s ≡ true
unfolding all_digits is_visible
is_visible-all_digits String.[] h = refl
is_visible-all_digits (String.◌∷◌ c s) h = ground (arith, is_visible-all_digits s)

-- What a whole part and a fraction are written as.
abbrev written : ℕ → String → String
written w fraction = append (print w) (dotted fraction)

written-empty : (w : ℕ) → written w "" ≡ print w
written-empty w = append-nil (print w)

written-dotted :
    (w : ℕ) (fraction : String)
    → is_empty fraction ≡ false
    → written w fraction ≡ joined (char 46 tt) (print w) fraction
written-dotted w String.[] h = cc
written-dotted w (String.◌∷◌ c s) h =
    ap (λ t. append (print w) t)
      (cons-append (char 46 tt) "" (String.◌∷◌ c s)
        ∙ ap (λ t. String.◌∷◌ (char 46 tt) t) (nil-append (String.◌∷◌ c s)))

is_visible-print : (w : ℕ) → is_visible (print w) ≡ true
is_visible-print w = is_visible-all_digits (print w) (all_digits-print w)

is_visible-point :
    (s : String) → is_visible s ≡ true → is_visible (String.◌∷◌ (char 46 tt) s) ≡ true
unfolding is_visible
is_visible-point s h = h

is_number-print : (w : ℕ) → is_number (print w) ≡ true
is_number-print w = rw (is_empty-print w) (all_digits-print w)

parse-whole : (w : ℕ) → parse_stroops (print w) ≡ ok (w * 10000000 + 0)
unfolding parse_stroops parse_pieces read read_after pad_end
parse-whole w = rw (trim-visible (print w) (is_visible-print w)) (
    rw (split-free b'.' (print w) (is_free-all_digits (print w) (all_digits-print w)), parse_pieces)
      (rw (is_number-print w) (rw (read-print w) refl)))

parse-dotted :
    (w : ℕ) (fraction : String)
    → is_number fraction ≡ true
    → size fraction ≤ 7
    → parse_stroops (joined (char 46 tt) (print w) fraction)
      ≡ ok (w * 10000000 + read (pad_end 7 fraction))
unfolding parse_stroops parse_pieces read read_after pad_end
parse-dotted w fraction number short =
    let digits : all_digits fraction ≡ true = ground arith in
    let text = joined (char 46 tt) (print w) fraction in
    let visible : is_visible text ≡ true =
      is_visible-append (print w) (String.◌∷◌ (char 46 tt) fraction) (is_visible-print w)
        (is_visible-point fraction (is_visible-all_digits fraction digits)) in
    let cut : split b'.' text ≡ print w ∷ fraction ∷ [] =
      split-joined (char 46 tt) (print w) fraction
        (is_free-all_digits (print w) (all_digits-print w)) (is_free-all_digits fraction digits) in
    rw (trim-visible text visible) (
      rw (cut, parse_pieces)
        (rw (is_number-print w)
          (rw number (rw (le→leb (size fraction) 7 short) (rw (read-print w) refl)))))

parse-written :
    (w : ℕ) (fraction : String)
    → all_digits fraction ≡ true
    → size fraction ≤ 7
    → parse_stroops (written w fraction) ≡ ok (w * 10000000 + read (pad_end 7 fraction))
unfolding read read_after pad_end
parse-written w fraction digits short = elim (Bool-cases (is_empty fraction)) [
  | inl blank ↦ rw (is_empty-nil fraction blank) (rw (written-empty w) (parse-whole w))
  | inr some_digits ↦
      rw (written-dotted w fraction some_digits)
        (parse-dotted w fraction (rw some_digits digits) short)
]

parse-format_absolute : (n : ℕ) → parse_stroops (format_absolute n) ≡ ok n
unfolding format_absolute fraction_of
parse-format_absolute n =
    let small : n % 10000000 < 10000000 = omega arith in
    parse-written (n / 10000000) (fraction_of (n % 10000000))
      (all_digits-fraction_of (n % 10000000)) (size-fraction_of (n % 10000000) small)
    ∙ ap ok (omega (arith, read-fraction (n % 10000000) small))

-- A text whose first piece starts with a minus sign is refused.
parse-widen_minus :
    (pieces : List String) → parse_pieces (widen (char 45 tt) pieces) ≡ err not_stellar_amount
unfolding parse_pieces all_digits
parse-widen_minus [] = refl
parse-widen_minus (whole ∷ []) = refl
parse-widen_minus (whole ∷ fraction ∷ []) = refl
parse-widen_minus (whole ∷ fraction ∷ more ∷ rest) = refl

parse-minus :
    (s : String)
    → is_visible s ≡ true
    → parse_stroops (String.◌∷◌ (char 45 tt) s) ≡ err not_stellar_amount
unfolding parse_stroops split is_visible
parse-minus s visible =
    rw (trim-visible (String.◌∷◌ (char 45 tt) s) visible) (parse-widen_minus (split b'.' s))

parse-signed :
    (s : String) → is_visible s ≡ true → parse_stroops (append "-" s) ≡ err not_stellar_amount
parse-signed s visible =
    ap parse_stroops
      (cons-append (char 45 tt) "" s ∙ ap (λ t. String.◌∷◌ (char 45 tt) t) (nil-append s))
    ∙ parse-minus s visible

is_visible-dotted :
    (fraction : String) → all_digits fraction ≡ true → is_visible (dotted fraction) ≡ true
unfolding is_visible
is_visible-dotted String.[] h = refl
is_visible-dotted (String.◌∷◌ c s) h =
    is_visible-append "." (String.◌∷◌ c s) refl (is_visible-all_digits (String.◌∷◌ c s) h)

is_visible-format_absolute : (n : ℕ) → is_visible (format_absolute n) ≡ true
unfolding format_absolute fraction_of
is_visible-format_absolute n =
    is_visible-append (print (n / 10000000)) (dotted (fraction_of (n % 10000000)))
      (is_visible-print (n / 10000000))
      (is_visible-dotted (fraction_of (n % 10000000)) (all_digits-fraction_of (n % 10000000)))

-- Stroops that are not negative are read back from the text that they are shown as; the text of a
-- negative number is refused, as not an amount.
pub parse_stroops-format_stroops :
    (z : ℤ)
    → parse_stroops (format_stroops z) ≡ elim z [ pos n ↦ ok n | negsuc n ↦ err not_stellar_amount ]
unfolding format_stroops
parse_stroops-format_stroops (pos n) = parse-format_absolute n
parse_stroops-format_stroops (negsuc n) =
    parse-signed (format_absolute (suc n)) (is_visible-format_absolute (suc n))
