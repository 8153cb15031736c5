-- ===== src/Base/Decimal/Laws.antt =====
-- What is printed is read, and zeros at the right ends do not count.
use Prim.Native.Nat.{ℕ, zero, suc, ◌+◌, ◌-◌, ◌*◌, ◌/◌, ◌%◌, ◌^◌, ◌≤◌, ◌<◌}
use Prim.Native.Char.{Char, code}
use Prim.Native.String.{String, [], ◌∷◌, ◌++◌}
use mathlib.Core.Path.{◌≡◌, refl, ap, sym, ◌∙◌}
use mathlib.Core.Logic.{inl, inr}
use mathlib.Core.Bool.{true, false, ◌&&◌}
use native.Mathlib.Omega.{arith}
use text.Mathlib.TextLemmas.{nil-append, cons-append}
use text.Mathlib.TextEquality.{Char-path}
use native.Mathlib.Nat.{pow-suc}
use rosa_pay_application.Base.Tests.{ltb, ◌==◌, Bool-cases, ltb→lt, lt→ltb}
use rosa_pay_application.Base.Text.{is_empty}
use rosa_pay_application.Base.Pieces.{is_free}
use rosa_pay_application.Base.Decimal.{
  nought, digit_char, print_within, print, read_after, read, all_digits, size, pad_end, zeros,
  pad_start, strip_end, strip_start,
}

code-digit_char : (n : ℕ) → n < 10 → code (digit_char n) ≡ 48 + n
unfolding digit_char
code-digit_char zero h = refl
code-digit_char (suc zero) h = refl
code-digit_char (suc (suc zero)) h = refl
code-digit_char (suc (suc (suc zero))) h = refl
code-digit_char (suc (suc (suc (suc zero)))) h = refl
code-digit_char (suc (suc (suc (suc (suc zero))))) h = refl
code-digit_char (suc (suc (suc (suc (suc (suc zero)))))) h = refl
code-digit_char (suc (suc (suc (suc (suc (suc (suc zero))))))) h = refl
code-digit_char (suc (suc (suc (suc (suc (suc (suc (suc zero)))))))) h = refl
code-digit_char (suc (suc (suc (suc (suc (suc (suc (suc (suc n))))))))) h = omega arith

read_after-append :
    (value : ℕ) (s t : String) → read_after value (s ++ t) ≡ read_after (read_after value s) t
unfolding read_after
read_after-append value [] t = rw nil-append refl
read_after-append value (c ∷ s) t =
    rw cons-append (read_after-append (value * 10 + (code c - 48)) s t)

all_digits-append : (s t : String) → all_digits (s ++ t) ≡ all_digits s && all_digits t
unfolding all_digits
all_digits-append [] t = rw nil-append refl
all_digits-append (c ∷ s) t = rw cons-append (ground (arith, all_digits-append s t))

size-append : (s t : String) → size (s ++ t) ≡ size s + size t
unfolding size
size-append [] t = rw nil-append (omega arith)
size-append (c ∷ s) t = rw cons-append (omega (arith, size-append s t))

read_after-digit : (value n : ℕ) → n < 10 → read_after value (digit_char n ∷ []) ≡ value * 10 + n
unfolding read_after
read_after-digit value n h = omega (arith, code-digit_char n h)

read-print_within : (fuel n : ℕ) → n < fuel → read_after 0 (print_within fuel n) ≡ n
unfolding print_within
read-print_within zero n h = omega arith
read-print_within (suc fuel) n h = elim (Bool-cases (ltb n 10)) [
  | inl small ↦ rw (small, print_within) (omega (arith, read_after-digit 0 n (ltb→lt n 10 small)))
  | inr large ↦
      rw (large, print_within)
        (read_after-append 0 (print_within fuel (n / 10)) (digit_char (n % 10) ∷ [])
          ∙ (read_after-digit (read_after 0 (print_within fuel (n / 10))) (n % 10) (omega arith)
              ∙ last_step fuel n large h
                  (read-print_within fuel (n / 10) (quotient fuel n large h))))
]
  where
    quotient : (fuel n : ℕ) → ltb n 10 ≡ false → n < suc fuel → n / 10 < fuel
    quotient fuel n large h = ground arith

    last_step :
        (fuel n : ℕ)
        → ltb n 10 ≡ false
        → n < suc fuel
        → read_after 0 (print_within fuel (n / 10)) ≡ n / 10
        → read_after 0 (print_within fuel (n / 10)) * 10 + n % 10 ≡ n
    last_step fuel n large h ih = omega (arith, ih)

-- A number is read back from its digits.
pub read-print : (n : ℕ) → read (print n) ≡ n
unfolding read print
read-print n = read-print_within (suc n) n (omega arith)

all_digits-digit : (n : ℕ) → n < 10 → all_digits (digit_char n ∷ []) ≡ true
unfolding all_digits
all_digits-digit n h = ground (arith, code-digit_char n h)

all_digits-print_within : (fuel n : ℕ) → all_digits (print_within fuel n) ≡ true
unfolding print_within
all_digits-print_within zero n = unfold all_digits in refl
all_digits-print_within (suc fuel) n = elim (Bool-cases (ltb n 10)) [
  | inl small ↦ rw (small, print_within) (all_digits-digit n (ground arith))
  | inr large ↦
      rw (large, print_within)
        (all_digits-append (print_within fuel (n / 10)) (digit_char (n % 10) ∷ [])
          ∙ rw (all_digits-print_within fuel (n / 10)) (all_digits-digit (n % 10) (omega arith)))
]

pub all_digits-print : (n : ℕ) → all_digits (print n) ≡ true
unfolding print
all_digits-print n = all_digits-print_within (suc n) n

is_empty-append_last : (s : String) (c : Char) → is_empty (s ++ (c ∷ [])) ≡ false
is_empty-append_last [] c = rw nil-append refl
is_empty-append_last (d ∷ s) c = rw cons-append refl

pub is_empty-print : (n : ℕ) → is_empty (print n) ≡ false
unfolding print print_within
is_empty-print n = elim (Bool-cases (ltb n 10)) [
  | inl small ↦ rw (small, print, print_within) refl
  | inr large ↦
      rw (large, print, print_within)
        (is_empty-append_last (print_within n (n / 10)) (digit_char (n % 10)))
]

size-digit : (n : ℕ) → size (digit_char n ∷ []) ≡ 1
unfolding size
size-digit n = refl

smaller : (n k : ℕ) → n < 10 ^ suc (suc k) → n / 10 < 10 ^ suc k
smaller n k h = omega (arith, pow-suc 10 (suc k))

-- The digits of a number below a power of ten are not more than its exponent.
size-print_within : (fuel n k : ℕ) → n < 10 ^ suc k → size (print_within fuel n) ≤ suc k
unfolding print_within
size-print_within zero n k h = unfold size in (omega arith)
size-print_within (suc fuel) n zero h =
    rw (lt→ltb n 10 (omega arith), print_within) (omega (arith, size-digit n))
size-print_within (suc fuel) n (suc k) h = elim (Bool-cases (ltb n 10)) [
  | inl small ↦ rw (small, print_within) (omega (arith, size-digit n))
  | inr large ↦
      rw (large, print_within)
        (omega (
          arith,
          size-append (print_within fuel (n / 10)) (digit_char (n % 10) ∷ []),
          size-digit (n % 10),
          size-print_within fuel (n / 10) k (smaller n k h),
        ))
]

pub size-print : (n k : ℕ) → n < 10 ^ suc k → size (print n) ≤ suc k
unfolding print
size-print n k h = size-print_within (suc n) n k h

read_after-zeros : (n : ℕ) (s : String) → read_after 0 (zeros n s) ≡ read_after 0 s
unfolding zeros read_after
read_after-zeros zero s = refl
read_after-zeros (suc n) s = read_after-zeros n s

size-zeros : (n : ℕ) (s : String) → size (zeros n s) ≡ n + size s
unfolding zeros size
size-zeros zero s = omega arith
size-zeros (suc n) s = omega (arith, size-zeros n s)

all_digits-zeros : (n : ℕ) (s : String) → all_digits s ≡ true → all_digits (zeros n s) ≡ true
unfolding zeros all_digits
all_digits-zeros zero s h = h
all_digits-zeros (suc n) s h = all_digits-zeros n s h

pub read-pad_start : (n : ℕ) (s : String) → read (pad_start n s) ≡ read s
unfolding read pad_start
read-pad_start n s = read_after-zeros (n - size s) s

pub size-pad_start : (n : ℕ) (s : String) → size s ≤ n → size (pad_start n s) ≡ n
unfolding pad_start
size-pad_start n s h = omega (arith, size-zeros (n - size s) s)

pub all_digits-pad_start :
    (n : ℕ) (s : String) → all_digits s ≡ true → all_digits (pad_start n s) ≡ true
unfolding pad_start
all_digits-pad_start n s h = all_digits-zeros (n - size s) s h

pub pad_end-full : (s : String) → pad_end (size s) s ≡ s
unfolding pad_end size
pad_end-full [] = refl
pad_end-full (c ∷ s) = ap (λ t. c ∷ t) (pad_end-full s)

pub is_empty-nil : (s : String) → is_empty s ≡ true → s ≡ []
is_empty-nil [] h = refl
is_empty-nil (c ∷ s) h = cc

-- Zeros that are taken off the end are the ones that padding puts there.
pub pad_end-strip_end : (n : ℕ) (s : String) → size s ≤ n → pad_end n (strip_end s) ≡ pad_end n s
unfolding pad_end strip_end size
pad_end-strip_end n [] h = refl
pad_end-strip_end zero (c ∷ s) h = absurd (omega arith)
pad_end-strip_end (suc n) (c ∷ s) h = elim (Bool-cases (code c == 48 && is_empty (strip_end s))) [
  | inr stays ↦ rw stays (ap (λ t. c ∷ t) (pad_end-strip_end n s (omega arith)))
  | inl goes ↦
      let same : nought ≡ c = Char-path nought c (ground arith) in
      let gone : strip_end s ≡ [] = is_empty-nil (strip_end s) (ground arith) in
      rw goes (
        rw same (ap (λ t. c ∷ t) (ap (pad_end n) (sym gone) ∙ pad_end-strip_end n s (omega arith))))
]

pub size-strip_end : (s : String) → size (strip_end s) ≤ size s
unfolding strip_end size
size-strip_end [] = omega arith
size-strip_end (c ∷ s) = ground (arith, size-strip_end s)

pub all_digits-strip_end : (s : String) → all_digits s ≡ true → all_digits (strip_end s) ≡ true
unfolding strip_end all_digits
all_digits-strip_end [] h = refl
all_digits-strip_end (c ∷ s) h = ground (arith, all_digits-strip_end s)

pub read-strip_start : (s : String) → read (strip_start s) ≡ read s
unfolding strip_start read read_after
read-strip_start [] = refl
read-strip_start (c ∷ []) = refl
read-strip_start (c ∷ d ∷ s) = elim (Bool-cases (code c == 48)) [
  | inr kept ↦ rw kept refl
  | inl zero_first ↦
      let start : (0 + (code c - 48)) * 10 + (code d - 48) ≡ 0 + (code d - 48) = ground arith in
      rw zero_first (rw start (read-strip_start (d ∷ s)))
]

pub all_digits-strip_start : (s : String) → all_digits s ≡ true → all_digits (strip_start s) ≡ true
unfolding strip_start all_digits
all_digits-strip_start [] h = refl
all_digits-strip_start (c ∷ []) h = h
all_digits-strip_start (c ∷ d ∷ s) h = ground (arith, all_digits-strip_start (d ∷ s))

pub is_empty-strip_start : (s : String) → is_empty (strip_start s) ≡ is_empty s
unfolding strip_start
is_empty-strip_start [] = refl
is_empty-strip_start (c ∷ []) = refl
is_empty-strip_start (c ∷ d ∷ s) = ground (arith, is_empty-strip_start (d ∷ s))

-- Digits are no point.
pub is_free-all_digits : (s : String) → all_digits s ≡ true → is_free b'.' s ≡ true
unfolding all_digits
is_free-all_digits [] h = refl
is_free-all_digits (c ∷ s) h = ground (arith, is_free-all_digits s)
