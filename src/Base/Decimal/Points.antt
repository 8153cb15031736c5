-- ===== src/Base/Decimal/Points.antt =====
-- Decimals written with a point: a whole part and, if there is one, a fraction.
use Prim.Native.Char.{Char, char, code}
use Prim.Native.String.{String, [], ◌∷◌}
use mathlib.Core.Path.{◌≡◌, refl}
use mathlib.Core.Logic.{inl, inr}
use mathlib.Core.Bool.{true, false, not, ◌&&◌}
use mathlib.Core.List.{List}
use native.Mathlib.Omega.{arith}
use rosa_pay_application.Base.Tests.{◌==◌, Bool-cases}
use rosa_pay_application.Base.Text.{is_digit, is_empty}
use rosa_pay_application.Base.Text.Trimming.{is_visible, is_visible-append}
use rosa_pay_application.Base.Pieces.{split, joined, split-free, split-joined}
use rosa_pay_application.Base.Decimal.{
  all_digits, is_number, strip_end, strip_start, ends_nonzero, is_whole,
}
use rosa_pay_application.Base.Decimal.Laws.{is_free-all_digits}

-- `fraction ? `${whole}.${fraction}` : whole`
abbrev pub pointed : String → String → String
pointed whole fraction = elim (is_empty fraction) [
  | true ↦ whole
  | false ↦ joined (char 46 tt) whole fraction
]

abbrev pub pointed_pieces : String → String → List String
pointed_pieces whole fraction = elim (is_empty fraction) [
  | true ↦ List.◌∷◌ whole List.[]
  | false ↦ List.◌∷◌ whole (List.◌∷◌ fraction List.[])
]

pub split-pointed :
    (whole fraction : String)
    → all_digits whole ≡ true
    → all_digits fraction ≡ true
    → split b'.' (pointed whole fraction) ≡ pointed_pieces whole fraction
split-pointed whole [] w f = split-free b'.' whole (is_free-all_digits whole w)
split-pointed whole (c ∷ s) w f =
    split-joined (char 46 tt) whole (c ∷ s) (is_free-all_digits whole w)
      (is_free-all_digits (c ∷ s) f)

pub is_visible-all_digits : (s : String) → all_digits s ≡ true → is_visible s ≡ true
unfolding all_digits is_visible
is_visible-all_digits [] h = refl
is_visible-all_digits (c ∷ s) h = ground (arith, is_visible-all_digits s)

pub is_visible-pointed :
    (whole fraction : String)
    → all_digits whole ≡ true
    → all_digits fraction ≡ true
    → is_visible (pointed whole fraction) ≡ true
is_visible-pointed whole [] w f = is_visible-all_digits whole w
is_visible-pointed whole (c ∷ s) w f =
    is_visible-append whole (char 46 tt ∷ c ∷ s) (is_visible-all_digits whole w)
      (unfold is_visible in is_visible-all_digits (c ∷ s) f)

pub is_whole-strip_start : (s : String) → is_number s ≡ true → is_whole (strip_start s) ≡ true
unfolding is_whole strip_start all_digits
is_whole-strip_start [] h = h
is_whole-strip_start (c ∷ []) h = ground arith
is_whole-strip_start (c ∷ d ∷ s) h = ground (arith, is_whole-strip_start (d ∷ s))

ends_nonzero-cons :
    (c : Char) (s : String) → is_empty s ≡ false → ends_nonzero (c ∷ s) ≡ ends_nonzero s
unfolding ends_nonzero
ends_nonzero-cons c [] h = ground arith
ends_nonzero-cons c (d ∷ s) h = refl

ends_nonzero-single :
    (c : Char) (s : String)
    → is_empty s ≡ true
    → ends_nonzero (c ∷ s) ≡ is_digit (code c) && not (code c == 48)
unfolding ends_nonzero
ends_nonzero-single c [] h = refl
ends_nonzero-single c (d ∷ s) h = ground arith

pub ends_nonzero-strip_end :
    (s : String)
    → all_digits s ≡ true
    → is_empty (strip_end s) ≡ false
    → ends_nonzero (strip_end s) ≡ true
unfolding strip_end all_digits
ends_nonzero-strip_end [] h k = ground arith
ends_nonzero-strip_end (c ∷ s) h k = ground (
  arith,
  ends_nonzero-strip_end s,
  ends_nonzero-cons c (strip_end s),
  ends_nonzero-single c (strip_end s),
)

pub strip_start-is_whole : (s : String) → is_whole s ≡ true → strip_start s ≡ s
unfolding is_whole strip_start
strip_start-is_whole [] h = refl
strip_start-is_whole (c ∷ []) h = refl
strip_start-is_whole (c ∷ d ∷ s) h = ground arith

pub strip_end-strip_end : (s : String) → strip_end (strip_end s) ≡ strip_end s
unfolding strip_end
strip_end-strip_end [] = refl
strip_end-strip_end (c ∷ s) = elim (Bool-cases (code c == 48 && is_empty (strip_end s))) [
  | inl goes ↦ rw goes refl
  | inr stays ↦ rw (stays, strip_end) (rw (strip_end-strip_end s) (rw stays refl))
]
