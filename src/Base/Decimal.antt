-- ===== src/Base/Decimal.antt =====
-- Decimal digits in a text: printing and reading numbers, zeros put before or behind.
pub mod Laws
pub mod Points
use Prim.Native.Nat.{ℕ, zero, suc, ◌+◌, ◌-◌, ◌*◌, ◌/◌, ◌%◌}
use Prim.Native.Char.{Char, char, code}
use Prim.Native.String.{String, [], ◌∷◌, ◌++◌}
use mathlib.Core.Bool.{Bool, true, false, not, ◌&&◌}
use rosa_pay_application.Base.Tests.{ltb, ◌==◌, if◌then◌else◌}
use rosa_pay_application.Base.Text.{is_digit, is_empty}

abbrev pub nought : Char
nought = char 48 tt

-- The character of a digit; of a greater number it is that of 9.
unfoldable pub digit_char : ℕ → Char
digit_char zero = char 48 tt
digit_char (suc zero) = char 49 tt
digit_char (suc (suc zero)) = char 50 tt
digit_char (suc (suc (suc zero))) = char 51 tt
digit_char (suc (suc (suc (suc zero)))) = char 52 tt
digit_char (suc (suc (suc (suc (suc zero))))) = char 53 tt
digit_char (suc (suc (suc (suc (suc (suc zero)))))) = char 54 tt
digit_char (suc (suc (suc (suc (suc (suc (suc zero))))))) = char 55 tt
digit_char (suc (suc (suc (suc (suc (suc (suc (suc zero)))))))) = char 56 tt
digit_char (suc (suc (suc (suc (suc (suc (suc (suc (suc n))))))))) = char 57 tt

-- The digits of a number, of which the fuel bounds how many there are.
unfoldable pub print_within : ℕ → ℕ → String
print_within zero n = []
print_within (suc fuel) n = elim (ltb n 10) [
  | true ↦ digit_char n ∷ []
  | false ↦ print_within fuel (n / 10) ++ (digit_char (n % 10) ∷ [])
]

-- `n.toString()`; a number has not more digits than one more than itself.
unfoldable pub print : ℕ → String
print n = print_within (suc n) n

-- `BigInt(text)` of a text of digits, behind the digits that have been read.
unfoldable pub read_after : ℕ → String → ℕ
read_after value [] = value
read_after value (c ∷ s) = read_after (value * 10 + (code c - 48)) s

unfoldable pub read : String → ℕ
read s = read_after 0 s

-- `/^\d*$/`
unfoldable pub all_digits : String → Bool
all_digits [] = true
all_digits (c ∷ s) = is_digit (code c) && all_digits s

-- `/^\d+$/`
abbrev pub is_number : String → Bool
is_number s = not (is_empty s) && all_digits s

-- `text.length`, of a text of ASCII.
unfoldable pub size : String → ℕ
size [] = 0
size (c ∷ s) = suc (size s)

-- `text.padEnd(n, '0')`
unfoldable pub pad_end : ℕ → String → String
pad_end zero s = s
pad_end (suc n) [] = nought ∷ pad_end n []
pad_end (suc n) (c ∷ s) = c ∷ pad_end n s

unfoldable pub zeros : ℕ → String → String
zeros zero s = s
zeros (suc n) s = nought ∷ zeros n s

-- `text.padStart(n, '0')`
unfoldable pub pad_start : ℕ → String → String
pad_start n s = zeros (n - size s) s

-- `text.replace(/0+$/, '')`
unfoldable pub strip_end : String → String
strip_end [] = []
strip_end (c ∷ s) = let rest = strip_end s in if code c == 48 && is_empty rest then [] else c ∷ rest

-- `text.replace(/^0+(?=\d)/, '')`, of a text of digits.
unfoldable pub strip_start : String → String
strip_start [] = []
strip_start (c ∷ []) = c ∷ []
strip_start (c ∷ d ∷ s) = let rest = strip_start (d ∷ s) in if code c == 48 then rest else c ∷ d ∷ s

-- `/[1-9]$/`
unfoldable pub ends_nonzero : String → Bool
ends_nonzero [] = false
ends_nonzero (c ∷ []) = is_digit (code c) && not (code c == 48)
ends_nonzero (c ∷ d ∷ s) = ends_nonzero (d ∷ s)

-- `/^(0|[1-9]\d*)$/`
unfoldable pub is_whole : String → Bool
is_whole [] = false
is_whole (c ∷ []) = is_digit (code c)
is_whole (c ∷ d ∷ s) = is_digit (code c) && not (code c == 48) && all_digits (d ∷ s)
