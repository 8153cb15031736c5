-- ===== src/Base/Pieces.antt =====
-- Texts cut at a separator and put together, and bytes as hexadecimal digits.
use Prim.Native.Nat.{ℕ, zero, suc, ◌/◌, ◌%◌}
use Prim.Native.Char.{Char, code}
use Prim.Native.String.{String, [], ◌∷◌, ◌++◌}
use mathlib.Core.Path.{◌≡◌, refl}
use mathlib.Core.Bool.{Bool, true, false}
use mathlib.Core.List.{List}
use native.Mathlib.Omega.{arith}
use text.Mathlib.TextLemmas.{nil-append, cons-append}
use rosa_pay_application.Base.Tests.{◌==◌, if◌then◌else◌}

-- The first piece of a text that is cut further, with one more character in front.
abbrev pub widen : Char → List String → List String
widen c List.[] = List.◌∷◌ (c ∷ []) List.[]
widen c (List.◌∷◌ piece rest) = List.◌∷◌ (c ∷ piece) rest

-- `text.split(separator)`, the separator a single character.
unfoldable pub split : ℕ → String → List String
split separator [] = List.◌∷◌ [] List.[]
split separator (c ∷ s) =
    let rest = split separator s in if code c == separator then List.◌∷◌ [] rest else widen c rest

-- The separator is nowhere in the text.
abbrev pub is_free : ℕ → String → Bool
is_free separator [] = true
is_free separator (c ∷ s) =
    let rest = is_free separator s in if code c == separator then false else rest

-- The template literal of two texts with one character between them.
abbrev pub joined : Char → String → String → String
joined dot s t = s ++ (dot ∷ t)

abbrev pub append : String → String → String
append s t = s ++ t

abbrev characters : String → List String
characters [] = List.[]
characters (c ∷ s) = List.◌∷◌ (c ∷ []) (characters s)

abbrev pick : ℕ → List String → String
pick n List.[] = []
pick zero (List.◌∷◌ d rest) = d
pick (suc n) (List.◌∷◌ d rest) = pick n rest

unfoldable pub hex_digit : ℕ → String
hex_digit n = pick n (characters "0123456789abcdef")

-- `toString('hex')`
unfoldable pub hex : List ℕ → String
unfolding hex_digit
hex List.[] = []
hex (List.◌∷◌ b rest) = hex_digit (b / 16) ++ (hex_digit (b % 16) ++ hex rest)

pub split-free :
    (separator : ℕ) (s : String)
    → is_free separator s ≡ true
    → split separator s ≡ List.◌∷◌ s List.[]
unfolding split
split-free separator [] h = refl
split-free separator (c ∷ s) h = ground (arith, split-free separator s)

-- A separator between two texts without it is where they are cut.
pub split-joined :
    (dot : Char) (s t : String)
    → is_free (code dot) s ≡ true
    → is_free (code dot) t ≡ true
    → split (code dot) (joined dot s t) ≡ List.◌∷◌ s (List.◌∷◌ t List.[])
unfolding split
split-joined dot [] t h k = rw nil-append (ground (arith, split-free (code dot) t k))
split-joined dot (c ∷ s) t h k = rw cons-append (ground (arith, split-joined dot s t))
