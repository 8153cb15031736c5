-- ===== src/Base/Text/Trimming.antt =====
-- Texts without white space, which `trim` leaves alone.
use Prim.Native.Nat.{ℕ}
use Prim.Native.Char.{Char, code}
use Prim.Native.String.{String, [], ◌∷◌, ◌++◌}
use mathlib.Core.Path.{◌≡◌, refl, ap, ◌∙◌}
use mathlib.Core.Bool.{Bool, true, false, not, ◌&&◌}
use native.Mathlib.Omega.{arith}
use text.Mathlib.TextLemmas.{nil-append, cons-append}
use mathlib.Core.Logic.{inl, inr}
use rosa_pay_application.Base.Tests.{Bool-cases, leb}
use rosa_pay_application.Base.Text.{is_space, trim_start, trim_end, trim_last, trim}

-- Every character is visible ASCII.
unfoldable pub is_visible : String → Bool
is_visible [] = true
is_visible (c ∷ s) = (leb 33 (code c) && leb (code c) 126) && is_visible s

is_space-visible : (c : ℕ) → leb 33 c && leb c 126 ≡ true → is_space c ≡ false
unfolding is_space
is_space-visible c h = ground arith

trim_start-visible : (s : String) → is_visible s ≡ true → trim_start s ≡ s
unfolding trim_start is_visible
trim_start-visible [] h = refl
trim_start-visible (c ∷ s) h = ground (arith, is_space-visible (code c))

trim_last-visible : (c : Char) (s : String) → is_space (code c) ≡ false → trim_last c s ≡ c ∷ s
trim_last-visible c [] h = rw h refl
trim_last-visible c (d ∷ s) h = refl

trim_end-visible : (s : String) → is_visible s ≡ true → trim_end s ≡ s
unfolding trim_end is_visible
trim_end-visible [] h = refl
trim_end-visible (c ∷ s) h =
    rw (trim_end-visible s (ground arith))
      (trim_last-visible c s (is_space-visible (code c) (ground arith)))

pub trim-visible : (s : String) → is_visible s ≡ true → trim s ≡ s
unfolding trim
trim-visible s h = rw (trim_start-visible s h) (trim_end-visible s h)

pub is_visible-append :
    (s t : String) → is_visible s ≡ true → is_visible t ≡ true → is_visible (s ++ t) ≡ true
unfolding is_visible
is_visible-append [] t h k = rw nil-append k
is_visible-append (c ∷ s) t h k = rw cons-append (ground (arith, is_visible-append s t))

-- Nothing that `trim_start` would take off stands first.
abbrev is_tight : String → Bool
is_tight [] = true
is_tight (c ∷ s) = not (is_space (code c))

trim_start-is_tight : (s : String) → is_tight s ≡ true → trim_start s ≡ s
unfolding trim_start
trim_start-is_tight [] h = refl
trim_start-is_tight (c ∷ s) h = ground arith

is_tight-trim_start : (s : String) → is_tight (trim_start s) ≡ true
unfolding trim_start
is_tight-trim_start [] = refl
is_tight-trim_start (c ∷ s) = ground (arith, is_tight-trim_start s)

is_tight-trim_last :
    (c : Char) (s : String) → not (is_space (code c)) ≡ true → is_tight (trim_last c s) ≡ true
is_tight-trim_last c [] h = ground arith
is_tight-trim_last c (d ∷ s) h = h

is_tight-trim_end : (s : String) → is_tight s ≡ true → is_tight (trim_end s) ≡ true
unfolding trim_end
is_tight-trim_end [] h = refl
is_tight-trim_end (c ∷ s) h = is_tight-trim_last c (trim_end s) h

trim_end-trim_last :
    (c : Char) (s : String) → trim_end s ≡ s → trim_end (trim_last c s) ≡ trim_last c s
unfolding trim_end
trim_end-trim_last c [] h = elim (Bool-cases (is_space (code c))) [
  | inl space ↦ rw (space, trim_end) refl
  | inr visible ↦ rw (visible, trim_end) (rw visible refl)
]
trim_end-trim_last c (d ∷ s) h = ap (trim_last c) h

trim_end-trim_end : (s : String) → trim_end (trim_end s) ≡ trim_end s
unfolding trim_end
trim_end-trim_end [] = refl
trim_end-trim_end (c ∷ s) = trim_end-trim_last c (trim_end s) (trim_end-trim_end s)

pub trim-trim : (s : String) → trim (trim s) ≡ trim s
unfolding trim
trim-trim s =
    ap trim_end (
      trim_start-is_tight (trim_end (trim_start s))
        (is_tight-trim_end (trim_start s) (is_tight-trim_start s)))
    ∙ trim_end-trim_end (trim_start s)
