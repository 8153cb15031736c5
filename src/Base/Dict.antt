-- ===== src/Base/Dict.antt =====
-- A JavaScript `Map` with string keys: entries in insertion order, a write to a present key in place.
use Prim.Native.String.{String}
use mathlib.Core.Path.{◌≡◌, refl}
use mathlib.Core.Bool.{Bool, false}
use mathlib.Core.Option.{Option, none, some}
use mathlib.Core.List.{List, [], ◌∷◌}
use native.Mathlib.Omega.{arith}
use text.Mathlib.Text.{◌==◌}
use text.Mathlib.TextEquality.{eq_iff}
use rosa_pay_application.Base.Tests.{if◌then◌else◌}

abbrev pub Dict {ℓ} : Type ℓ → Type ℓ
Dict V = List (String × V)

module _ {ℓ} {V : Type ℓ} where
  unfoldable pub get : String → Dict V → Option V
  get k [] = none
  get k ((j, v) ∷ m) = if j == k then some v else get k m

  unfoldable pub put : String → V → Dict V → Dict V
  put k v [] = (k, v) ∷ []
  put k v ((j, w) ∷ m) = if j == k then (k, v) ∷ m else (j, w) ∷ put k v m

  -- Every entry whose value passes the test goes, as a `for` over the map with `delete`.
  unfoldable pub purge : (V → Bool) → Dict V → Dict V
  purge p [] = []
  purge p ((j, w) ∷ m) = if p w then purge p m else (j, w) ∷ purge p m

  -- `delete`; a map has a key once, so no entry behind the first one is looked at.
  unfoldable pub delete : String → Dict V → Dict V
  delete k [] = []
  delete k ((j, w) ∷ m) = if j == k then delete k m else (j, w) ∷ delete k m

  abbrev pub values : Dict V → List V
  values [] = []
  values ((j, w) ∷ m) = w ∷ values m

  pub get-put :
      (k j : String) (v : V) (m : Dict V) → get j (put k v m) ≡ (if k == j then some v else get j m)
  unfolding get put
  get-put k j v [] = refl
  get-put k j v ((i, w) ∷ m) = ground (arith, eq_iff k j, eq_iff i k, eq_iff i j, get-put k j v m)

  pub get-delete :
      (k j : String) (m : Dict V) → get j (delete k m) ≡ (if k == j then none else get j m)
  unfolding get delete
  get-delete k j [] = ground arith
  get-delete k j ((i, w) ∷ m) = ground (arith, eq_iff k j, eq_iff i k, eq_iff i j, get-delete k j m)

  -- What is read under a key survives a purge that does not select it.
  pub get-purge_kept :
      (p : V → Bool) (k : String) (v : V) (m : Dict V)
      → get k m ≡ some v
      → p v ≡ false
      → get k (purge p m) ≡ some v
  unfolding get purge
  get-purge_kept p k v [] h q = h
  get-purge_kept p k v ((i, w) ∷ m) h q = ground (arith, get-purge_kept p k v m)
