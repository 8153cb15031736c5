-- ===== src/Api/Intents/Interleave.antt =====
-- What an `async` method of the service is between its awaits: each repository call may come after
-- writes of other requests. `others` lists those writes, one for each call, and no write where the
-- list has ended.
use rosa_pay_application.Base.{Bool, true, false, List, [], ◌∷◌, Result, ok, err}
use rosa_pay_application.Api.Intents.Records.{ServiceError}
use rosa_pay_application.Api.Intents.Store.{Repo}

pub record World : Type 0 where
  pub repo : Repo
  pub others : List (Repo → Repo)

abbrev pub M : Type 0 → Type 0
M A = World → Result ServiceError A × World

-- The rest of a method after a call that returned or threw.
abbrev pub run_on :
    {A B : Type 0} → (A → M B) → Result ServiceError A → World → Result ServiceError B × World
run_on k (ok a) w = k a w
run_on k (err e) w = (err e, w)

infixl 5 ◌>>=◌ ◌>>◌
unfoldable pub ◌>>=◌ : {A B : Type 0} → M A → (A → M B) → M B
◌>>=◌ m k w = run_on k (m w).0 (m w).1

unfoldable pub ◌>>◌ : {B : Type 0} → M (Unit {0}) → M B → M B
unfolding ◌>>=◌
m >> k = m >>= λ _. k

unfoldable pub pure : {A : Type 0} → A → M A
pure a w = (ok a, w)

unfoldable pub throw : {A : Type 0} → ServiceError → M A
throw e w = (err e, w)

-- `if (!test) throw e`
unfoldable pub require : Bool → ServiceError → M (Unit {0})
require true e w = (ok tt, w)
require false e w = (err e, w)

-- A condition between two ways on.
unfoldable pub branch : {A : Type 0} → Bool → M A → M A → M A
branch true m n = m
branch false m n = n

-- The next write of the others happens.
unfoldable pub interfere : World → World
interfere w = elim w.others [ [] ↦ w | g ∷ rest ↦ record { repo = g w.repo; others = rest } ]

-- `await this.repository.f(…)`
unfoldable pub call : {A : Type 0} → (Repo → A × Repo) → M A
unfolding interfere
call f w = let w' = interfere w in let (a, r) = f w'.repo in (ok a, record w' { repo = r })

unfoldable pub read : {A : Type 0} → (Repo → A) → M A
unfolding call
read f = call (λ r. (f r, r))

unfoldable pub write : (Repo → Repo) → M (Unit {0})
unfolding call
write f = call (λ r. (tt, f r))
