-- ===== src/Api/Intents/Rely.antt =====
-- Rely and guarantee for the monad of `Interleave`: if the writes of the other requests keep to a
-- relation on the store, and so does each write of a method, then so does the whole method, however
-- the others' writes fall between its awaits.
use rosa_pay_application.Base.{Bool, true, false, ◌≡◌, refl, List, [], ◌∷◌, Result, ok, err, All}
use rosa_pay_application.Api.Intents.Records.{ServiceError}
use rosa_pay_application.Api.Intents.Store.{Repo}
use rosa_pay_application.Api.Intents.Interleave.{
  World, M, ◌>>=◌, ◌>>◌, pure, throw, require, interfere, run_on, branch, call, read, write,
}

module _ (R : Repo → Repo → Type 0) where
  -- Each of the writes keeps to the relation.
  abbrev pub Respects : List (Repo → Repo) → Type 0
  Respects gs = All (λ g. (r : Repo) → R r (g r)) gs

-- From any store, a method leaves one that is related to it, and the rest of the others' writes.
pub record Guarantees (R : Repo → Repo → Type 0) {A : Type 0} (m : M A) : Type 0 where
  pub holds : (w : World) → Respects R w.others → R w.repo (m w).1.repo × Respects R (m w).1.others

-- The relation is one of elapsing time.
pub record IsProgress (R : Repo → Repo → Type 0) : Type 0 where
  pub still : (r : Repo) → R r r
  pub onward : (r s t : Repo) → R r s → R s t → R r t

module _ (R : Repo → Repo → Type 0) (progress : IsProgress R) where
  pub Guarantees-pure : {A : Type 0} (a : A) → Guarantees R (pure a)
  unfolding pure
  Guarantees-pure a = record { holds = λ w h. (progress.still w.repo, h) }

  pub Guarantees-throw : {A : Type 0} (e : ServiceError) → Guarantees R {A = A} (throw e)
  unfolding throw
  Guarantees-throw e = record { holds = λ w h. (progress.still w.repo, h) }

  pub Guarantees-require : (b : Bool) (e : ServiceError) → Guarantees R (require b e)
  unfolding require
  Guarantees-require true e = record { holds = λ w h. (progress.still w.repo, h) }
  Guarantees-require false e = record { holds = λ w h. (progress.still w.repo, h) }

  after_result :
      {A B : Type 0} (k : A → M B) (r : Repo) (x : Result ServiceError A) (w : World)
      → R r w.repo
      → Respects R w.others
      → ((a : A) → Guarantees R (k a))
      → let out = run_on k x w in R r out.1.repo × Respects R out.1.others
  after_result k r (ok a) w p h g =
      let (q, h') = (g a).holds w h in (progress.onward r w.repo _ p q, h')
  after_result k r (err e) w p h g = (p, h)

  pub Guarantees-bind :
      {A B : Type 0} {m : M A} {k : A → M B}
      → Guarantees R m
      → ((a : A) → Guarantees R (k a))
      → Guarantees R (m >>= k)
  unfolding ◌>>=◌
  Guarantees-bind {m} {k} g gk = record {
    holds = λ w h. let (p, h') = g.holds w h in after_result k w.repo (m w).0 (m w).1 p h' gk;
  }

  pub Guarantees-then :
      {B : Type 0} {m : M (Unit {0})} {k : M B}
      → Guarantees R m
      → Guarantees R k
      → Guarantees R (m >> k)
  unfolding ◌>>◌
  Guarantees-then g gk = Guarantees-bind g (λ _. gk)

  pub Guarantees-branch :
      {A : Type 0} {b : Bool} {x y : M A}
      → (b ≡ true → Guarantees R x)
      → (b ≡ false → Guarantees R y)
      → Guarantees R (branch b x y)
  unfolding branch
  Guarantees-branch {b = true} g k = g refl
  Guarantees-branch {b = false} g k = k refl

  after_others :
      (gs : List (Repo → Repo)) (r : Repo)
      → Respects R gs
      → let w = interfere (record { repo = r; others = gs }) in R r w.repo × Respects R w.others
  unfolding interfere
  after_others [] r h = (progress.still r, tt)
  after_others (g ∷ gs) r (p, h) = (p r, h)

  pub Guarantees-call :
      {A : Type 0} (f : Repo → A × Repo) → ((r : Repo) → R r (f r).1) → Guarantees R (call f)
  unfolding call
  Guarantees-call f g = record {
    holds = λ w h.
        let (p, h') = after_others w.others w.repo h in
        (progress.onward w.repo (interfere w).repo _ p (g (interfere w).repo), h');
  }

  pub Guarantees-read : {A : Type 0} (f : Repo → A) → Guarantees R (read f)
  unfolding read
  Guarantees-read f = Guarantees-call (λ r. (f r, r)) (λ r. progress.still r)

  pub Guarantees-write : (f : Repo → Repo) → ((r : Repo) → R r (f r)) → Guarantees R (write f)
  unfolding write
  Guarantees-write f g = Guarantees-call (λ r. (tt, f r)) g
