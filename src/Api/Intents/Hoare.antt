-- ===== src/Api/Intents/Hoare.antt =====
-- Pre- and postconditions on the store for methods that other requests may interrupt. A condition
-- that is kept across an await must be stable under the relation that the others' writes keep to.
use rosa_pay_application.Base.{Bool, true, false, ◌≡◌, refl, List, [], ◌∷◌, Result, ok, err}
use rosa_pay_application.Api.Intents.Records.{ServiceError}
use rosa_pay_application.Api.Intents.Store.{Repo}
use rosa_pay_application.Api.Intents.Interleave.{
  World, M, ◌>>=◌, ◌>>◌, pure, throw, require, branch, interfere, run_on, call, read, write,
}
use rosa_pay_application.Api.Intents.Rely.{Respects}

-- A method that returns leaves the postcondition of its value; one that throws promises nothing.
abbrev pub Returns : {A : Type 0} → (A → Repo → Type 0) → Result ServiceError A → Repo → Type 0
Returns Post (ok a) r = Post a r
Returns Post (err e) r = Unit

module _ (R : Repo → Repo → Type 0) where
  pub record Triple {A : Type 0} (Pre : Repo → Type 0) (m : M A) (Post : A → Repo → Type 0)
      : Type 0 where
    pub holds :
        (w : World)
        → Respects R w.others
        → Pre w.repo
        → Returns Post (m w).0 (m w).1.repo × Respects R (m w).1.others

  abbrev pub IsStable : (Repo → Type 0) → Type 0
  IsStable P = (r s : Repo) → R r s → P r → P s

  after_others :
      {Pre : Repo → Type 0} (gs : List (Repo → Repo)) (r : Repo)
      → IsStable Pre
      → Respects R gs
      → Pre r
      → let w = interfere (record { repo = r; others = gs }) in Pre w.repo × Respects R w.others
  unfolding interfere
  after_others [] r stable rely p = (p, rely)
  after_others (g ∷ gs) r stable (h, rely) p = (stable r (g r) (h r) p, rely)

  after_result :
      {A B : Type 0} {Post : A → Repo → Type 0} {After : B → Repo → Type 0} (k : A → M B)
      (x : Result ServiceError A) (w : World)
      → Returns Post x w.repo
      → Respects R w.others
      → ((a : A) → Triple (Post a) (k a) After)
      → Returns After (run_on k x w).0 (run_on k x w).1.repo × Respects R (run_on k x w).1.others
  after_result k (ok a) w p rely h = (h a).holds w rely p
  after_result k (err e) w p rely h = (tt, rely)

  module _ {A : Type 0} {Pre : Repo → Type 0} {Post : A → Repo → Type 0} where
    pub Triple-pure : (a : A) → ((r : Repo) → Pre r → Post a r) → Triple Pre (pure a) Post
    unfolding pure
    Triple-pure a h = record { holds = λ w rely p. (h w.repo p, rely) }

    pub Triple-throw : (e : ServiceError) → Triple Pre (throw {A = A} e) Post
    unfolding throw
    Triple-throw e = record { holds = λ w rely p. (tt, rely) }

    pub Triple-branch :
        {b : Bool} {m n : M A}
        → (b ≡ true → Triple Pre m Post)
        → (b ≡ false → Triple Pre n Post)
        → Triple Pre (branch b m n) Post
    unfolding branch
    Triple-branch {b = true} h k = h refl
    Triple-branch {b = false} h k = k refl

    pub Triple-call :
        (f : Repo → A × Repo)
        → IsStable Pre
        → ((r : Repo) → Pre r → Post (f r).0 (f r).1)
        → Triple Pre (call f) Post
    unfolding call
    Triple-call f stable h = record {
      holds = λ w rely p.
          let (p', rely') = after_others w.others w.repo stable rely p in
          (h (interfere w).repo p', rely');
    }

    pub Triple-bind :
        {B : Type 0} {After : B → Repo → Type 0} {m : M A} {k : A → M B}
        → Triple Pre m Post
        → ((a : A) → Triple (Post a) (k a) After)
        → Triple Pre (m >>= k) After
    unfolding ◌>>=◌
    Triple-bind {m} {k} g h = record {
      holds =
          λ w rely p. let (q, rely') = g.holds w rely p in after_result k (m w).0 (m w).1 q rely' h;
    }

  pub Triple-weaken :
      {A : Type 0} {Pre Weak : Repo → Type 0} {m : M A} {Post : A → Repo → Type 0}
      → ((r : Repo) → Pre r → Weak r)
      → Triple Weak m Post
      → Triple Pre m Post
  Triple-weaken h t = record { holds = λ w rely p. t.holds w rely (h w.repo p) }

  pub Triple-read :
      {A : Type 0} {Pre : Repo → Type 0} (f : Repo → A)
      → IsStable Pre
      → Triple Pre (read f) (λ a r. Pre r × (a ≡ f r))
  unfolding read
  Triple-read f stable = Triple-call (λ r. (f r, r)) stable (λ r p. (p, refl))

  module _ {Pre : Repo → Type 0} where
    pub Triple-write :
        {Post : Unit {0} → Repo → Type 0} (f : Repo → Repo)
        → IsStable Pre
        → ((r : Repo) → Pre r → Post tt (f r))
        → Triple Pre (write f) Post
    unfolding write
    Triple-write f stable h = Triple-call (λ r. (tt, f r)) stable h

    pub Triple-require :
        (b : Bool) (e : ServiceError) → Triple Pre (require b e) (λ _ r. Pre r × (b ≡ true))
    unfolding require
    Triple-require true e = record { holds = λ w rely p. ((p, refl), rely) }
    Triple-require false e = record { holds = λ w rely p. (tt, rely) }

    pub Triple-then :
        {B : Type 0} {Mid : Unit {0} → Repo → Type 0} {After : B → Repo → Type 0} {m : M (Unit {0})}
        {k : M B}
        → Triple Pre m Mid
        → Triple (Mid tt) k After
        → Triple Pre (m >> k) After
    unfolding ◌>>◌
    Triple-then g h = Triple-bind g (λ _. h)
