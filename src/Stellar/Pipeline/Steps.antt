-- ===== src/Stellar/Pipeline/Steps.antt =====
-- What a chain of runs does, part by part.
use rosa_pay_application.Base.{
  ◌≡◌, refl, ap, sym, ◌∙◌, List, [], ◌∷◌, ◌++◌, ok, err, ◌⊎◌, inl, inr, arith,
}
use rosa_pay_application.Stellar.Pipeline.{
  PipelineError, Effect, SettlementPipelineProgress, Run, and_then,
}

pub append_nil : {A : Type 0} (xs : List A) → xs ++ [] ≡ xs
append_nil [] = refl
append_nil (x ∷ xs) = ap (λ l. x ∷ l) (append_nil xs)

pub append_assoc : {A : Type 0} (xs ys zs : List A) → (xs ++ ys) ++ zs ≡ xs ++ (ys ++ zs)
append_assoc [] ys zs = refl
append_assoc (x ∷ xs) ys zs = ap (λ l. x ∷ l) (append_assoc xs ys zs)

-- A chain stops with its first part, or goes on with what that part returns.
pub and_then-cases :
    {E A B : Type 0} (m : Run E A) (k : A → Run E B)
    → ((e : PipelineError E) × (m.0 ≡ err e) × (and_then m k ≡ (err e, m.1)))
      ⊎ ((a : A) × (m.0 ≡ ok a) × (and_then m k ≡ ((k a).0, m.1 ++ (k a).1)))
unfolding and_then
and_then-cases (ok a, log) k = inr (a, refl, refl)
and_then-cases (err e, log) k = inl (e, refl, refl)

-- Where a chain returns, both parts do.
pub and_then-ok :
    {E A B : Type 0} (m : Run E A) (k : A → Run E B) (b : B)
    → (and_then m k).0 ≡ ok b
    → (a : A) × (m.0 ≡ ok a) × ((k a).0 ≡ ok b) × ((and_then m k).1 ≡ m.1 ++ (k a).1)
unfolding and_then
and_then-ok (ok a, log) k b h = (a, refl, h, refl)
and_then-ok (err e, log) k b h = ground arith

-- A chain does what its first part does, and then perhaps more.
pub and_then-extends :
    {E A B : Type 0} (m : Run E A) (k : A → Run E B)
    → (more : List Effect) × ((and_then m k).1 ≡ m.1 ++ more)
and_then-extends m k = elim (and_then-cases m k) [
  | inl (e, stopped, same) ↦ ([], ap (λ r. r.1) same ∙ sym (append_nil m.1))
  | inr (a, went, same) ↦ ((k a).1, ap (λ r. r.1) same)
]

-- The stages that are reported, in their order.
unfoldable pub stages : List Effect → List SettlementPipelineProgress
stages [] = []
stages (Effect.reported progress ∷ rest) = progress ∷ stages rest
stages (Effect.called funding ∷ rest) = stages rest
stages (Effect.signed contract address ∷ rest) = stages rest
stages (Effect.simulated_again ∷ rest) = stages rest
stages (Effect.sent ∷ rest) = stages rest

pub stages-append : (xs ys : List Effect) → stages (xs ++ ys) ≡ stages xs ++ stages ys
unfolding stages
stages-append [] ys = refl
stages-append (Effect.reported progress ∷ xs) ys = ap (λ l. progress ∷ l) (stages-append xs ys)
stages-append (Effect.called funding ∷ xs) ys = stages-append xs ys
stages-append (Effect.signed contract address ∷ xs) ys = stages-append xs ys
stages-append (Effect.simulated_again ∷ xs) ys = stages-append xs ys
stages-append (Effect.sent ∷ xs) ys = stages-append xs ys
