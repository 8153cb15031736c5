-- ===== src/Domain/Payment/Lifecycle.antt =====
-- The lifecycle that the transition table of payment.ts describes: which statuses follow which,
-- where it ends, and how long it can be.
use rosa_pay_application.Base.{
  ℕ, suc, ◌+◌, ◌≤◌, ◌<◌, ◌≡◌, refl, ◌↔◌, ◌⊎◌, inl, inr, true, List, [], ◌∷◌, ok, err, arith,
  Bool-cases,
}
use rosa_pay_application.Domain.Payment.{
  PaymentStatus, created, awaiting_approval, authorized, submitted, confirmed, rejected, expired,
  failed, Payment, is_allowed, transition_payment, is_terminal_payment_status,
  invalid_payment_transition,
}

-- The diagram, drawn independently of the table.
infix 40 ◌⟶◌ ◌⟶*◌
pub data ◌⟶◌ : PaymentStatus → PaymentStatus → Type 0 where
  publish : created ⟶ awaiting_approval
  approve : awaiting_approval ⟶ authorized
  reject : awaiting_approval ⟶ rejected
  submit : authorized ⟶ submitted
  confirm : submitted ⟶ confirmed
  expire_created : created ⟶ expired
  expire_awaiting : awaiting_approval ⟶ expired
  expire_authorized : authorized ⟶ expired
  fail_created : created ⟶ failed
  fail_awaiting : awaiting_approval ⟶ failed
  fail_authorized : authorized ⟶ failed
  fail_submitted : submitted ⟶ failed

pub data ◌⟶*◌ : PaymentStatus → PaymentStatus → Type 0 where
  here : {s : PaymentStatus} → s ⟶* s
  then : {s t u : PaymentStatus} → s ⟶ t → t ⟶* u → s ⟶* u

pub ⟶*-trans : {s t u : PaymentStatus} → s ⟶* t → t ⟶* u → s ⟶* u
⟶*-trans here q = q
⟶*-trans (then e p) q = then e (⟶*-trans p q)

ruleset edges = (
  publish, approve, reject, submit, confirm, expire_created, expire_awaiting, expire_authorized,
  fail_created, fail_awaiting, fail_authorized, fail_submitted,
)

pub ⟶-is_allowed : {s t : PaymentStatus} → s ⟶ t → is_allowed s t ≡ true
unfolding is_allowed
⟶-is_allowed publish = refl
⟶-is_allowed approve = refl
⟶-is_allowed reject = refl
⟶-is_allowed submit = refl
⟶-is_allowed confirm = refl
⟶-is_allowed expire_created = refl
⟶-is_allowed expire_awaiting = refl
⟶-is_allowed expire_authorized = refl
⟶-is_allowed fail_created = refl
⟶-is_allowed fail_awaiting = refl
⟶-is_allowed fail_authorized = refl
⟶-is_allowed fail_submitted = refl

pub is_allowed-⟶ : (s t : PaymentStatus) → is_allowed s t ≡ true → s ⟶ t
unfolding is_allowed
is_allowed-⟶ s t h = grind (arith, edges)

-- The guard lets a payment through exactly along an edge of the diagram, and then changes its
-- status and nothing else; every other request is the transition error that names both statuses.
pub transition_payment-follows_diagram :
    (p : Payment) (next : PaymentStatus)
    → ((p.status ⟶ next) × (transition_payment p next ≡ ok (record p { status = next })))
      ⊎ ((¬ (p.status ⟶ next))
          × (transition_payment p next ≡ err (invalid_payment_transition p.status next)))
unfolding transition_payment
transition_payment-follows_diagram p next = elim (Bool-cases (is_allowed p.status next)) [
  | inl e ↦ inl (is_allowed-⟶ p.status next e, rw e)
  | inr e ↦ inr ((λ edge. cc (⟶-is_allowed edge)), rw e)
]

-- A status is terminal exactly when no transition leaves it.
pub is_terminal-iff_no_edge :
    (s : PaymentStatus) → (is_terminal_payment_status s ≡ true) ↔ ((t : PaymentStatus) → ¬ (s ⟶ t))
unfolding is_terminal_payment_status
is_terminal-iff_no_edge created = ((λ h. cc), λ f. absurd (f awaiting_approval publish))
is_terminal-iff_no_edge awaiting_approval = ((λ h. cc), λ f. absurd (f authorized approve))
is_terminal-iff_no_edge authorized = ((λ h. cc), λ f. absurd (f submitted submit))
is_terminal-iff_no_edge submitted = ((λ h. cc), λ f. absurd (f confirmed confirm))
is_terminal-iff_no_edge confirmed = ((λ h t. λ e. elim e [ ]), λ f. refl)
is_terminal-iff_no_edge rejected = ((λ h t. λ e. elim e [ ]), λ f. refl)
is_terminal-iff_no_edge expired = ((λ h t. λ e. elim e [ ]), λ f. refl)
is_terminal-iff_no_edge failed = ((λ h t. λ e. elim e [ ]), λ f. refl)

-- How many transitions the longest life from a status has left.
abbrev pub remaining : PaymentStatus → ℕ
remaining created = 4
remaining awaiting_approval = 3
remaining authorized = 2
remaining submitted = 1
remaining _ = 0

remaining-is_allowed : (s t : PaymentStatus) → is_allowed s t ≡ true → remaining t < remaining s
unfolding is_allowed
remaining-is_allowed s t h = ground arith

-- A payment on which transitions are requested one after another, a refused request leaving it as
-- it was, with the number of those that were granted.
unfoldable pub replay : Payment → List PaymentStatus → Payment × ℕ
replay p [] = (p, 0)
replay p (next ∷ rest) = elim (transition_payment p next) [
  | ok q ↦ let (r, n) = replay q rest in (r, suc n)
  | err e ↦ replay p rest
]

-- Whatever is requested and in whatever order, at most four transitions of one payment are granted.
pub replay_bounded :
    (p : Payment) (requests : List PaymentStatus)
    → (replay p requests).1 + remaining (replay p requests).0.status ≤ remaining p.status
unfolding replay transition_payment
replay_bounded p [] = omega arith
replay_bounded p (next ∷ rest) = ground (
  arith,
  remaining-is_allowed p.status next,
  replay_bounded (record p { status = next }) rest,
  replay_bounded p rest,
)

-- Once a payment is terminal, no sequence of requests changes it and none is granted.
pub replay-terminal :
    (p : Payment) (requests : List PaymentStatus)
    → is_terminal_payment_status p.status ≡ true
    → replay p requests ≡ (p, 0)
unfolding replay transition_payment is_allowed is_terminal_payment_status
replay-terminal p [] h = refl
replay-terminal p (next ∷ rest) h = ground (arith, replay-terminal p rest)
