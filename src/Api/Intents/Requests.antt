-- ===== src/Api/Intents/Requests.antt =====
-- The requests that move a settlement, as data, and what holds of each of them beside any others.
use rosa_pay_application.Base.{ℕ, String, ◌≡◌, Option, some, ok, subst}
use rosa_pay_application.Base.Dict.{get}
use rosa_pay_application.Domain.Payment.{PaymentStatus, authorized, submitted, confirmed, failed}
use rosa_pay_application.Api.Intents.Records.{SettlementRecord}
use rosa_pay_application.Api.Intents.Interleave.{World, M}
use rosa_pay_application.Api.Intents.Service.{AuthorizationInput, authorize, submit, confirm, fail}
use rosa_pay_application.Api.Intents.Rely.{Respects, Guarantees}
use rosa_pay_application.Api.Intents.Advance.{
  Advances, authorize-Advances, submit-Advances, confirm-Advances, fail-Advances,
}
use rosa_pay_application.Api.Intents.Hoare.{Triple, Returns}
use rosa_pay_application.Api.Intents.Answers.{
  Anything, IsStored, authorize-IsStored, submit-IsStored, confirm-IsStored, fail-IsStored,
}

pub data Request : Type 0 where
  authorizing : String → String → Option AuthorizationInput → Request
  submitting : String → String → Request
  confirming : String → String → String → ℕ → Request
  failing : String → String → Request

unfoldable pub perform : Request → M SettlementRecord
perform (authorizing now id given) = authorize now id given
perform (submitting id hash) = submit id hash
perform (confirming now id hash ledger) = confirm now id hash ledger
perform (failing id code) = fail id code

abbrev pub target : Request → String
target (authorizing now id given) = id
target (submitting id hash) = id
target (confirming now id hash ledger) = id
target (failing id code) = id

-- The status that a request asks for.
abbrev pub wanted : Request → PaymentStatus
wanted (authorizing now id given) = authorized
wanted (submitting id hash) = submitted
wanted (confirming now id hash ledger) = confirmed
wanted (failing id code) = failed

perform-Advances : (q : Request) → Guarantees Advances (perform q)
unfolding perform
perform-Advances (authorizing now id given) = authorize-Advances now id given
perform-Advances (submitting id hash) = submit-Advances id hash
perform-Advances (confirming now id hash ledger) = confirm-Advances now id hash ledger
perform-Advances (failing id code) = fail-Advances id code

-- Whatever writes of others fall between the awaits of a request, as long as each of them only
-- advances settlements along the lifecycle, every settlement is still there after the request and
-- at a status that the lifecycle reaches from the one it had before.
pub perform-never_regresses :
    (q : Request) (w : World) → Respects Advances w.others → Advances w.repo (perform q w).1.repo
perform-never_regresses q w rely = ((perform-Advances q).holds w rely).0

perform-IsStored :
    (q : Request) → Triple Advances Anything (perform q) (IsStored (target q) (wanted q))
unfolding perform
perform-IsStored (authorizing now id given) = authorize-IsStored Advances now id given
perform-IsStored (submitting id hash) = submit-IsStored Advances id hash
perform-IsStored (confirming now id hash ledger) = confirm-IsStored Advances now id hash ledger
perform-IsStored (failing id code) = fail-IsStored Advances id code

-- If a request answers with a settlement, beside others that only advance settlements, then at that
-- moment the store holds exactly this settlement under its id, at the status that was asked for.
pub perform-answers_stored :
    (q : Request) (w : World) (s : SettlementRecord)
    → Respects Advances w.others
    → (perform q w).0 ≡ ok s
    → (get (target q) (perform q w).1.repo.settlements ≡ some s) × (s.status ≡ wanted q)
perform-answers_stored q w s rely e =
    subst (λ x. Returns (IsStored (target q) (wanted q)) x (perform q w).1.repo) e
      ((perform-IsStored q).holds w rely tt).0
