-- ===== src/Api/Relayer/Tests.antt =====
-- A settlement that the relayer signs.
use rosa_pay_application.Base.{◌≡◌, ◌↔◌, [], ◌∷◌, some, ok}
use rosa_pay_application.Api.Relayer.{
  Relayer, Transaction, invokes, plain, sign_settlement_transaction,
}
use rosa_pay_application.Api.Relayer.Guarded.{IsSettlement, sign_settlement_transaction-ok_iff}

abbrev relayer : Relayer
relayer = record { public_key = some "R"; settlement_contract_id = some "S" }

abbrev transaction : Transaction
transaction = record { source = "R"; operations = invokes "S" "settle_payment" ∷ [] }

sign_settlement_transaction-ok_iff_example :
    (sign_settlement_transaction relayer (plain transaction) ≡ ok transaction)
    ↔ IsSettlement relayer (plain transaction) transaction
sign_settlement_transaction-ok_iff_example =
    sign_settlement_transaction-ok_iff relayer (plain transaction) transaction
