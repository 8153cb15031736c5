-- ===== src/Worker/Settlements/Tests.antt =====
-- A submitted row, and one that another writer fails in between.
use rosa_pay_application.Base.{◌≡◌, ◌⊎◌, refl, String, none, some, [], ◌∷◌}
use rosa_pay_application.Base.Dict.{get, put}
use rosa_pay_application.Domain.Payment.{submitted, failed}
use rosa_pay_application.Worker.Settlements.{Table, SettlementRow, confirm}
use rosa_pay_application.Worker.Settlements.Moves.{confirming, execute, Moved, execute-moves_along}
use rosa_pay_application.Worker.Settlements.Evidence.{KeepsHash, confirm-KeepsHash}

abbrev hash : String
hash = "0123456789abcdef0123456789abcdef0123456789abcdef0123456789abcdef"

abbrev same : String → String
same s = s

abbrev row : SettlementRow
row = record {
  status = some submitted;
  tx_hash = some hash;
  ledger = none;
  failure_code = none;
  expires_at_ledger = 100;
}

abbrev table : Table
table = ("i", row) ∷ []

-- Another writer fails the settlement.
abbrev failing_it : Table → Table
failing_it t = put "i" (record row { status = some failed; failure_code = some "API" }) t

execute-moves_along_example :
    ((execute same failing_it (confirming "i" hash 9) table).1 ≡ table)
    ⊎ (((execute same failing_it (confirming "i" hash 9) table).1 ≡ failing_it table)
        ⊎ Moved (failing_it table) (execute same failing_it (confirming "i" hash 9) table).1)
execute-moves_along_example = execute-moves_along same failing_it (confirming "i" hash 9) table

confirm-KeepsHash_example :
    KeepsHash same hash (get "i" (confirm same failing_it "i" hash 9 table).1)
unfolding get put
confirm-KeepsHash_example =
    confirm-KeepsHash same failing_it "i" hash hash 9 row table refl refl refl refl
