-- ===== src/Mobile/Session/Tests.antt =====
-- A merchant's session, put away and read back.
use rosa_pay_application.Base.{◌≡◌, true, none}
use rosa_pay_application.Mobile.Session.{AppState, act, initial, create_account}
use rosa_pay_application.Mobile.Session.Records.{customer}
use rosa_pay_application.Mobile.Session.Restore.{Checks, partialize, rehydrate}
use rosa_pay_application.Mobile.Session.Consistency.{
  IsConsistent, initial-IsConsistent, act-IsConsistent, rehydrate-IsConsistent,
}

abbrev checks : Checks
checks = record {
  is_valid_contract = λ _. true;
  is_valid_public_key = λ _. true;
  is_date = λ _. true;
}

abbrev fresh : AppState
fresh = initial "https://api"

abbrev joined : AppState
joined = act (create_account "Ada" none "t") fresh

joined-IsConsistent : IsConsistent joined
joined-IsConsistent =
    act-IsConsistent (create_account "Ada" none "t") fresh (initial-IsConsistent "https://api")

act-IsConsistent_example : IsConsistent (act (create_account "Ada" none "t") fresh)
act-IsConsistent_example =
    act-IsConsistent (create_account "Ada" none "t") fresh (initial-IsConsistent "https://api")

rehydrate-IsConsistent_example :
    IsConsistent (rehydrate checks (partialize joined) fresh)
    × ((rehydrate checks (partialize joined) fresh).mode ≡ customer)
rehydrate-IsConsistent_example = rehydrate-IsConsistent checks joined fresh joined-IsConsistent
