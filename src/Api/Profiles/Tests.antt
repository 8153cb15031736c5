-- ===== src/Api/Profiles/Tests.antt =====
-- A profile without an email, which its owner completes while another one is created.
use rosa_pay_application.Base.{true, none, some, [], ◌∷◌}
use rosa_pay_application.Protocol.Schema.{testnet}
use rosa_pay_application.Api.Profiles.{
  MerchantProfile, CreateMerchantProfileInput, Table, create, save_in_postgres,
}
use rosa_pay_application.Api.Profiles.Lasting.{Keeps, save_in_postgres-Keeps, create-Keeps}

abbrev cafe : MerchantProfile
cafe = record {
  id = "m";
  user_id = some "u";
  display_name = "Cafe";
  email = none;
  recipient = "GA";
  signing_key = "GA";
  network = testnet;
}

abbrev other : MerchantProfile
other = record {
  id = "n";
  user_id = some "v";
  display_name = "Bar";
  email = some "bar@example.org";
  recipient = "GB";
  signing_key = "GB";
  network = testnet;
}

abbrev table : Table
table = ("m", cafe) ∷ []

abbrev input : CreateMerchantProfileInput
input = record {
  id = "m";
  display_name = "Cafe";
  email = "cafe@example.org";
  recipient = "GA";
  signing_key = "GA";
  network = testnet;
}

create-Keeps_example :
    Keeps table
      (create save_in_postgres (save_in_postgres other) (λ s. true) input (some "u") table).1
create-Keeps_example =
    create-Keeps (save_in_postgres other) (λ s. true) input (some "u") table
      (save_in_postgres-Keeps other table)
