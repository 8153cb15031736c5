-- ===== src/Api/Wallets/Tests.antt =====
-- A device whose key is a point of 65 bytes.
use rosa_pay_application.Base.{String, ◌≡◌, refl, true, false, none, some, [], ◌∷◌, ok, replicate}
use rosa_pay_application.Base.Dict.{get, put}
use rosa_pay_application.Base.Text.{trim, trim_start, trim_end, is_space}
use rosa_pay_application.Base.Pieces.{split}
use rosa_pay_application.Base.Decimal.{all_digits, read, read_after, pad_end, size}
use rosa_pay_application.Protocol.Schema.{testnet}
use rosa_pay_application.Signer.{uncompressed_point_from_spki}
use rosa_pay_application.Stellar.Amounts.{parse_stroops, parse_pieces}
use rosa_pay_application.Api.Wallets.{
  Ledger, ProvisioningOptions, ProvisionedWallet, provision, is_enabled, finish, fund,
  find_by_signer, save_wallet,
}
use rosa_pay_application.Api.Wallets.Kept.{Keeps}
use rosa_pay_application.Api.Wallets.Once.{Call, make, after_calls, provision-once}

abbrev ledger : Ledger
ledger = record {
  from_base64 = λ s. 4 ∷ replicate 64 9;
  to_base64 = λ bytes. "key";
  is_valid_contract = λ s. true;
  deploy = some ("hash", "C");
  transfer = λ wallet stroops asset. true;
  meanwhile = λ wallets. wallets;
}

abbrev options : ProvisioningOptions
options = record {
  network = testnet;
  wallet_wasm_hash = some "ab";
  deployer_secret = some "S";
  funding_amount = none;
  secondary_funding = none;
  native_contract_id = "native";
}

abbrev answer : ProvisionedWallet
answer = record {
  wallet_contract_id = "C";
  device_public_key = "key";
  transaction_hash = "hash";
  funded_amount = "25";
  reused = false;
}

provisioned : ((provision ledger options "key" (some "u") none []).0).0 ≡ ok answer
unfolding provision is_enabled finish fund find_by_signer save_wallet uncompressed_point_from_spki
    parse_stroops parse_pieces split trim trim_start trim_end is_space all_digits read read_after
    pad_end size get put
provisioned = refl

abbrev call : String → Call
call user = record {
  options = options;
  device_public_key = "key";
  user = some user;
  recovery = none;
  is_valid_contract = λ s. true;
  deploy = some ("hash", "C");
  transfer = λ wallet stroops asset. true;
  meanwhile = λ wallets. wallets;
}

nothing-Keeps : Keeps (λ wallets. wallets)
nothing-Keeps k m w h = (w, h)

provision-once_example :
    ((make ledger (call "u") (after_calls ledger (call "v" ∷ []) (make ledger (call "u") []).1)).0
    ).1
    ≡ []
provision-once_example =
    provision-once ledger (call "u") (call "u") (call "v" ∷ []) [] answer refl nothing-Keeps
      (nothing-Keeps, tt) provisioned
