-- ===== src/Api/Relayer.antt =====
-- `RelayerService` of apps/api/src/application/RelayerService.ts without the registration of merchants,
-- which calls the chain. A parsed envelope is what the Stellar SDK makes of a text.
pub mod Guarded
mod Tests
use rosa_pay_application.Base.{
  String, Bool, true, false, not, ◌&&◌, ◌||◌, Option, none, some, List, [], ◌∷◌, Result, ok, err,
  str_eq, if◌then◌else◌, guard, ◌>>=◌, ◌>>◌,
}
use rosa_pay_application.Base.Text.{is_empty}

-- An operation of a transaction: a call of a contract's function, a host function of another kind, or
-- an operation of another type.
pub data Operation : Type 0 where
  invokes : String → String → Operation
  other_host_function other_operation : Operation

pub record Transaction : Type 0 where
  pub source : String
  pub operations : List Operation

-- What `TransactionBuilder.fromXDR` comes to.
pub data Envelope : Type 0 where
  unparsable fee_bump : Envelope
  plain : Transaction → Envelope

pub data RelayerError : Type 0 where
  relayer_disabled invalid_transaction : RelayerError

-- The relayer's address, if it has a key, and the contract.
pub record Relayer : Type 0 where
  pub public_key : Option String
  pub settlement_contract_id : Option String

pub record RelayerIdentity : Type 0 where
  pub address : String
  pub contract : String

unfoldable pub require_relayer : Relayer → Result RelayerError String
require_relayer relayer = elim relayer.public_key [
  | none ↦ err relayer_disabled
  | some address ↦ ok address
]

abbrev pub contract_or_throw : Option String → Result RelayerError String
contract_or_throw none = err relayer_disabled
contract_or_throw (some id) = if is_empty id then err relayer_disabled else ok id

unfoldable pub require_contract_id : Relayer → Result RelayerError String
require_contract_id relayer = contract_or_throw relayer.settlement_contract_id

unfoldable pub identity : Relayer → Result RelayerError RelayerIdentity
identity relayer = require_relayer relayer >>= (λ address.
    require_contract_id relayer
    >>= (λ contract. ok (record { address = address; contract = contract })))

abbrev pub parsed_or_throw : Envelope → Result RelayerError Transaction
parsed_or_throw unparsable = err invalid_transaction
parsed_or_throw fee_bump = err invalid_transaction
parsed_or_throw (plain transaction) = ok transaction

-- `operations.length !== 1`, and then `operations[0]`.
abbrev pub single_operation : List Operation → Result RelayerError Operation
single_operation [] = err invalid_transaction
single_operation (operation ∷ []) = ok operation
single_operation (operation ∷ next ∷ rest) = err invalid_transaction

unfoldable pub read_contract_invocation : Operation → Result RelayerError (String × String)
read_contract_invocation (invokes contract function) = ok (contract, function)
read_contract_invocation other_host_function = err invalid_transaction
read_contract_invocation other_operation = err invalid_transaction

abbrev pub is_allowed_function : String → Bool
is_allowed_function function =
    str_eq function "settle_payment" || str_eq function "settle_payment_with_swap"

-- The transaction that is signed.
unfoldable pub sign_settlement_transaction : Relayer → Envelope → Result RelayerError Transaction
sign_settlement_transaction relayer envelope = require_relayer relayer >>= (λ address.
    require_contract_id relayer >>= (λ contract. parsed_or_throw envelope >>= (λ transaction.
      guard (str_eq transaction.source address) invalid_transaction
      >> (single_operation transaction.operations >>= (λ operation.
          read_contract_invocation operation >>= (λ invocation.
            guard (str_eq invocation.0 contract) invalid_transaction
            >> (guard (is_allowed_function invocation.1) invalid_transaction
                >> ok transaction)))))))
