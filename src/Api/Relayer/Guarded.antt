-- ===== src/Api/Relayer/Guarded.antt =====
-- What the relayer signs.
use rosa_pay_application.Base.{
  ◌≡◌, refl, sym, ap, subst, ◌∙◌, ◌↔◌, String, true, false, Option, none, some, List, [], ◌∷◌,
  Result, ok, err, str_eq, eq_iff, eq_refl, guard, guard_ok, bind_ok, arith,
}
use rosa_pay_application.Base.Text.{is_empty}
use rosa_pay_application.Api.Relayer.{
  Operation, invokes, other_host_function, other_operation, Transaction, Envelope, unparsable,
  fee_bump, plain, RelayerError, Relayer, require_relayer, contract_or_throw, require_contract_id,
  parsed_or_throw, single_operation, read_contract_invocation, is_allowed_function,
  sign_settlement_transaction, invalid_transaction, relayer_disabled,
}

-- A transaction that the relayer may sign.
pub record IsSettlement (relayer : Relayer) (envelope : Envelope) (transaction : Transaction)
    : Type 0 where
  pub contract : String
  pub function : String
  pub is_parsed : envelope ≡ plain transaction
  pub own_source : relayer.public_key ≡ some transaction.source
  pub own_contract : relayer.settlement_contract_id ≡ some contract
  pub named : is_empty contract ≡ false
  pub one_call : transaction.operations ≡ invokes contract function ∷ []
  pub allowed : is_allowed_function function ≡ true

relayer_ok :
    (o : Option String) (a : String)
    → ◌≡◌ {A = Result RelayerError String}
        (elim o [ none ↦ err relayer_disabled | some b ↦ ok b ])
        (ok a)
    → o ≡ some a
relayer_ok none a h = ground arith
relayer_ok (some b) a h = ground arith

contract_ok :
    (o : Option String) (c : String)
    → contract_or_throw o ≡ ok c
    → (o ≡ some c) × (is_empty c ≡ false)
contract_ok none c h = ground arith
contract_ok (some d) c h = ground arith

parsed_ok : (e : Envelope) (t : Transaction) → parsed_or_throw e ≡ ok t → e ≡ plain t
parsed_ok unparsable t h = ground arith
parsed_ok fee_bump t h = ground arith
parsed_ok (plain u) t h = ground arith

single_ok : (l : List Operation) (o : Operation) → single_operation l ≡ ok o → l ≡ o ∷ []
single_ok [] o h = ground arith
single_ok (p ∷ []) o h = ground arith
single_ok (p ∷ q ∷ rest) o h = ground arith

invocation_ok :
    (o : Operation) (i : String × String) → read_contract_invocation o ≡ ok i → o ≡ invokes i.0 i.1
unfolding read_contract_invocation
invocation_ok (invokes c f) i h = ap (λ r. invokes (pair_of r c f).0 (pair_of r c f).1) h
  where
    pair_of : Result RelayerError (String × String) → String → String → String × String
    pair_of (ok p) c f = p
    pair_of (err e) c f = (c, f)
invocation_ok other_host_function i h = ground arith
invocation_ok other_operation i h = ground arith

ok_injective : (t u : Transaction) → ◌≡◌ {A = Result RelayerError Transaction} (ok t) (ok u) → t ≡ u
ok_injective t u h = ground arith

signed-IsSettlement :
    (relayer : Relayer) (envelope : Envelope) (transaction : Transaction)
    → sign_settlement_transaction relayer envelope ≡ ok transaction
    → IsSettlement relayer envelope transaction
unfolding sign_settlement_transaction require_relayer require_contract_id
signed-IsSettlement relayer envelope transaction h =
    let (address, has_key, h1) = bind_ok (require_relayer relayer) _ transaction h in
    let (contract, has_contract, h2) = bind_ok (require_contract_id relayer) _ transaction h1 in
    let (t, parsed, h3) = bind_ok (parsed_or_throw envelope) _ transaction h2 in
    let (u, own, h4) =
      bind_ok (guard (str_eq t.source address) invalid_transaction) _ transaction h3 in
    let (operation, single, h5) = bind_ok (single_operation t.operations) _ transaction h4 in
    let (invocation, read, h6) = bind_ok (read_contract_invocation operation) _ transaction h5 in
    let (v, own_contract, h7) =
      bind_ok (guard (str_eq invocation.0 contract) invalid_transaction) _ transaction h6 in
    let (w, allowed, made) =
      bind_ok (guard (is_allowed_function invocation.1) invalid_transaction) _ transaction h7 in
    let source_is : t.source ≡ address =
      (eq_iff t.source address).0 (guard_ok (str_eq t.source address) invalid_transaction u own) in
    let contract_is : invocation.0 ≡ contract =
      (eq_iff invocation.0 contract).0
        (guard_ok (str_eq invocation.0 contract) invalid_transaction v own_contract) in
    let (given, named) = contract_ok relayer.settlement_contract_id contract has_contract in
    subst (IsSettlement relayer envelope) (ok_injective t transaction made) (record {
      contract = invocation.0;
      function = invocation.1;
      is_parsed = parsed_ok envelope t parsed;
      own_source = relayer_ok relayer.public_key address has_key ∙ ap some (sym source_is);
      own_contract = given ∙ ap some (sym contract_is);
      named = ap is_empty contract_is ∙ named;
      one_call =
          single_ok t.operations operation single
          ∙ ap (λ o. o ∷ []) (invocation_ok operation invocation read);
      allowed = guard_ok (is_allowed_function invocation.1) invalid_transaction w allowed;
    })

IsSettlement-signed :
    (relayer : Relayer) (envelope : Envelope) (transaction : Transaction)
    → IsSettlement relayer envelope transaction
    → sign_settlement_transaction relayer envelope ≡ ok transaction
unfolding sign_settlement_transaction require_relayer require_contract_id read_contract_invocation
IsSettlement-signed relayer envelope transaction s = rw s.own_source (
    rw s.own_contract (
      rw s.named (
        rw s.is_parsed (
          rw (eq_refl transaction.source)
            (rw s.one_call (rw (eq_refl s.contract) (rw s.allowed refl)))))))

-- The relayer signs a transaction only if it is the source of it and the one operation is a call of one
-- of the two settlement functions of the configured contract; and such a transaction it signs.
pub sign_settlement_transaction-ok_iff :
    (relayer : Relayer) (envelope : Envelope) (transaction : Transaction)
    → (sign_settlement_transaction relayer envelope ≡ ok transaction)
      ↔ IsSettlement relayer envelope transaction
sign_settlement_transaction-ok_iff relayer envelope transaction = (
  signed-IsSettlement relayer envelope transaction,
  IsSettlement-signed relayer envelope transaction,
)
