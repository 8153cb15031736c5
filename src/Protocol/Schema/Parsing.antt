-- ===== src/Protocol/Schema/Parsing.antt =====
-- The checks of the fields of a payment request in packages/protocol/src/schema.ts. What `zod` itself
-- knows, a UUID and a date with its time and offset, are the two tests of `Formats`.
pub mod Stable
use rosa_pay_application.Base.{
  ℕ, suc, ◌-◌, String, Bool, true, false, not, ◌&&◌, ◌||◌, List, [], ◌∷◌, Option, none, some, all,
  length, ltb, leb, ◌==◌, if◌then◌else◌,
}
use rosa_pay_application.Base.Text.{codes, is_digit, is_upper, is_lower, is_empty, trim}
use rosa_pay_application.Base.Pieces.{split}
use rosa_pay_application.Base.Decimal.{is_number, all_digits, ends_nonzero, is_whole}
use rosa_pay_application.Protocol.Schema.{PaymentAsset, PaymentIntentV1, asset_issues}

pub record Formats : Type 0 where
  pub is_uuid : String → Bool
  pub is_datetime : String → Bool

-- `text.length`: a character outside the first plane is two UTF-16 units.
abbrev units : List ℕ → ℕ
units [] = 0
units (c ∷ rest) = let n = units rest in if ltb c 65536 then suc n else suc (suc n)

abbrev between : ℕ → ℕ → String → Bool
between low high s = leb low (units (codes s)) && leb (units (codes s)) high

-- `[A-Z2-7]`
abbrev is_base32 : ℕ → Bool
is_base32 c = is_upper c || (leb 50 c && leb c 55)

abbrev address_body : List ℕ → Bool
address_body [] = false
address_body (c ∷ rest) = (c == b'G' || c == b'C') && length rest == 55 && all is_base32 rest

-- `length(56)` and `/^[GC][A-Z2-7]+$/`
unfoldable pub is_stellar_address : String → Bool
is_stellar_address value = address_body (codes value)

abbrev starts_with_g : List ℕ → Bool
starts_with_g [] = false
starts_with_g (c ∷ rest) = c == b'G'

-- `[0-9A-HJKMNP-TV-Z]`, in a pattern that looks at no case.
abbrev is_ulid_character : ℕ → Bool
is_ulid_character c =
    let upper = if is_lower c then c - 32 else c in
    is_digit c
    || (is_upper upper && not (upper == b'I' || upper == b'L' || upper == b'O' || upper == b'U'))

unfoldable pub is_entity_id : Formats → String → Bool
is_entity_id formats id =
    formats.is_uuid id || (length (codes id) == 26 && all is_ulid_character (codes id))

-- `/^(0|[1-9]\d*)(\.\d*[1-9])?$/`, on the pieces at the points.
unfoldable pub canonical_pieces : List String → Bool
canonical_pieces [] = false
canonical_pieces (whole ∷ []) = is_whole whole
canonical_pieces (whole ∷ fraction ∷ []) =
    is_whole whole && all_digits fraction && ends_nonzero fraction
canonical_pieces (whole ∷ fraction ∷ more ∷ rest) = false

unfoldable pub is_canonical_amount : String → Bool
is_canonical_amount amount = canonical_pieces (split b'.' amount)

abbrev optional_address : Option String → Bool
optional_address none = true
optional_address (some address) = is_stellar_address address

abbrev no_issues : {A : Type 0} → List A → Bool
no_issues [] = true
no_issues (issue ∷ rest) = false

unfoldable pub is_asset : PaymentAsset → Bool
is_asset asset =
    between 1 12 asset.code
    && optional_address asset.issuer
    && optional_address asset.contract_id
    && leb asset.decimals 18
    && no_issues (asset_issues asset)

-- The tests of the fields, the two names trimmed.
unfoldable pub is_payment_intent : Formats → PaymentIntentV1 → Bool
is_payment_intent formats intent =
    is_entity_id formats intent.intent_id
    && is_entity_id formats intent.merchant_profile_id
    && between 1 80 intent.merchant_name
    && is_stellar_address intent.merchant_signing_key
    && starts_with_g (codes intent.merchant_signing_key)
    && is_stellar_address intent.recipient
    && is_asset intent.asset
    && is_canonical_amount intent.amount
    && between 1 120 intent.reference
    && between 16 128 intent.nonce
    && ltb 0 intent.expires_at_ledger
    && leb intent.expires_at_ledger 9007199254740991
    && formats.is_datetime intent.created_at

abbrev pub trimmed : PaymentIntentV1 → PaymentIntentV1
trimmed intent = record intent {
  merchant_name = trim intent.merchant_name;
  reference = trim intent.reference;
}

-- `paymentIntentV1Schema.parse`; `none` is an input that throws.
unfoldable pub parse_payment_intent : Formats → PaymentIntentV1 → Option PaymentIntentV1
parse_payment_intent formats intent =
    if is_payment_intent formats (trimmed intent) then some (trimmed intent) else none
