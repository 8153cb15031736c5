-- ===== src/Api/Intents/Checks.antt =====
-- The input checks of apps/api/src/application/IntentService.ts, which are regular expressions.
use rosa_pay_application.Base.{
  ℕ, ◌-◌, ◌^◌, String, Bool, true, false, ◌&&◌, ◌||◌, List, [], ◌∷◌, Option, none, some, all,
  length, drop, take, ltb, leb, ◌==◌,
}
use rosa_pay_application.Base.Text.{codes, is_digit, is_upper, is_lower}

-- `[A-Z2-7]`
abbrev pub is_base32 : ℕ → Bool
is_base32 c = is_upper c || (leb 50 c && leb c 55)

-- `[a-f0-9]` with the flag `i`
abbrev pub is_hex : ℕ → Bool
is_hex c = is_digit c || (leb 97 c && leb c 102) || (leb 65 c && leb c 70)

-- `[A-Za-z0-9+/]`
abbrev pub is_base64 : ℕ → Bool
is_base64 c = is_upper c || is_lower c || is_digit c || c == 43 || c == 47

abbrev pub address_body : List ℕ → Bool
address_body [] = false
address_body (c ∷ rest) = (c == b'G' || c == b'C') && length rest == 55 && all is_base32 rest

-- `/^[GC][A-Z2-7]{55}$/`
unfoldable pub is_stellar_address : String → Bool
is_stellar_address value = address_body (codes value)

-- `/^[a-f0-9]{64}$/i`
unfoldable pub is_transaction_hash : String → Bool
is_transaction_hash value = length (codes value) == 64 && all is_hex (codes value)

abbrev pub is_padding : List ℕ → Bool
is_padding (a ∷ b ∷ []) = a == b'=' && b == b'='
is_padding _ = false

-- `/^[A-Za-z0-9+/]{86}==$/`
unfoldable pub is_signature : String → Bool
is_signature value = all is_base64 (take 86 (codes value)) && is_padding (drop 86 (codes value))

-- `Number.isSafeInteger(value) && value > 0`, over the values that are whole and not negative.
unfoldable pub is_positive_ledger : ℕ → Bool
is_positive_ledger value = ltb 0 value && leb value (2 ^ 53 - 1)

abbrev pub optional : {A : Type 0} → (A → Bool) → Option A → Bool
optional test none = true
optional test (some a) = test a
