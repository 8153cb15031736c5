-- ===== src/Protocol/Schema/Parsing/Stable.antt =====
-- What the schema has parsed, it parses again.
use rosa_pay_application.Base.{◌≡◌, refl, subst, some, true, arith}
use rosa_pay_application.Base.Text.Trimming.{trim-trim}
use rosa_pay_application.Protocol.Schema.{PaymentIntentV1}
use rosa_pay_application.Protocol.Schema.Parsing.{
  Formats, is_payment_intent, trimmed, parse_payment_intent,
}

trimmed-trimmed : (intent : PaymentIntentV1) → trimmed (trimmed intent) ≡ trimmed intent
trimmed-trimmed intent = rw (trim-trim intent.merchant_name) (rw (trim-trim intent.reference) refl)

pub parse-some :
    (formats : Formats) (intent parsed : PaymentIntentV1)
    → parse_payment_intent formats intent ≡ some parsed
    → (is_payment_intent formats (trimmed intent) ≡ true) × (trimmed intent ≡ parsed)
unfolding parse_payment_intent
parse-some formats intent parsed h = ground arith

pub parse_payment_intent-stable :
    (formats : Formats) (intent parsed : PaymentIntentV1)
    → parse_payment_intent formats intent ≡ some parsed
    → parse_payment_intent formats parsed ≡ some parsed
unfolding parse_payment_intent
parse_payment_intent-stable formats intent parsed h =
    let (valid, same) = parse-some formats intent parsed h in
    let again : parse_payment_intent formats (trimmed intent) ≡ some (trimmed intent) =
      rw (trimmed-trimmed intent) (rw valid refl) in
    subst (λ i. parse_payment_intent formats i ≡ some i) same again
