-- ===== src/Stellar/Signature.antt =====
-- packages/stellar/src/merchantSignature.ts, and `parseSignedPaymentIntent` of
-- packages/protocol/src/validation.ts. The curve, Base64, the key encoding and the hash of a request are
-- the record `Ed25519`; bytes are lists of numbers.
pub mod Verified
use rosa_pay_application.Base.{
  ℕ, String, Bool, true, false, not, ◌&&◌, Option, none, some, List, Result, ok, err, length, ◌==◌,
  if◌then◌else◌,
}
use rosa_pay_application.Base.Text.{is_empty}
use rosa_pay_application.Protocol.Schema.{PaymentIntentV1, SignedPaymentIntentV1}
use rosa_pay_application.Protocol.Schema.Parsing.{Formats, parse_payment_intent}

pub record Ed25519 : Type 0 where
  pub sign : List ℕ → List ℕ → List ℕ
  -- `verify(signature, message, publicKey)`; a call that throws is `false`.
  pub verify : List ℕ → List ℕ → List ℕ → Bool
  pub public_key : List ℕ → List ℕ
  pub encode_key : List ℕ → String
  pub decode_key : String → Option (List ℕ)
  pub to_base64 : List ℕ → String
  pub from_base64 : String → Option (List ℕ)
  -- The bytes of `hashPaymentIntent` of a request that is parsed.
  pub message_of : PaymentIntentV1 → List ℕ

pub data SigningError : Type 0 where
  secret_length unparsable : SigningError

abbrev pub with_signature : Option PaymentIntentV1 → String → Option SignedPaymentIntentV1
with_signature none signature = none
with_signature (some intent) signature =
    if is_empty signature then none else some (record { intent = intent; signature = signature })

-- `none` is an input that throws.
unfoldable pub parse_signed_payment_intent :
    Formats → SignedPaymentIntentV1 → Option SignedPaymentIntentV1
parse_signed_payment_intent formats input =
    with_signature (parse_payment_intent formats input.intent) input.signature

module _ (curve : Ed25519) (formats : Formats) where
  abbrev pub signature_of : Option PaymentIntentV1 → List ℕ → Result SigningError String
  signature_of none secret = err unparsable
  signature_of (some intent) secret =
      ok (curve.to_base64 (curve.sign (curve.message_of intent) secret))

  unfoldable pub sign_merchant_intent : PaymentIntentV1 → List ℕ → Result SigningError String
  sign_merchant_intent intent secret =
      let signature = signature_of (parse_payment_intent formats intent) secret in
      if not (length secret == 32) then err secret_length else signature

  unfoldable pub merchant_signing_key_from_secret : List ℕ → Result SigningError String
  merchant_signing_key_from_secret secret =
      if not (length secret == 32)
      then err secret_length
      else ok (curve.encode_key (curve.public_key secret))

  abbrev pub verify_with : List ℕ → Option (List ℕ) → Option (List ℕ) → Bool
  verify_with message none signature = false
  verify_with message (some key) none = false
  verify_with message (some key) (some signature) = curve.verify signature message key

  abbrev pub verify_parsed : Option SignedPaymentIntentV1 → Bool
  verify_parsed none = false
  verify_parsed (some payload) =
      verify_with (curve.message_of payload.intent)
        (curve.decode_key payload.intent.merchant_signing_key) (curve.from_base64 payload.signature)

  unfoldable pub verify_merchant_signature : SignedPaymentIntentV1 → Bool
  verify_merchant_signature input = verify_parsed (parse_signed_payment_intent formats input)
