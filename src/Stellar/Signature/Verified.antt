-- ===== src/Stellar/Signature/Verified.antt =====
-- A merchant's signature verifies.
use rosa_pay_application.Base.{
  ℕ, ◌≡◌, sym, ap, ◌∙◌, String, true, false, not, Option, none, some, List, ok, err, length, ◌==◌,
  if◌then◌else◌, arith,
}
use rosa_pay_application.Base.Text.{is_empty}
use rosa_pay_application.Protocol.Schema.{PaymentIntentV1}
use rosa_pay_application.Protocol.Schema.Parsing.{Formats, parse_payment_intent}
use rosa_pay_application.Protocol.Schema.Parsing.Stable.{parse_payment_intent-stable}
use rosa_pay_application.Stellar.Signature.{
  Ed25519, SigningError, parse_signed_payment_intent, signature_of, sign_merchant_intent,
  merchant_signing_key_from_secret, verify_merchant_signature,
}

-- What is documented of the curve and of the encodings: a signature verifies under the key of its
-- secret, and what is encoded is decoded again and is no empty text.
pub record IsEd25519 (curve : Ed25519) : Type 0 where
  pub verifies :
      (secret message : List ℕ)
      → curve.verify (curve.sign message secret) message (curve.public_key secret) ≡ true
  pub keys :
      (secret : List ℕ)
      → curve.decode_key (curve.encode_key (curve.public_key secret))
        ≡ some (curve.public_key secret)
  pub base64 :
      (secret message : List ℕ)
      → curve.from_base64 (curve.to_base64 (curve.sign message secret))
        ≡ some (curve.sign message secret)
  pub written :
      (secret message : List ℕ) → is_empty (curve.to_base64 (curve.sign message secret)) ≡ false

module _ (curve : Ed25519) (formats : Formats) where
  signed-with :
      (o : Option PaymentIntentV1) (intent : PaymentIntentV1) (secret : List ℕ) (signature : String)
      → o ≡ some intent
      → (if not (length secret == 32)
          then err SigningError.secret_length
          else signature_of curve formats o secret)
        ≡ ok signature
      → curve.to_base64 (curve.sign (curve.message_of intent) secret) ≡ signature
  signed-with none intent secret signature same h = ground arith
  signed-with (some i) intent secret signature same h = ground arith

  key-of :
      (secret : List ℕ) (key : String)
      → merchant_signing_key_from_secret curve formats secret ≡ ok key
      → curve.encode_key (curve.public_key secret) ≡ key
  unfolding merchant_signing_key_from_secret
  key-of secret key h = ground arith

  -- What a merchant signs with a secret, the code verifies in a request that the schema has parsed and
  -- that names the key of that secret.
  pub verify_merchant_signature-signed :
      (secret : List ℕ) (input intent : PaymentIntentV1) (signature : String)
      → IsEd25519 curve
      → parse_payment_intent formats input ≡ some intent
      → sign_merchant_intent curve formats input secret ≡ ok signature
      → merchant_signing_key_from_secret curve formats secret ≡ ok intent.merchant_signing_key
      → verify_merchant_signature curve formats (record { intent = intent; signature = signature })
        ≡ true
  unfolding sign_merchant_intent verify_merchant_signature parse_signed_payment_intent
  verify_merchant_signature-signed secret input intent signature laws parsed signed key =
      let made =
        signed-with (parse_payment_intent formats input) intent secret signature parsed signed in
      let named = key-of secret intent.merchant_signing_key key in
      let message = curve.message_of intent in
      let filled : is_empty signature ≡ false =
        ap is_empty (sym made) ∙ laws.written secret message in
      let decoded : curve.decode_key intent.merchant_signing_key ≡ some (curve.public_key secret) =
        ap curve.decode_key (sym named) ∙ laws.keys secret in
      let bytes : curve.from_base64 signature ≡ some (curve.sign message secret) =
        ap curve.from_base64 (sym made) ∙ laws.base64 secret message in
      rw (parse_payment_intent-stable formats input intent parsed)
        (rw filled (rw decoded (rw bytes (laws.verifies secret message))))
