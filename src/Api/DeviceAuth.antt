-- ===== src/Api/DeviceAuth.antt =====
-- apps/api/src/application/DeviceAuthService.ts: device challenges, and the sessions that a solved
-- challenge opens. Times are milliseconds. Base64, JSON, hashes and the curve are a `Runtime`.
pub mod Challenges
pub mod Sessions
mod Tests
use Prim.Native.Char.{char}
use rosa_pay_application.Base.{
  ℕ, zero, suc, ◌+◌, ◌*◌, ◌/◌, ◌%◌, String, Bool, true, false, ◌&&◌, Option, none, some, List, [],
  ◌∷◌, ◌++◌, Result, ok, err, ◌>>=◌, any, take, drop, ltb, leb, ◌==◌, str_eq, if◌then◌else◌,
}
use rosa_pay_application.Base.Dict.{Dict, get, put, delete}
use rosa_pay_application.Base.Text.{is_empty}
use rosa_pay_application.Base.Pieces.{split, append, joined, hex}
use rosa_pay_application.Signer.{Bytes, der_to_compact_signature, uncompressed_point_from_spki}

pub record DeviceChallenge : Type 0 where
  pub id : String
  pub public_signer : String
  pub digest : String
  pub expires_at : ℕ

pub record SessionPayload : Type 0 where
  pub v : ℕ
  pub sub : String
  pub signer : String
  pub exp : ℕ

-- `Partial<SessionPayload>` as `JSON.parse` leaves it: a field is `none` where it is missing or of
-- another type than the code asks for.
pub record PartialPayload : Type 0 where
  pub v : Option ℕ
  pub sub : Option String
  pub signer : Option String
  pub exp : Option ℕ

-- Buffer, node:crypto, JSON and @noble/curves. `none` is what throws.
pub record Runtime : Type 0 where
  pub from_base64 : String → Bytes
  pub to_base64 : Bytes → String
  pub from_base64url : String → Bytes
  pub to_base64url : Bytes → String
  pub is_point : Bytes → Bool
  pub verify : Bytes → Bytes → Bytes → Option Bool
  pub sha256 : String → Bytes
  pub hmac : String → String → Bytes
  pub stringify : SessionPayload → Bytes
  pub parse : Bytes → Option PartialPayload

-- `InMemoryDeviceAuthRepository`
pub record AuthRepo : Type 0 where
  pub challenges : Dict DeviceChallenge
  pub users : List String

unfoldable pub save_challenge : DeviceChallenge → AuthRepo → AuthRepo
save_challenge challenge r = record r { challenges = put challenge.id challenge r.challenges }

-- The challenge is gone whether or not it is this signer's and still open.
unfoldable pub consume_challenge :
    String → String → ℕ → AuthRepo → Option DeviceChallenge × AuthRepo
consume_challenge id signer now r = elim (get id r.challenges) [
  | none ↦ (none, r)
  | some challenge ↦ (
    if str_eq challenge.public_signer signer && ltb now challenge.expires_at
        then some challenge
        else none,
    record r { challenges = delete id r.challenges },
  )
]

unfoldable pub ensure_user : String → AuthRepo → AuthRepo
ensure_user id r = if any (str_eq id) r.users then r else record r { users = r.users ++ (id ∷ []) }

pub data DeviceAuthenticationError : Type 0 where
  invalid_challenge invalid_signature invalid_public_key : DeviceAuthenticationError

abbrev pub challenge_ttl_ms : ℕ
challenge_ttl_ms = 300000

abbrev pub session_ttl_ms : ℕ
session_ttl_ms = 900000

-- The byte at the place, changed.
abbrev pub change : ℕ → (ℕ → ℕ) → Bytes → Bytes
change n f [] = []
change zero f (b ∷ rest) = f b ∷ rest
change (suc n) f (b ∷ rest) = b ∷ change n f rest

abbrev pub dashed : List String → String
dashed [] = ""
dashed (piece ∷ []) = piece
dashed (piece ∷ next ∷ rest) = append piece (append "-" (dashed (next ∷ rest)))

-- A text as the code's template literal `${encoded}.${mac}` has it.
abbrev pub join_token : String → String → String
join_token encoded mac = joined (char 46 tt) encoded mac

-- `timingSafeEqual` of buffers of one length, and `false` for two lengths.
unfoldable pub same_bytes : Bytes → Bytes → Bool
same_bytes [] [] = true
same_bytes [] (b ∷ bs) = false
same_bytes (a ∷ rest) [] = false
same_bytes (a ∷ rest) (b ∷ bs) = a == b && same_bytes rest bs

module _ (rt : Runtime) where
  -- `bytes[6] = (bytes[6] & 0x0f) | 0x50`, `bytes[8] = (bytes[8] & 0x3f) | 0x80`
  unfoldable pub user_bytes : String → Bytes
  user_bytes signer =
      change 8 (λ b. b % 64 + 128) (change 6 (λ b. b % 16 + 80) (take 16 (rt.sha256 signer)))

  unfoldable pub user_id_for_signer : String → String
  unfolding user_bytes
  user_id_for_signer signer =
      let bytes = user_bytes signer in
      dashed (
        hex (take 4 bytes)
        ∷ hex (take 2 (drop 4 bytes))
        ∷ hex (take 2 (drop 6 bytes))
        ∷ hex (take 2 (drop 8 bytes))
        ∷ hex (drop 10 bytes)
        ∷ [])

  unfoldable pub canonicalize_device_public_signer :
      String → Result DeviceAuthenticationError String
  canonicalize_device_public_signer signer =
      elim (uncompressed_point_from_spki (rt.from_base64 signer)) [
        | err e ↦ err invalid_public_key
        | ok point ↦ if rt.is_point point then ok (rt.to_base64 point) else err invalid_public_key
      ]

  -- `id` is `randomUUID()`, `digest` is `randomBytes(32)` in base64.
  unfoldable pub challenge :
      ℕ
      → String
      → String
      → String
      → AuthRepo
      → Result DeviceAuthenticationError DeviceChallenge × AuthRepo
  challenge now id digest signer r = elim (canonicalize_device_public_signer signer) [
    | err e ↦ (err e, r)
    | ok canonical ↦
        let fresh : DeviceChallenge = record {
          id = id;
          public_signer = canonical;
          digest = digest;
          expires_at = now + challenge_ttl_ms;
        } in
        (ok fresh, save_challenge fresh r)
  ]

  unfoldable pub verified : String → String → String → Bool
  verified signature digest signer = elim (der_to_compact_signature (rt.from_base64 signature)) [
    | err e ↦ false
    | ok compact ↦ elim (rt.verify compact (rt.from_base64 digest) (rt.from_base64 signer)) [
      | none ↦ false
      | some answer ↦ answer
    ]
  ]

  unfoldable pub sign : String → SessionPayload → String
  sign secret payload =
      let encoded = rt.to_base64url (rt.stringify payload) in
      join_token encoded (rt.to_base64url (rt.hmac secret encoded))

  -- The token, and when it expires.
  unfoldable pub create_session :
      String
      → ℕ
      → String
      → String
      → String
      → AuthRepo
      → Result DeviceAuthenticationError (String × ℕ) × AuthRepo
  create_session secret now challenge_id signer signature r =
      elim (canonicalize_device_public_signer signer) [
        | err e ↦ (err e, r)
        | ok canonical ↦
            let (consumed, r') = consume_challenge challenge_id canonical now r in
            elim consumed [
              | none ↦ (err invalid_challenge, r')
              | some found ↦
                  if verified signature found.digest canonical
                  then (
                    ok (
                      sign secret (record {
                        v = 1;
                        sub = user_id_for_signer canonical;
                        signer = canonical;
                        exp = now + session_ttl_ms;
                      }),
                      now + session_ttl_ms,
                    ),
                    ensure_user (user_id_for_signer canonical) r',
                  )
                  else (err invalid_signature, r')
            ]
      ]

  -- The fields of a payload that is in force: the user and the signer.
  unfoldable pub read_payload : ℕ → PartialPayload → Option (String × String)
  read_payload now payload = elim payload.v [
    | none ↦ none
    | some version ↦ elim payload.sub [
      | none ↦ none
      | some sub ↦ elim payload.signer [
        | none ↦ none
        | some signer ↦ elim payload.exp [
          | none ↦ none
          | some exp ↦ if version == 1 && ltb now exp then some (sub, signer) else none
        ]
      ]
    ]
  ]

  -- `[encoded, suppliedMac, extra] = token.split('.')`, refused if a needed piece is missing or
  -- empty, or a third one is not empty. What is behind a third piece is not looked at.
  unfoldable pub token_pieces : List String → Option (String × String)
  token_pieces (encoded ∷ mac ∷ []) =
      if is_empty encoded then none else (if is_empty mac then none else some (encoded, mac))
  token_pieces (encoded ∷ mac ∷ extra ∷ rest) =
      if is_empty encoded
      then none
      else (if is_empty mac then none else (if is_empty extra then some (encoded, mac) else none))
  token_pieces _ = none

  unfoldable pub verify_session : String → ℕ → String → Option (String × String)
  verify_session secret now token = elim (token_pieces (split b'.' token)) [
    | none ↦ none
    | some (encoded, mac) ↦
        if same_bytes (rt.from_base64url mac) (rt.hmac secret encoded)
        then elim (rt.parse (rt.from_base64url encoded)) [
          | none ↦ none
          | some payload ↦ read_payload now payload
        ]
        else none
  ]
