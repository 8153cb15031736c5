-- ===== src/Api/DeviceAuth/Sessions.antt =====
-- The session tokens of DeviceAuthService.ts: what is signed is accepted until it expires, and what
-- is accepted was signed.
use Prim.Native.Char.{char}
use rosa_pay_application.Base.{
  ℕ, ◌≡◌, refl, String, Bool, true, false, Option, none, some, [], ◌∷◌, arith, inl, inr,
  Option-cases, ◌<◌, ltb, if◌then◌else◌,
}
use rosa_pay_application.Base.Text.{is_empty}
use rosa_pay_application.Base.Pieces.{split, is_free, split-joined}
use rosa_pay_application.Signer.{Bytes}
use rosa_pay_application.Api.DeviceAuth.{
  Runtime, SessionPayload, PartialPayload, sign, verify_session, token_pieces, read_payload,
  same_bytes, join_token,
}

same_bytes_refl : (bytes : Bytes) → same_bytes bytes bytes ≡ true
unfolding same_bytes
same_bytes_refl [] = refl
same_bytes_refl (b ∷ bytes) = ground (arith, same_bytes_refl bytes)

same_bytes-equal : (a b : Bytes) → same_bytes a b ≡ true → a ≡ b
unfolding same_bytes
same_bytes-equal [] [] h = refl
same_bytes-equal [] (b ∷ bs) h = ground arith
same_bytes-equal (a ∷ rest) [] h = ground arith
same_bytes-equal (a ∷ rest) (b ∷ bs) h = ground (arith, same_bytes-equal rest bs)

-- The payload as `JSON.parse` gives it back.
abbrev pub whole : SessionPayload → PartialPayload
whole p = record { v = some p.v; sub = some p.sub; signer = some p.signer; exp = some p.exp }

abbrev pub is_text : String → Bool
is_text s = elim (is_empty s) [ true ↦ false | false ↦ is_free b'.' s ]

-- What a session needs of Buffer and JSON for one payload and its code: base64url gives back the
-- bytes, writes no dot and no empty text, and JSON gives back the payload.
pub record IsCodec (rt : Runtime) (secret : String) (p : SessionPayload) : Type 0 where
  pub payload_decodes : rt.from_base64url (rt.to_base64url (rt.stringify p)) ≡ rt.stringify p
  pub mac_decodes :
      let mac = rt.hmac secret (rt.to_base64url (rt.stringify p)) in
      rt.from_base64url (rt.to_base64url mac) ≡ mac
  pub payload_dotless : is_free b'.' (rt.to_base64url (rt.stringify p)) ≡ true
  pub mac_dotless :
      is_free b'.' (rt.to_base64url (rt.hmac secret (rt.to_base64url (rt.stringify p)))) ≡ true
  pub payload_written : is_empty (rt.to_base64url (rt.stringify p)) ≡ false
  pub mac_written :
      is_empty (rt.to_base64url (rt.hmac secret (rt.to_base64url (rt.stringify p)))) ≡ false
  pub parses : rt.parse (rt.stringify p) ≡ some (whole p)

no_answer : {A : Type 0} {x : Option A} {a : A} → x ≡ some a → x ≡ none → ⊥
no_answer h k = ground arith

none≢some : {A : Type 0} (a : A) → none ≡ some a → ⊥
none≢some a h = ground arith

module _ (rt : Runtime) where
  token_pieces-sign :
      (secret : String) (p : SessionPayload) (codec : IsCodec rt secret p)
      → token_pieces rt (split b'.' (sign rt secret p))
        ≡ some (
          rt.to_base64url (rt.stringify p),
          rt.to_base64url (rt.hmac secret (rt.to_base64url (rt.stringify p))),
        )
  unfolding sign token_pieces
  token_pieces-sign secret p codec =
      let encoded = rt.to_base64url (rt.stringify p) in
      let mac = rt.to_base64url (rt.hmac secret encoded) in
      let cut : split b'.' (join_token encoded mac) ≡ encoded ∷ mac ∷ [] =
        split-joined (char 46 tt) encoded mac codec.payload_dotless codec.mac_dotless in
      rw cut (rw codec.payload_written (rw codec.mac_written refl))

  -- What `sign` makes of a version 1 payload is accepted under the same secret until the payload
  -- expires, and answers its user and signer; from then on it is refused. `codec` is what is asked
  -- of base64url and JSON.
  pub verify_session-of_signed :
      (secret : String) (now : ℕ) (p : SessionPayload) (codec : IsCodec rt secret p)
      → p.v ≡ 1
      → verify_session rt secret now (sign rt secret p)
        ≡ (if ltb now p.exp then some (p.sub, p.signer) else none)
  unfolding verify_session read_payload
  verify_session-of_signed secret now p codec version =
      let mac = rt.hmac secret (rt.to_base64url (rt.stringify p)) in
      rw (token_pieces-sign secret p codec, verify_session)
        (rw codec.mac_decodes (
          rw (same_bytes_refl mac)
            (rw codec.payload_decodes (rw (codec.parses, verify_session) (ground arith)))))

  read_payload-fields :
      (now : ℕ) (payload : PartialPayload) (user signer : String)
      → read_payload rt now payload ≡ some (user, signer)
      → (exp : ℕ) × (payload.v ≡ some 1)
        × (payload.sub ≡ some user)
        × (payload.signer ≡ some signer)
        × (payload.exp ≡ some exp)
        × (now < exp)
  unfolding read_payload
  read_payload-fields now payload user signer h = elim (Option-cases payload.exp) [
    | inl missing ↦ absurd (no_answer h (ground arith))
    | inr (exp, found) ↦ (exp, ground arith, ground arith, ground arith, ground arith, ground arith)
  ]

  -- What is left of the verification once the pieces are there.
  abbrev check_pieces : String → ℕ → String → String → Option (String × String)
  check_pieces secret now encoded mac =
      if same_bytes (rt.from_base64url mac) (rt.hmac secret encoded)
      then elim (rt.parse (rt.from_base64url encoded)) [
        | none ↦ none
        | some payload ↦ read_payload rt now payload
      ]
      else none

  checked :
      (secret : String) (now : ℕ) (encoded mac : String) (answer : String × String)
      → check_pieces secret now encoded mac ≡ some answer
      → (same_bytes (rt.from_base64url mac) (rt.hmac secret encoded) ≡ true)
        × ((payload : PartialPayload) × (rt.parse (rt.from_base64url encoded) ≡ some payload)
            × (read_payload rt now payload ≡ some answer))
  checked secret now encoded mac answer h =
      elim (Option-cases (rt.parse (rt.from_base64url encoded))) [
        | inl missing ↦ absurd (no_answer h (ground arith))
        | inr (payload, found) ↦ (ground arith, (payload, found, ground arith))
      ]

  -- A token that is accepted carries, in its second piece, the code of its first piece under the
  -- secret, and the first piece is a payload of version 1 that has not expired and names the answer.
  pub verify_session-was_signed :
      (secret : String) (now : ℕ) (token user signer : String)
      → verify_session rt secret now token ≡ some (user, signer)
      → (encoded : String) × ((mac : String) × ((payload : PartialPayload) × ((exp : ℕ)
              × (token_pieces rt (split b'.' token) ≡ some (encoded, mac))
              × (rt.from_base64url mac ≡ rt.hmac secret encoded)
              × (rt.parse (rt.from_base64url encoded) ≡ some payload)
              × (payload.v ≡ some 1)
              × (payload.sub ≡ some user)
              × (payload.signer ≡ some signer)
              × (payload.exp ≡ some exp)
              × (now < exp))))
  unfolding verify_session read_payload
  verify_session-was_signed secret now token user signer accepted =
      elim (Option-cases (token_pieces rt (split b'.' token))) [
        | inl missing ↦ absurd (none≢some (user, signer) (rw (missing, verify_session) at accepted))
        | inr ((encoded, mac), cut) ↦
            let (same, (payload, parsed, read)) =
              checked secret now encoded mac (user, signer)
                (rw (cut, verify_session) at accepted) in
            let (exp, version, of_user, of_signer, until, live) =
              read_payload-fields now payload user signer read in
            (
              encoded,
              (
                mac,
                (
                  payload,
                  (
                    exp,
                    cut,
                    same_bytes-equal (rt.from_base64url mac) (rt.hmac secret encoded) same,
                    parsed,
                    version,
                    of_user,
                    of_signer,
                    until,
                    live,
                  ),
                ),
              ),
            )
      ]
