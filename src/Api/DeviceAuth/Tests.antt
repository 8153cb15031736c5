-- ===== src/Api/DeviceAuth/Tests.antt =====
-- One device, one challenge, one session, with a runtime that knows only them.
use rosa_pay_application.Base.{
  ℕ, ◌≡◌, ◌≤◌, ◌<◌, refl, String, true, none, some, List, [], ◌∷◌, replicate, str_eq, ltb,
  if◌then◌else◌,
}
use rosa_pay_application.Base.Pieces.{split}
use rosa_pay_application.Signer.{Bytes}
use rosa_pay_application.Api.DeviceAuth.{
  Runtime, SessionPayload, PartialPayload, AuthRepo, sign, verify_session, token_pieces,
  read_payload, same_bytes,
}
use rosa_pay_application.Api.DeviceAuth.Challenges.{
  DeviceCall, asking, answering, opened, opened_once,
}
use rosa_pay_application.Api.DeviceAuth.Sessions.{
  whole, IsCodec, verify_session-of_signed, verify_session-was_signed,
}

abbrev payload : SessionPayload
payload = record { v = 1; sub = "u"; signer = "pk"; exp = 900000 }

abbrev read_text : String → Bytes
read_text s =
    if str_eq s "pk"
    then 4 ∷ replicate 64 9
    else if str_eq s "sig"
    then 48 ∷ 6 ∷ 2 ∷ 1 ∷ 5 ∷ 2 ∷ 1 ∷ 7 ∷ []
    else if str_eq s "payload"
    then 1 ∷ []
    else if str_eq s "mac"
    then 2 ∷ []
    else []

abbrev write_bytes : Bytes → String
write_bytes [] = "none"
write_bytes (b ∷ rest) = if ltb b 2 then "payload" else (if ltb b 3 then "mac" else "pk")

abbrev rt : Runtime
rt = record {
  from_base64 = read_text;
  to_base64 = write_bytes;
  from_base64url = read_text;
  to_base64url = write_bytes;
  is_point = λ _. true;
  verify = λ _ _ _. some true;
  sha256 = λ _. replicate 32 7;
  hmac = λ _ _. 2 ∷ [];
  stringify = λ _. 1 ∷ [];
  parse = λ _. some (whole payload);
}

abbrev issued : AuthRepo
issued = record {
  challenges =
      ("c", record { id = "c"; public_signer = "pk"; digest = "d"; expires_at = 300000 }) ∷ [];
  users = [];
}

abbrev calls : List DeviceCall
calls = asking 10 "e" "f" "pk" ∷ answering 20 "c" "pk" "sig" ∷ answering 30 "c" "pk" "sig" ∷ []

opened_once_example : opened rt "secret" "c" calls issued ≤ 1
opened_once_example = opened_once rt "secret" "c" calls issued (refl, (tt, (tt, tt)))

payload-IsCodec : IsCodec rt "secret" payload
payload-IsCodec = record {
  payload_decodes = refl;
  mac_decodes = refl;
  payload_dotless = refl;
  mac_dotless = refl;
  payload_written = refl;
  mac_written = refl;
  parses = refl;
}

verify_session-of_signed_example :
    verify_session rt "secret" 1000 (sign rt "secret" payload)
    ≡ (if ltb 1000 900000 then some ("u", "pk") else none)
verify_session-of_signed_example =
    verify_session-of_signed rt "secret" 1000 payload payload-IsCodec refl

verify_session-was_signed_example :
    (encoded : String) × ((mac : String) × ((parsed : PartialPayload) × ((exp : ℕ) × (token_pieces
              rt
              (split b'.' "payload.mac")
            ≡ some (encoded, mac))
          × (rt.from_base64url mac ≡ rt.hmac "secret" encoded)
          × (rt.parse (rt.from_base64url encoded) ≡ some parsed)
          × (parsed.v ≡ some 1)
          × (parsed.sub ≡ some "u")
          × (parsed.signer ≡ some "pk")
          × (parsed.exp ≡ some exp)
          × (1000 < exp))))
unfolding verify_session split token_pieces same_bytes read_payload
verify_session-was_signed_example =
    verify_session-was_signed rt "secret" 1000 "payload.mac" "u" "pk" refl
