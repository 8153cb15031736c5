-- ===== src/Signer.antt =====
-- packages/secure-signer/src/secp256r1.ts: signatures and public keys as bytes, which are numbers
-- below 256.
pub mod Der
mod Tests
use rosa_pay_application.Base.{
  ℕ, zero, suc, ◌+◌, ◌-◌, ◌*◌, ◌/◌, ◌%◌, ◌^◌, Bool, true, false, not, ◌&&◌, ◌||◌, List, [], ◌∷◌,
  ◌++◌, Result, ok, err, ◌>>=◌, ◌>>◌, guard, length, take, drop, any, ltb, leb, ◌==◌, if◌then◌else◌,
}

abbrev pub Bytes : Type 0
Bytes = List ℕ

pub data FormatError : Type 0 where
  ended_early not_a_sequence sequence_length not_an_integer integer_length : FormatError
  trailing_bytes outside_order not_a_point : FormatError

unfoldable pub curve_order : ℕ
curve_order = 115792089210356248762697446949407573529996955224135760342422259061068512044369

unfoldable pub half_order : ℕ
unfolding curve_order
half_order = curve_order / 2

-- `readByte`: the byte at the offset, and what is behind it.
abbrev pub read_byte : Bytes → Result FormatError (ℕ × Bytes)
read_byte [] = err ended_early
read_byte (b ∷ rest) = ok (b, rest)

-- `bytes.reduce((total, byte) => (total << 8n) | BigInt(byte), 0n)`
unfoldable pub from_big_endian : ℕ → Bytes → ℕ
from_big_endian total [] = total
from_big_endian total (b ∷ rest) = from_big_endian (total * 256 + b) rest

unfoldable pub read_integer : Bytes → Result FormatError (ℕ × Bytes)
read_integer der = do
  tag ← read_byte der
  guard (tag.0 == 2) not_an_integer
  size ← read_byte tag.1
  guard (not (size.0 == 0) && leb size.0 (length size.1)) integer_length
  ok (from_big_endian 0 (take size.0 size.1), drop size.0 size.1)

-- The low `n` bytes of the value, the most significant first.
unfoldable pub to_bytes : ℕ → ℕ → Bytes
to_bytes zero value = []
to_bytes (suc n) value = to_bytes n (value / 256) ++ (value % 256 ∷ [])

abbrev pub to_fixed_bytes : ℕ → Bytes
to_fixed_bytes value = to_bytes 32 value

abbrev pub in_order : ℕ → Bool
in_order value = ltb 0 value && ltb value curve_order

unfoldable pub low_s : ℕ → ℕ
low_s s = if ltb half_order s then curve_order - s else s

unfoldable pub der_to_compact_signature : Bytes → Result FormatError Bytes
der_to_compact_signature der = do
  tag ← read_byte der
  guard (tag.0 == 48) not_a_sequence
  size ← read_byte tag.1
  guard (size.0 + 2 == length der) sequence_length
  r ← read_integer size.1
  s ← read_integer r.1
  guard (length s.1 == 0) trailing_bytes
  guard (in_order r.0 && in_order s.0) outside_order
  ok (to_fixed_bytes r.0 ++ to_fixed_bytes (low_s s.0))

abbrev pub starts_with_4 : Bytes → Bool
starts_with_4 [] = false
starts_with_4 (b ∷ rest) = b == 4

-- `spki.subarray(spki.length - 65)`: of a shorter array, a start below 0 counts from its end.
unfoldable pub last_65 : Bytes → Bytes
last_65 spki =
    if ltb (length spki) 65
    then drop (length spki - (65 - length spki)) spki
    else drop (length spki - 65) spki

unfoldable pub uncompressed_point_from_spki : Bytes → Result FormatError Bytes
uncompressed_point_from_spki spki =
    if length spki == 65 && starts_with_4 spki
    then ok spki
    else if length (last_65 spki) == 65 && starts_with_4 (last_65 spki) && any (λ b. b == 4) spki
    then ok (last_65 spki)
    else err not_a_point
