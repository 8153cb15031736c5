-- ===== src/Signer/Tests.antt =====
-- Signatures and keys of a few bytes.
use rosa_pay_application.Base.{
  ◌≡◌, ◌≤◌, ◌<◌, refl, ok, [], ◌∷◌, ◌++◌, length, take, drop, replicate,
}
use rosa_pay_application.Signer.{
  Bytes, curve_order, half_order, from_big_endian, to_bytes, low_s, der_to_compact_signature,
  read_integer,
}
use rosa_pay_application.Signer.Der.{der_to_compact-canonical}

-- The numbers 258 and 7.
abbrev der : Bytes
der = 48 ∷ 7 ∷ 2 ∷ 2 ∷ 1 ∷ 2 ∷ 2 ∷ 1 ∷ 7 ∷ []

abbrev compact : Bytes
compact = to_bytes 32 258 ++ to_bytes 32 7

der_to_compact : der_to_compact_signature der ≡ ok compact
unfolding der_to_compact_signature read_integer from_big_endian low_s half_order curve_order
    to_bytes
der_to_compact = refl

der_to_compact-canonical_example :
    (length compact ≡ 64)
    × ((0 < from_big_endian 0 (take 32 compact))
        × (from_big_endian 0 (take 32 compact) < curve_order))
    × ((0 < from_big_endian 0 (drop 32 compact))
        × (from_big_endian 0 (drop 32 compact) ≤ half_order))
der_to_compact-canonical_example = der_to_compact-canonical der compact der_to_compact

abbrev point : Bytes
point = 4 ∷ replicate 64 9
