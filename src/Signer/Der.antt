-- ===== src/Signer/Der.antt =====
-- The compact signatures and the points of secp256r1.ts.
use rosa_pay_application.Base.{
  ℕ, zero, suc, ◌+◌, ◌-◌, ◌*◌, ◌/◌, ◌%◌, ◌^◌, ◌<◌, ◌≤◌, ◌≡◌, refl, subst, true, ◌&&◌, [], ◌∷◌, ◌++◌,
  Result, ok, length, length-append, take-append, drop-append, any-append, bind_ok, guard_ok, guard,
  take, drop, any, ◌==◌, arith,
}
use rosa_pay_application.Signer.{
  Bytes, FormatError, curve_order, half_order, from_big_endian, to_bytes, low_s,
  der_to_compact_signature, uncompressed_point_from_spki, last_65, read_integer, starts_with_4,
  read_byte, in_order,
}

length-to_bytes : (n value : ℕ) → length (to_bytes n value) ≡ n
unfolding to_bytes
length-to_bytes zero value = refl
length-to_bytes (suc n) value = omega (
  arith,
  length-append (to_bytes n (value / 256)) (value % 256 ∷ []),
  length-to_bytes n (value / 256),
)

from_big_endian-append :
    (total b : ℕ) (bs : Bytes)
    → from_big_endian total (bs ++ (b ∷ [])) ≡ from_big_endian total bs * 256 + b
unfolding from_big_endian
from_big_endian-append total b [] = refl
from_big_endian-append total b (c ∷ bs) = from_big_endian-append (total * 256 + c) b bs

-- A value of at most `n` bytes is read back from its `n` bytes.
pub from_big_endian-to_bytes :
    (n value : ℕ) → value < 256 ^ n → from_big_endian 0 (to_bytes n value) ≡ value
unfolding from_big_endian to_bytes
from_big_endian-to_bytes zero value h = omega arith
from_big_endian-to_bytes (suc n) value h = omega (
  arith,
  from_big_endian-append 0 (value % 256) (to_bytes n (value / 256)),
  from_big_endian-to_bytes n (value / 256) (omega arith),
)

-- The low form of a value in the order is at most half the order, and it is the value or its
-- complement.
low_s-low : (s : ℕ) → 0 < s → s < curve_order → (low_s s ≤ half_order) × (0 < low_s s)
unfolding low_s half_order curve_order
low_s-low s positive below = ground arith

-- What a compact signature is: two halves of 32 bytes, with the numbers of both in range, and the
-- second in the low half of the order.
abbrev pub IsCompact : Bytes → Type 0
IsCompact signature =
    (length signature ≡ 64)
    × ((0 < from_big_endian 0 (take 32 signature))
        × (from_big_endian 0 (take 32 signature) < curve_order))
    × ((0 < from_big_endian 0 (drop 32 signature))
        × (from_big_endian 0 (drop 32 signature) ≤ half_order))

order-fits : (value : ℕ) → value < curve_order → value < 256 ^ 32
unfolding curve_order
order-fits value h = omega arith

half-fits : (value : ℕ) → value ≤ half_order → value < 256 ^ 32
unfolding half_order curve_order
half-fits value h = omega arith

to_bytes-IsCompact :
    (r s : ℕ)
    → 0 < r
    → r < curve_order
    → 0 < s
    → s ≤ half_order
    → IsCompact (to_bytes 32 r ++ to_bytes 32 s)
to_bytes-IsCompact r s r_positive r_below s_positive s_low =
    let first : take 32 (to_bytes 32 r ++ to_bytes 32 s) ≡ to_bytes 32 r =
      subst (λ n. take n (to_bytes 32 r ++ to_bytes 32 s) ≡ to_bytes 32 r) (length-to_bytes 32 r)
        (take-append (to_bytes 32 r) (to_bytes 32 s)) in
    let second : drop 32 (to_bytes 32 r ++ to_bytes 32 s) ≡ to_bytes 32 s =
      subst (λ n. drop n (to_bytes 32 r ++ to_bytes 32 s) ≡ to_bytes 32 s) (length-to_bytes 32 r)
        (drop-append (to_bytes 32 r) (to_bytes 32 s)) in
    let r_back = from_big_endian-to_bytes 32 r (order-fits r r_below) in
    let s_back = from_big_endian-to_bytes 32 s (half-fits s s_low) in
    (
      omega (
        arith,
        length-append (to_bytes 32 r) (to_bytes 32 s),
        length-to_bytes 32 r,
        length-to_bytes 32 s,
      ),
      (rw first (rw r_back r_positive), rw first (rw r_back r_below)),
      (rw second (rw s_back s_positive), rw second (rw s_back s_low)),
    )

ok_injective : (a b : Bytes) (x : Result FormatError Bytes) → x ≡ ok a → x ≡ ok b → a ≡ b
ok_injective a b x h k = ground arith

in_order-range : (value : ℕ) → in_order value ≡ true → (0 < value) × (value < curve_order)
in_order-range value h = ground arith

-- Every signature that the conversion returns is compact: 64 bytes, both numbers positive and in
-- the order, and the second in its low half.
pub der_to_compact-canonical :
    (der signature : Bytes)
    → der_to_compact_signature der ≡ ok signature
    → (length signature ≡ 64)
      × ((0 < from_big_endian 0 (take 32 signature))
          × (from_big_endian 0 (take 32 signature) < curve_order))
      × ((0 < from_big_endian 0 (drop 32 signature))
          × (from_big_endian 0 (drop 32 signature) ≤ half_order))
unfolding der_to_compact_signature
der_to_compact-canonical der signature h =
    let (tag, _, h1) = bind_ok (read_byte der) _ signature h in
    let (_, _, h2) = bind_ok (guard (tag.0 == 48) FormatError.not_a_sequence) _ signature h1 in
    let (size, _, h3) = bind_ok (read_byte tag.1) _ signature h2 in
    let (_, _, h4) =
      bind_ok (guard (size.0 + 2 == length der) FormatError.sequence_length) _ signature h3 in
    let (r, _, h5) = bind_ok (read_integer size.1) _ signature h4 in
    let (s, _, h6) = bind_ok (read_integer r.1) _ signature h5 in
    let (_, _, h7) = bind_ok (guard (length s.1 == 0) FormatError.trailing_bytes) _ signature h6 in
    let (u, in_range, h8) =
      bind_ok (guard (in_order r.0 && in_order s.0) FormatError.outside_order) _ signature h7 in
    let both = guard_ok (in_order r.0 && in_order s.0) FormatError.outside_order u in_range in
    let (r_positive, r_below) = in_order-range r.0 (ground arith) in
    let (s_positive, s_below) = in_order-range s.0 (ground arith) in
    let (s_low, low_positive) = low_s-low s.0 s_positive s_below in
    let written : to_bytes 32 r.0 ++ to_bytes 32 (low_s s.0) ≡ signature =
      ok_injective _ _ _ refl h8 in
    subst IsCompact written
      (to_bytes-IsCompact r.0 (low_s s.0) r_positive r_below low_positive s_low)

-- The DER form of two integers of these bytes.
abbrev pub der_integer : Bytes → Bytes
der_integer bytes = 2 ∷ length bytes ∷ bytes

abbrev pub der_signature : Bytes → Bytes → Bytes
der_signature r s = 48 ∷ (length r + length s + 4) ∷ (der_integer r ++ der_integer s)

marked_any : (bytes : Bytes) → starts_with_4 bytes ≡ true → any (λ b. b == 4) bytes ≡ true
marked_any [] h = ground arith
marked_any (b ∷ bytes) h = ground arith

-- Any prefix before the 65 bytes of an uncompressed point is taken off.
pub uncompressed_point-of_prefixed :
    (prefix point : Bytes)
    → length point ≡ 65
    → starts_with_4 point ≡ true
    → uncompressed_point_from_spki (prefix ++ point) ≡ ok point
unfolding uncompressed_point_from_spki last_65
uncompressed_point-of_prefixed [] point size mark = ground arith
uncompressed_point-of_prefixed (b ∷ prefix) point size mark =
    let total : length (prefix ++ point) ≡ length prefix + 65 =
      omega (arith, length-append prefix point) in
    let behind : length ((b ∷ prefix) ++ point) - 65 ≡ length (b ∷ prefix) = omega arith in
    let tail : drop (length ((b ∷ prefix) ++ point) - 65) ((b ∷ prefix) ++ point) ≡ point =
      rw behind (drop-append (b ∷ prefix) point) in
    let marked : any (λ c. c == 4) ((b ∷ prefix) ++ point) ≡ true =
      any-append (λ c. c == 4) (b ∷ prefix) point (marked_any point mark) in
    rw tail (ground arith)
