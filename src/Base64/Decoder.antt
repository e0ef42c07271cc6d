-- ===== src/Base64/Decoder.antt =====
-- base64/src/Base64Decoder.cpp. The sanitising loop, the length test, and the loop over groups of
-- four characters. A throw abandons what was decoded so far.
use Prim.Native.Nat.{bit_or}
use ua_5308_smtp.Prelude.{
  ℕ, ◌+◌, ◌*◌, ◌%◌, ◌^◌, ◌<◌, ◌≡◌, not, ◌&&◌, ◌||◌, [], ◌∷◌, ◌++◌, ◌==◌, if◌then◌else◌, length,
  Bytes, arith,
}
use ua_5308_smtp.Prelude.Int.{ℤ, pos, is_neg, to_u32}
use ua_5308_smtp.Prelude.Bits.{shl32, shr, low_bits, bit_or-shl}
use ua_5308_smtp.Base64.Alphabet.{
  Result, ok, err, ◌>>=◌, invalid_symbol, not_base64, invalid_character, table_value,
  is_valid_base64,
}

-- The first loop: `clean_str`.
unfoldable pub sanitise : Bytes → Result Bytes
sanitise [] = ok []
sanitise (c ∷ cs) =
    if is_valid_base64 c then (do rest ← sanitise cs; ok (c ∷ rest)) else err (invalid_symbol c)

-- `(c == '=') ? 0 : decode_table[(unsigned char) c]`
abbrev pub padded_value : ℕ → ℤ
padded_value c = if c == b'=' then pos 0 else table_value c

-- `(value0 << 18) | (value1 << 12) | (value2 << 6) | value3`, as a `uint32_t`.
unfoldable pub join_values : ℤ → ℤ → ℤ → ℤ → ℕ
join_values v0 v1 v2 v3 =
    bit_or (bit_or (bit_or (shl32 (to_u32 v0) 18) (shl32 (to_u32 v1) 12)) (shl32 (to_u32 v2) 6))
      (to_u32 v3)

-- The bytes that a block gives, with the padding tests on `c2` and `c3`.
abbrev pub bytes_of : ℕ → ℕ → ℕ → Bytes
bytes_of block c2 c3 =
    low_bits (shr block 16) 8
    ∷ ((if c2 == b'=' then [] else low_bits (shr block 8) 8 ∷ [])
        ++ (if c3 == b'=' then [] else low_bits block 8 ∷ []))

-- The body of the second loop.
unfoldable pub decode_group : ℕ → ℕ → ℕ → ℕ → Result Bytes
decode_group c0 c1 c2 c3 =
    let value0 = table_value c0 in
    let value1 = table_value c1 in
    let value2 = padded_value c2 in
    let value3 = padded_value c3 in
    if is_neg value0
      || is_neg value1
      || (not (c2 == b'=') && is_neg value2)
      || (not (c3 == b'=') && is_neg value3)
    then err invalid_character
    else ok (bytes_of (join_values value0 value1 value2 value3) c2 c3)

-- The second loop. It runs on a length that is a multiple of four, so the other patterns are not met.
unfoldable pub decode_groups : Bytes → Result Bytes
decode_groups (c0 ∷ c1 ∷ c2 ∷ c3 ∷ rest) = do
  group ← decode_group c0 c1 c2 c3
  more ← decode_groups rest
  ok (group ++ more)
decode_groups _ = ok []

-- `DecodeBase64`
unfoldable pub decode_base64 : Bytes → Result Bytes
unfolding sanitise decode_groups decode_group join_values
decode_base64 encoded_data = do
  clean_str ← sanitise encoded_data
  if length clean_str % 4 == 0 then decode_groups clean_str else err not_base64

pub join_values-sum :
    (v0 v1 v2 v3 : ℕ)
    → v0 < 64
    → v1 < 64
    → v2 < 64
    → v3 < 64
    → join_values (pos v0) (pos v1) (pos v2) (pos v3) ≡ v0 * 262144 + v1 * 4096 + v2 * 64 + v3
unfolding join_values
join_values-sum v0 v1 v2 v3 h0 h1 h2 h3 =
    rw (small0, small1, small2, small3, bit_or-shl 18 v0 (v1 * 4096) (omega arith), regroup1)
      (rw (bit_or-shl 12 (v0 * 64 + v1) (v2 * 64) (omega arith), regroup2)
        (omega (arith, bit_or-shl 6 (v0 * 4096 + v1 * 64 + v2) v3 (omega arith))))
  where
    small0 : (v0 % 2 ^ 32) * 2 ^ 18 % 2 ^ 32 ≡ v0 * 2 ^ 18
    small0 = omega arith

    small1 : (v1 % 2 ^ 32) * 2 ^ 12 % 2 ^ 32 ≡ v1 * 4096
    small1 = omega arith

    small2 : (v2 % 2 ^ 32) * 2 ^ 6 % 2 ^ 32 ≡ v2 * 64
    small2 = omega arith

    small3 : v3 % 2 ^ 32 ≡ v3
    small3 = omega arith

    regroup1 : v0 * 2 ^ 18 + v1 * 4096 ≡ (v0 * 64 + v1) * 2 ^ 12
    regroup1 = omega arith

    regroup2 : (v0 * 64 + v1) * 2 ^ 12 + v2 * 64 ≡ (v0 * 4096 + v1 * 64 + v2) * 2 ^ 6
    regroup2 = omega arith
