-- ===== src/Base64/Encoder.antt =====
-- base64/src/Base64Encoder.cpp. The loop over `i += 3` is a recursion on the bytes left; the bounds
-- tests `i + 1 < data_size` and `i + 2 < data_size` are its patterns.
use Prim.Native.Nat.{bit_or}
use ua_5308_smtp.Prelude.{
  ℕ, ◌+◌, ◌*◌, ◌/◌, ◌^◌, ◌<◌, ◌≡◌, Bool, true, false, not, ◌&&◌, [], ◌∷◌, ◌++◌, ltb, leb,
  if◌then◌else◌, is_empty, length, Bytes, arith,
}
use ua_5308_smtp.Prelude.Bits.{shl, shr, low_bits, bit_or-shl}
use ua_5308_smtp.Base64.Alphabet.{Result, ok, err, file_too_large, letter, max_file_size}

-- `(byte0 << 16) | (byte1 << 8) | byte2`
unfoldable pub block_of : ℕ → ℕ → ℕ → ℕ
block_of byte0 byte1 byte2 = bit_or (bit_or (shl byte0 16) (shl byte1 8)) byte2

-- The four characters of a block, the last two of which may be padding.
unfoldable pub chars_of : ℕ → Bool → Bool → Bytes
unfolding block_of
chars_of block second third =
    letter (low_bits (shr block 18) 6)
    ∷ letter (low_bits (shr block 12) 6)
    ∷ (if second then letter (low_bits (shr block 6) 6) else b'=')
    ∷ (if third then letter (low_bits block 6) else b'=')
    ∷ []

abbrev pub crlf : Bytes
crlf = b'\r' ∷ b'\n' ∷ []

-- The loop of `ChunkBytes`, from the current `line_length`: what it appends to `output`.
unfoldable pub chunk_loop : Bytes → ℕ → Bytes
chunk_loop [] line_length = []
chunk_loop (a ∷ []) line_length = chars_of (block_of a 0 0) false false
chunk_loop (a ∷ b ∷ []) line_length = chars_of (block_of a b 0) true false
chunk_loop (a ∷ b ∷ c ∷ rest) line_length =
    let line' = line_length + 4 in
    let full = leb 76 line' && not (is_empty rest) in
    chars_of (block_of a b c) true true
    ++ ((if full then crlf else []) ++ chunk_loop rest (if full then 0 else line'))

unfoldable pub chunk_bytes : Bytes → Bytes → Bytes
unfolding chunk_loop
chunk_bytes data_bytes output = output ++ chunk_loop data_bytes 0

-- `EncodeBase64`
unfoldable pub encode_base64 : Bytes → Result Bytes
unfolding chunk_bytes
encode_base64 data_bytes =
    if ltb max_file_size (length data_bytes)
    then err file_too_large
    else ok (chunk_bytes data_bytes [])

-- The size that `ChunkBytes` reserves.
unfoldable pub estimated_size : ℕ → ℕ
estimated_size data_size = let estimated = (data_size + 2) / 3 * 4 in estimated + estimated / 76 * 2

pub block_of-sum : (a b c : ℕ) → b < 256 → c < 256 → block_of a b c ≡ a * 65536 + b * 256 + c
unfolding block_of
block_of-sum a b c hb hc =
    rw (bit_or-shl 16 a (b * 256) (omega arith), regroup)
      (omega (arith, bit_or-shl 8 (a * 256 + b) c hc))
  where
    regroup : a * 65536 + b * 256 ≡ (a * 256 + b) * 2 ^ 8
    regroup = omega arith
