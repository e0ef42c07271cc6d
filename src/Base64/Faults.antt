-- ===== src/Base64/Faults.antt =====
-- Calls of the stream codecs on bytes left over and on characters outside the alphabet.
use ua_5308_smtp.Prelude.{
  ℕ, ◌+◌, ◌≤◌, ◌<◌, ◌≡◌, false, [], ◌∷◌, ◌==◌, append-nil, length, Bytes, arith,
}
use ua_5308_smtp.Prelude.Int.{negsuc}
use ua_5308_smtp.Base64.Alphabet.{
  ok, err, invalid_character, max_file_size, table_value, letter, letter-IsLetterOf,
}
use ua_5308_smtp.Base64.Decoder.{decode_group, join_values, padded_value, bytes_of}
use ua_5308_smtp.Base64.StreamEncoder.{encode_stream, encode_part}
use ua_5308_smtp.Base64.StreamDecoder.{decode_part}

-- A call that finds two bytes left over and brings two bytes drops the second of these: neither what
-- it writes nor the state that it leaves depends on that byte.
pub encode_stream_drops :
    (x y a b b' n total : ℕ)
    → encode_stream
        (record { left = x ∷ y ∷ []; line_length = n; total_encoded = total })
        (a ∷ b ∷ [])
      ≡ encode_stream
          (record { left = x ∷ y ∷ []; line_length = n; total_encoded = total })
          (a ∷ b' ∷ [])
unfolding encode_stream
encode_stream_drops x y a b b' n total = ground arith

-- A call that finds one byte left over writes a later group of its input in front of that byte and
-- the first byte of the input.
pub encode_stream_reorders :
    (x a b c d n total : ℕ)
    → total + 4 ≤ max_file_size
    → encode_stream
        (record { left = x ∷ []; line_length = n; total_encoded = total })
        (a ∷ b ∷ c ∷ d ∷ [])
      ≡ ok (
        (encode_part (b ∷ c ∷ d ∷ []) n).0,
        record {
          left = x ∷ a ∷ [];
          line_length = (encode_part (b ∷ c ∷ d ∷ []) n).1;
          total_encoded = total + 4;
        },
      )
unfolding encode_stream
encode_stream_reorders x a b c d n total h =
    ground (arith, append-nil (encode_part (b ∷ c ∷ d ∷ []) n).0)

-- A character outside the alphabet in the third place: `DecodeBase64` refuses the group, and the
-- stream decoder makes two bytes of it.
pub decode_part_accepts :
    (i j c : ℕ)
    → i < 64
    → j < 64
    → table_value c ≡ negsuc 0
    → (c == b'=') ≡ false
    → (decode_group (letter i) (letter j) c b'=' ≡ err invalid_character)
      × ((out : Bytes) × (decode_part (letter i) (letter j) c b'=' ≡ ok out) × (length out ≡ 2))
unfolding decode_group decode_part
decode_part_accepts i j c hi hj h k = (
  ground (arith, letter-IsLetterOf i, letter-IsLetterOf j),
  (bytes_of block c b'=', ground (arith, letter-IsLetterOf i, letter-IsLetterOf j), rw k),
)
  where
    block : ℕ
    block =
        join_values (table_value (letter i)) (table_value (letter j)) (padded_value c)
          (padded_value b'=')
