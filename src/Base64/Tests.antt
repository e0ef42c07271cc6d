-- ===== src/Base64/Tests.antt =====
-- The codecs at concrete inputs.
use ua_5308_smtp.Prelude.{
  ◌+◌, ◌*◌, ◌/◌, ◌%◌, ◌-◌, ◌≤◌, ◌≡◌, refl, [], ◌∷◌, replicate, some, Bytes, codes, length, arith,
}
use ua_5308_smtp.Prelude.Int.{negsuc}
use ua_5308_smtp.Base64.Alphabet.{
  ok, err, ◌>>=◌, invalid_symbol, invalid_character, is_valid_base64, table_value, letter,
}
use ua_5308_smtp.Base64.Encoder.{encode_base64, chars_of, block_of, estimated_size}
use ua_5308_smtp.Base64.Decoder.{decode_base64, decode_group}
use ua_5308_smtp.Base64.RoundTrip.{
  AreBytes, decode_base64-encode_base64, decode_base64-encode_base64_long, length-encode_base64,
}
use ua_5308_smtp.Base64.Bounds.{AreValid, decode_base64_bounds}
use ua_5308_smtp.Base64.StreamEncoder.{encode_stream, encode_part}
use ua_5308_smtp.Base64.StreamDecoder.{decode_stream, decode_part}
use ua_5308_smtp.Base64.Attachment.{encode_file, encode_file-round_trip}
use ua_5308_smtp.Base64.Faults.{encode_stream_drops, encode_stream_reorders, decode_part_accepts}

abbrev text : Bytes
text = codes "any"

text-AreBytes : AreBytes text
text-AreBytes = ground arith

decode_base64-encode_base64_example : (encode_base64 text >>= decode_base64) ≡ ok text
decode_base64-encode_base64_example = decode_base64-encode_base64 text text-AreBytes (ground arith)

abbrev long_text : Bytes
long_text = replicate 58 b'a'

decode_base64-encode_base64_long_example :
    (encode_base64 long_text >>= decode_base64) ≡ err (invalid_symbol b'\r')
decode_base64-encode_base64_long_example =
    decode_base64-encode_base64_long long_text (ground arith) (ground arith)

encoded_text : encode_base64 text ≡ ok (codes "YW55")
unfolding encode_base64 chars_of block_of letter
encoded_text = refl

length-encode_base64_example :
    (length (codes "YW55") ≡ (length text + 2) / 3 * 4 + 2 * (((length text + 2) / 3 * 4 - 1) / 76))
    × (length (codes "YW55") ≤ estimated_size (length text))
length-encode_base64_example = length-encode_base64 text encoded_text

decoded_text : decode_base64 (codes "YW55") ≡ ok text
unfolding decode_base64 is_valid_base64 table_value
decoded_text = refl

decode_base64_bounds_example :
    AreValid (codes "YW55")
    × (length (codes "YW55") % 4 ≡ 0)
    × AreBytes text
    × (length text ≤ length (codes "YW55") / 4 * 3)
decode_base64_bounds_example = decode_base64_bounds (codes "YW55") decoded_text

encode_file-round_trip_example :
    (s : Bytes) × (encode_file (some text) ≡ some (ok s)) × (decode_stream [] s ≡ (text, ok []))
encode_file-round_trip_example = encode_file-round_trip text text-AreBytes (ground arith)

encode_stream_drops_example :
    encode_stream (record { left = 1 ∷ 2 ∷ []; line_length = 0; total_encoded = 2 }) (3 ∷ 4 ∷ [])
    ≡ encode_stream (record { left = 1 ∷ 2 ∷ []; line_length = 0; total_encoded = 2 }) (3 ∷ 5 ∷ [])
encode_stream_drops_example = encode_stream_drops 1 2 3 4 5 0 2

encode_stream_reorders_example :
    encode_stream
      (record { left = 1 ∷ []; line_length = 0; total_encoded = 1 })
      (2 ∷ 3 ∷ 4 ∷ 5 ∷ [])
    ≡ ok (
      (encode_part (3 ∷ 4 ∷ 5 ∷ []) 0).0,
      record {
        left = 1 ∷ 2 ∷ [];
        line_length = (encode_part (3 ∷ 4 ∷ 5 ∷ []) 0).1;
        total_encoded = 1 + 4;
      },
    )
encode_stream_reorders_example = encode_stream_reorders 1 2 3 4 5 0 1 (ground arith)

star_value : table_value b'*' ≡ negsuc 0
unfolding table_value
star_value = refl

decode_part_accepts_example :
    (decode_group (letter 1) (letter 2) b'*' b'=' ≡ err invalid_character)
    × ((out : Bytes) × (decode_part (letter 1) (letter 2) b'*' b'=' ≡ ok out) × (length out ≡ 2))
decode_part_accepts_example =
    decode_part_accepts 1 2 b'*' (ground arith) (ground arith) star_value refl
