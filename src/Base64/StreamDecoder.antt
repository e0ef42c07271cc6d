-- ===== src/Base64/StreamDecoder.antt =====
-- base64/src/Base64StreamDecoder.cpp. `m_buffer` is the list of its first `m_buffer_size`
-- characters. An operation returns what it has written to the stream and the new buffer or the
-- exception; what was written before a throw stays written.
use ua_5308_smtp.Prelude.{ℕ, ◌||◌, [], ◌∷◌, ◌++◌, if◌then◌else◌, is_blank, Bytes}
use ua_5308_smtp.Prelude.Int.{is_neg, lt_minus_two}
use ua_5308_smtp.Base64.Alphabet.{Result, ok, err, invalid_character, invalid_stream, table_value}
use ua_5308_smtp.Base64.Decoder.{padded_value, join_values, bytes_of}

-- What was written, and how the operation ended.
abbrev pub Written : Type 0
Written = Bytes × Result Bytes

abbrev pub prepend : Bytes → Written → Written
prepend out m = (out ++ m.0, m.1)

infixl 5 ◌>>=◌
abbrev pub ◌>>=◌ : Written → (Bytes → Written) → Written
(out, err e) >>= f = (out, err e)
(out, ok buffer) >>= f = prepend out (f buffer)

-- `DecodePart`
unfoldable pub decode_part : ℕ → ℕ → ℕ → ℕ → Result Bytes
decode_part p0 p1 p2 p3 =
    let value0 = table_value p0 in
    let value1 = table_value p1 in
    let value2 = padded_value p2 in
    let value3 = padded_value p3 in
    if is_neg value0 || is_neg value1 || lt_minus_two value2 || lt_minus_two value3
    then err invalid_character
    else ok (bytes_of (join_values value0 value1 value2 value3) p2 p3)

-- A part is written whole, or nothing of it is.
abbrev pub write_part : Result Bytes → Written
write_part (ok out) = (out, ok [])
write_part (err e) = ([], err e)

-- `m_buffer[m_buffer_size++] = c`, and the decoding of a full buffer.
unfoldable pub put_char : Bytes → ℕ → Written
put_char (b0 ∷ b1 ∷ b2 ∷ _) c = write_part (decode_part b0 b1 b2 c)
put_char buffer c = ([], ok (buffer ++ c ∷ []))

-- `DecodeStream`
unfoldable pub decode_stream : Bytes → Bytes → Written
unfolding put_char
decode_stream buffer [] = ([], ok buffer)
decode_stream buffer (c ∷ cs) = do
  buffer' ← if is_blank c then ([], ok buffer) else put_char buffer c
  decode_stream buffer' cs

-- `Finalize`
unfoldable pub finalize_decoder : Bytes → Written
finalize_decoder [] = ([], ok [])
finalize_decoder (b0 ∷ b1 ∷ b2 ∷ b3 ∷ []) = write_part (decode_part b0 b1 b2 b3)
finalize_decoder buffer = ([], err invalid_stream)
