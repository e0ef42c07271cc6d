-- ===== src/Base64/StreamEncoder.antt =====
-- base64/src/Base64StreamEncoder.cpp. `m_left` is the list of its first `m_left_size` bytes: the
-- code reads no other. An operation returns what it writes to the stream and the new state.
use ua_5308_smtp.Prelude.{
  ℕ, ◌+◌, true, false, [], ◌∷◌, ◌++◌, ◌==◌, leb, ltb, if◌then◌else◌, length, Bytes,
}
use ua_5308_smtp.Base64.Alphabet.{Result, ok, err, file_too_large, max_file_size}
use ua_5308_smtp.Base64.Encoder.{block_of, chars_of, crlf}

pub record StreamEncoder : Type 0 where
  pub left : Bytes
  pub line_length : ℕ
  pub total_encoded : ℕ

abbrev pub fresh : StreamEncoder
fresh = record { left = []; line_length = 0; total_encoded = 0 }

-- The four characters that `EncodePart` makes of one, two or three bytes. It is called on no other.
abbrev pub part_chars : Bytes → Bytes
part_chars [] = []
part_chars (a ∷ []) = chars_of (block_of a 0 0) false false
part_chars (a ∷ b ∷ []) = chars_of (block_of a b 0) true false
part_chars (a ∷ b ∷ c ∷ _) = chars_of (block_of a b c) true true

-- The loop that writes the characters and breaks the line at every 76th.
unfoldable pub write_chars : Bytes → ℕ → Bytes × ℕ
write_chars [] n = ([], n)
write_chars (c ∷ cs) n =
    let full = n + 1 == 76 in
    let (out, n') = write_chars cs (if full then 0 else n + 1) in
    (c ∷ ((if full then crlf else []) ++ out), n')

-- `EncodePart`
abbrev pub encode_part : Bytes → ℕ → Bytes × ℕ
encode_part part = write_chars (part_chars part)

-- The loop that fills `m_left`; it gives up as soon as two bytes are there.
unfoldable pub fill_left : Bytes → Bytes → Bytes × Bytes
fill_left left [] = (left, [])
fill_left left (d ∷ ds) =
    if ltb (length left) 3
    then (if leb 2 (length left) then (left, d ∷ ds) else fill_left (left ++ d ∷ []) ds)
    else (left, d ∷ ds)

-- The loop over whole groups: what it writes, the bytes it leaves, and the line length.
unfoldable pub encode_whole : Bytes → ℕ → Bytes × Bytes × ℕ
encode_whole (a ∷ b ∷ c ∷ rest) n =
    let (out, n') = encode_part (a ∷ b ∷ c ∷ []) n in
    let (more, left, n'') = encode_whole rest n' in (out ++ more, left, n'')
encode_whole rest n = ([], rest, n)

-- The last loop: it stops when the data or the room in `m_left` runs out.
unfoldable pub keep_left : Bytes → Bytes → Bytes
keep_left left [] = left
keep_left left (d ∷ ds) = if ltb (length left) 3 then keep_left (left ++ d ∷ []) ds else left

-- The branch `m_left_size > 0`: what it writes, the bytes left over and to come, and the line length.
unfoldable pub use_left : StreamEncoder → Bytes → Bytes × Bytes × Bytes × ℕ
unfolding fill_left
use_left e input =
    if ltb 0 (length e.left)
    then (let (filled, rest) = fill_left e.left input in
        let (out, n) = encode_part filled e.line_length in
        if length filled == 3 then (out, [], rest, n) else ([], filled, rest, e.line_length))
    else ([], e.left, input, e.line_length)

-- `EncodeStream`
unfoldable pub encode_stream : StreamEncoder → Bytes → Result (Bytes × StreamEncoder)
unfolding use_left encode_whole keep_left write_chars
encode_stream e input =
    if ltb max_file_size (e.total_encoded + length input)
    then err file_too_large
    else (let (first, left, rest, n) = use_left e input in
        let (whole, tail, n') = encode_whole rest n in
        ok (
          first ++ whole,
          record {
            left = keep_left left tail;
            line_length = n';
            total_encoded = e.total_encoded + length input;
          },
        ))

-- `Finalize`
unfoldable pub finalize_encoder : StreamEncoder → Bytes × StreamEncoder
unfolding write_chars
finalize_encoder e =
    let (out, n) =
      if ltb 0 (length e.left) then encode_part e.left e.line_length else ([], e.line_length) in
    (out ++ (if ltb 0 n then crlf else []), record e { left = []; line_length = n })
