-- ===== src/Mime/Encoder.antt =====
-- mime/src/MimeEncoder.cpp. The size of a part of a header is the configuration's `header_chunk_size`.
use ua_5308_smtp.Prelude.{
  ℕ, zero, suc, Bool, false, ◌||◌, Option, some, none, [], ◌∷◌, ◌++◌, ltb, if◌then◌else◌, Bytes,
  codes, is_empty, take, drop, length,
}
use ua_5308_smtp.Base64.Alphabet.{Result, ok, err}
use ua_5308_smtp.Base64.Encoder.{encode_base64}
use ua_5308_smtp.StringUtils.Wrap.{find_utf8_safe_end}

-- `NeedsEncoding`
unfoldable pub needs_encoding : Bytes → Bool
needs_encoding [] = false
needs_encoding (c ∷ text) = ltb c 32 || ltb 126 c || needs_encoding text

abbrev pub encoded_word : Bytes → Bytes
encoded_word base64_chunk = codes "=?UTF-8?B?" ++ (base64_chunk ++ codes "?=")

abbrev pub append_word : Bytes → Bytes → Bytes → Bytes
append_word separator result base64_chunk =
    (if is_empty result then [] else result ++ separator) ++ encoded_word base64_chunk

-- The loop of `EncodeHeader` on the text that is left. `none` is a loop that ran out of fuel: it goes on
-- for ever where a part is empty.
unfoldable pub encode_loop : ℕ → ℕ → Bytes → Bytes → Bytes → Option (Result Bytes)
unfolding find_utf8_safe_end encode_base64
encode_loop fuel chunk_size separator result [] = some (ok result)
encode_loop zero chunk_size separator result (c ∷ text) = none
encode_loop (suc fuel) chunk_size separator result (c ∷ text) =
    let end_pos = find_utf8_safe_end (c ∷ text) 0 chunk_size in
    elim (encode_base64 (take end_pos (c ∷ text))) [
      | err e ↦ some (err e)
      | ok base64_chunk ↦
          encode_loop fuel chunk_size separator (append_word separator result base64_chunk)
            (drop end_pos (c ∷ text))
    ]

-- `EncodeHeader`
unfoldable pub encode_header : ℕ → Bytes → Bytes → Option (Result Bytes)
unfolding needs_encoding encode_loop
encode_header chunk_size text separator =
    if needs_encoding text
    then encode_loop (length text) chunk_size separator [] text
    else some (ok text)
