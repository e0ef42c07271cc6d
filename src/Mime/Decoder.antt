-- ===== src/Mime/Decoder.antt =====
-- mime/src/MimeDecoder.cpp. The loops over an index are recursions on the bytes from it on.
use ua_5308_smtp.Prelude.{
  ℕ, zero, suc, ◌+◌, ◌-◌, ◌*◌, Bool, true, false, not, ◌&&◌, ◌||◌, Option, some, none, [], ◌∷◌,
  ◌++◌, ◌==◌, leb, if◌then◌else◌, length, Bytes, codes, equal, is_blank, find_index?,
}
use ua_5308_smtp.Prelude.Search.{cut_at?}
use ua_5308_smtp.Base64.Alphabet
use ua_5308_smtp.Base64.Decoder.{decode_base64}

-- `IsHex`
abbrev pub is_hex : ℕ → Bool
is_hex c = leb b'0' c && leb c b'9' || leb b'A' c && leb c b'F' || leb b'a' c && leb c b'f'

-- The branches of the loop of `InternalHexToChar`, for a digit.
abbrev pub hex_value : ℕ → ℕ
hex_value h =
    if leb b'0' h && leb h b'9'
    then h - b'0'
    else if leb b'A' h && leb h b'F'
    then h - b'A' + 10
    else h - b'a' + 10

-- `InternalHexToChar` of two characters: '?' where one is no digit.
unfoldable pub internal_hex_to_char : ℕ → ℕ → ℕ
internal_hex_to_char h l = if is_hex h && is_hex l then hex_value h * 16 + hex_value l else b'?'

-- `HasQpArtifacts`
unfoldable pub has_qp_artifacts : Bytes → Bool
has_qp_artifacts (c ∷ h ∷ l ∷ text) =
    c == b'=' && is_hex h && is_hex l || has_qp_artifacts (h ∷ l ∷ text)
has_qp_artifacts _ = false

abbrev pub space_for_underscore : ℕ → ℕ
space_for_underscore c = if c == b'_' then b' ' else c

-- `DecodeQEncoding`
unfoldable pub decode_q_encoding : Bytes → Bytes
unfolding internal_hex_to_char
decode_q_encoding [] = []
decode_q_encoding (c ∷ []) = space_for_underscore c ∷ []
decode_q_encoding (c ∷ h ∷ []) = space_for_underscore c ∷ space_for_underscore h ∷ []
decode_q_encoding (c ∷ h ∷ l ∷ text) =
    let plain = space_for_underscore c ∷ decode_q_encoding (h ∷ l ∷ text) in
    let escaped = internal_hex_to_char h l ∷ decode_q_encoding text in
    if c == b'=' && is_hex h && is_hex l then escaped else plain

-- `find_first_not_of(" \t\r\n") != npos`
abbrev pub has_text : Bytes → Bool
has_text s = elim (find_index? (λ c. not (is_blank c)) s) [ none ↦ false | some _ ↦ true ]

-- What stands in front of an encoded word or behind the last: blanks are left out between words.
abbrev pub gap_of : Bool → Bytes → Bytes
gap_of found_any_encoded gap = if not found_any_encoded || has_text gap then gap else []

-- A failure of the Base64 decoder leaves the text as it is.
unfoldable pub decode_word : Bytes → Bytes → Bytes
unfolding decode_q_encoding decode_base64
decode_word encoding text =
    if equal encoding (codes "Q") || equal encoding (codes "q")
    then decode_q_encoding text
    else if equal encoding (codes "B") || equal encoding (codes "b")
    then elim (decode_base64 text) [ Alphabet.ok bytes ↦ bytes | Alphabet.err _ ↦ text ]
    else text

-- A word behind its "=?": the decoded part and what follows it.
unfoldable pub read_word : Bytes → Option (Bytes × Bytes)
unfolding decode_word cut_at?
read_word input = elim (cut_at? (codes "?") input) [
  | none ↦ none
  | some (charset, input1) ↦ elim (cut_at? (codes "?") input1) [
    | none ↦ none
    | some (encoding, input2) ↦ elim (cut_at? (codes "?=") input2) [
      | none ↦ none
      | some (text, rest) ↦ some (decode_word encoding text, rest)
    ]
  ]
]

-- The loop of `DecodeEncodedWord`: what it appends to the result, and whether a word was found. Every
-- round that goes on passes six bytes at least, so that the length of the input is enough fuel.
unfoldable pub word_loop : ℕ → Bool → Bytes → Bool × Bytes
unfolding read_word
word_loop zero found_any_encoded input = (found_any_encoded, [])
word_loop (suc fuel) found_any_encoded [] = (found_any_encoded, [])
word_loop (suc fuel) found_any_encoded (c ∷ input) = elim (cut_at? (codes "=?") (c ∷ input)) [
  | none ↦ (found_any_encoded, gap_of found_any_encoded (c ∷ input))
  | some (gap, word) ↦ elim (read_word word) [
    | none ↦ (found_any_encoded, gap_of found_any_encoded gap ++ (codes "=?" ++ word))
    | some (decoded_part, rest) ↦
        let more = word_loop fuel true rest in
        (more.0, gap_of found_any_encoded gap ++ (decoded_part ++ more.1))
  ]
]

-- `DecodeEncodedWord`
unfoldable pub decode_encoded_word : Bytes → Bytes
unfolding word_loop has_qp_artifacts
decode_encoded_word input =
    let (found_any_encoded, result) = word_loop (length input) false input in
    if not found_any_encoded && has_qp_artifacts result then decode_q_encoding result else result

-- The line end behind a soft "=": '\r', '\n' or both in this order.
abbrev pub is_line_end : ℕ → Bool
is_line_end c = c == b'\r' || c == b'\n'

-- `DecodeQuotedPrintable`
unfoldable pub decode_quoted_printable : Bytes → Bytes
unfolding internal_hex_to_char
decode_quoted_printable [] = []
decode_quoted_printable (c ∷ []) = c ∷ []
decode_quoted_printable (c ∷ h ∷ []) =
    let plain = c ∷ decode_quoted_printable (h ∷ []) in
    if c == b'=' && is_line_end h then [] else plain
decode_quoted_printable (c ∷ h ∷ l ∷ input) =
    let behind_two = decode_quoted_printable (l ∷ input) in
    let behind_three = decode_quoted_printable input in
    let plain = c ∷ decode_quoted_printable (h ∷ l ∷ input) in
    if c == b'=' && is_line_end h
    then (if h == b'\r' && l == b'\n' then behind_three else behind_two)
    else if c == b'=' && is_hex h && is_hex l
    then internal_hex_to_char h l ∷ behind_three
    else plain
