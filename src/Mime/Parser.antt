-- ===== src/Mime/Parser.antt =====
-- mime/src/MimeParser.cpp: `ParseEmail` and the parts of a multipart body. An email is passed on in
-- place of the reference. `none` is a recursion that ran out of fuel.
use ua_5308_smtp.Prelude.{
  ℕ, zero, suc, Bool, true, false, ◌||◌, Option, some, none, List, [], ◌∷◌, ◌++◌, ◌==◌,
  if◌then◌else◌, not, Bytes, codes, is_empty, front_is, starts_with, drop, length, take_until,
}
use ua_5308_smtp.Prelude.Search.{cut_at?, contains, to_lower}
use ua_5308_smtp.Base64.Alphabet
use ua_5308_smtp.Base64.Decoder.{decode_base64}
use ua_5308_smtp.Mime.Decoder.{decode_encoded_word, decode_quoted_printable}
use ua_5308_smtp.Mime.Email.{Email, add_attachment}
use ua_5308_smtp.Mime.Headers.{
  split_headers_and_body, get_header_value, extract_boundary, extract_charset, extract_file_name,
  split_addresses,
}

-- `ParseMainHeaders`
unfoldable pub parse_main_headers : Bytes → Email → Email
unfolding decode_encoded_word get_header_value split_addresses
parse_main_headers top_headers email = record email {
  sender = decode_encoded_word (get_header_value top_headers (codes "From:"));
  subject = decode_encoded_word (get_header_value top_headers (codes "Subject:"));
  date = get_header_value top_headers (codes "Date:");
  to_list = split_addresses (decode_encoded_word (get_header_value top_headers (codes "To:")));
  cc_list = split_addresses (decode_encoded_word (get_header_value top_headers (codes "Cc:")));
  message_id = get_header_value top_headers (codes "Message-ID:");
  in_reply_to = get_header_value top_headers (codes "In-Reply-To:");
  references = get_header_value top_headers (codes "References:");
}

-- A failure of the decoder leaves the body as it is.
unfoldable pub decode_or_keep : Bytes → Bytes
unfolding decode_base64
decode_or_keep body = elim (decode_base64 body) [
  | Alphabet.ok decoded ↦ decoded
  | Alphabet.err _ ↦ body
]

abbrev pub or_seven_bit : Bytes → Bytes
or_seven_bit encoding = if is_empty encoding then codes "7bit" else encoding

abbrev pub set_charset : Bytes → Email → Email
set_charset cs email = if is_empty cs then email else record email { charset = cs }

-- The two loops over the delimiters, of `ParseMultipartBody` and `ParsePartStructure`: behind a
-- delimiter, what the loop goes on with.
abbrev pub skip_byte : ℕ → Bytes → Bytes
skip_byte c body = if front_is c body then drop 1 body else body

abbrev pub skip_line_end : Bytes → Bytes
skip_line_end body = skip_byte b'\n' (skip_byte b'\r' body)

unfoldable pub parts_behind : ℕ → Bytes → Bytes → Option (List Bytes)
unfolding cut_at?
parts_behind zero delimiter body = none
parts_behind (suc fuel) delimiter body =
    let start = skip_line_end body in
    if starts_with start (codes "--") then some [] else elim (cut_at? delimiter start) [
      | none ↦ some []
      | some (part_raw, rest) ↦ elim (parts_behind fuel delimiter rest) [
        | none ↦ none
        | some parts ↦ some (part_raw ∷ parts)
      ]
    ]

-- The parts of a body, in order. They do not depend on what is made of them.
unfoldable pub parts_of : Bytes → Bytes → Option (List Bytes)
unfolding parts_behind cut_at?
parts_of body boundary = elim (cut_at? (codes "--" ++ boundary) body) [
  | none ↦ some []
  | some (_, rest) ↦ parts_behind (suc (length rest)) (codes "--" ++ boundary) rest
]

-- `std::remove` of carriage returns, then of line feeds.
abbrev remove_byte : ℕ → Bytes → Bytes
remove_byte c [] = []
remove_byte c (d ∷ s) = if d == c then remove_byte c s else d ∷ remove_byte c s

abbrev pub remove_line_ends : Bytes → Bytes
remove_line_ends s = remove_byte b'\n' (remove_byte b'\r' s)

abbrev pub joined : Bytes → Bytes → Bytes
joined encoding body = if contains (codes "base64") encoding then remove_line_ends body else body

-- `part_body` of a text, decoded where the encoding is base64.
unfoldable pub text_of : Bytes → Bytes → Bytes
unfolding decode_or_keep contains
text_of encoding body =
    if contains (codes "base64") encoding then decode_or_keep (remove_line_ends body) else body

-- The branches of `ProcessMimePart` for a part that is not a multipart.
unfoldable pub process_leaf : Bytes → Bytes → Email → Email
unfolding contains extract_file_name add_attachment text_of extract_charset get_header_value
process_leaf headers body email =
    let content_type = to_lower (get_header_value headers (codes "Content-Type:")) in
    let disposition = to_lower (get_header_value headers (codes "Content-Disposition:")) in
    let encoding = to_lower (get_header_value headers (codes "Content-Transfer-Encoding:")) in
    if contains (codes "attachment") disposition
      || contains (codes "name=") content_type
      || contains (codes "filename=") disposition
    then add_attachment (extract_file_name headers) (take_until (λ c. c == b';') content_type)
        (joined encoding body) email
    else if contains (codes "text/plain") content_type
    then record (set_charset (extract_charset (get_header_value headers (codes "Content-Type:")))
        email) { plain_text_encoding = or_seven_bit encoding; plain_text = text_of encoding body }
    else if contains (codes "text/html") content_type
    then record email {
      html_text_encoding = or_seven_bit encoding;
      html_text = text_of encoding body;
    }
    else email

unfoldable pub process_parts : (Bytes → Email → Option Email) → List Bytes → Email → Option Email
process_parts process [] email = some email
process_parts process (part_raw ∷ parts) email = elim (process part_raw email) [
  | none ↦ none
  | some email' ↦ process_parts process parts email'
]

-- `ParseMultipartBody`, over what is made of a part.
unfoldable pub parse_multipart_body :
    (Bytes → Email → Option Email) → Bytes → Bytes → Email → Option Email
unfolding parts_of process_parts
parse_multipart_body process body boundary email = elim (parts_of body boundary) [
  | none ↦ none
  | some parts ↦ process_parts process parts email
]

-- The body of a part: quoted-printable text is decoded first.
unfoldable pub part_body : Bytes → Bytes → Bytes
unfolding contains decode_quoted_printable get_header_value
part_body headers body =
    if contains (codes "quoted-printable")
      (to_lower (get_header_value headers (codes "Content-Transfer-Encoding:")))
    then decode_quoted_printable body
    else body

abbrev pub set_alternative : Bytes → Bytes → Email → Email
set_alternative content_type boundary email =
    if contains (codes "multipart/alternative") content_type
    then record email { boundary_alternative = boundary }
    else email

-- `ProcessMimePart`
unfoldable pub process_mime_part : ℕ → Bytes → Email → Option Email
unfolding split_headers_and_body part_body extract_boundary parse_multipart_body process_leaf
    contains
process_mime_part zero part_raw email = none
process_mime_part (suc fuel) part_raw email =
    let (headers, raw_body) = split_headers_and_body part_raw in
    let body = part_body headers raw_body in
    let given = get_header_value headers (codes "Content-Type:") in
    let content_type = to_lower given in
    let boundary = extract_boundary given in
    let nested =
      parse_multipart_body (process_mime_part fuel) body boundary
        (set_alternative content_type boundary email) in
    if contains (codes "multipart") content_type
    then (if is_empty boundary then some email else nested)
    else some (process_leaf headers body email)

abbrev pub set_boundary : Bytes → Bytes → Email → Email
set_boundary content_type boundary email =
    if contains (codes "multipart/mixed") content_type
    then record email { boundary_mixed = boundary }
    else set_alternative content_type boundary email

-- The body of a message without parts.
unfoldable pub parse_single : Bytes → Bytes → Email → Email
unfolding contains extract_charset decode_quoted_printable decode_or_keep get_header_value
parse_single top_headers body email =
    let encoding = to_lower (get_header_value top_headers (codes "Content-Transfer-Encoding:")) in
    record (set_charset (extract_charset (get_header_value top_headers (codes "Content-Type:")))
      email) {
        plain_text_encoding = or_seven_bit encoding;
        plain_text =
            if contains (codes "quoted-printable") encoding
            then decode_quoted_printable body
            else if contains (codes "base64") encoding
            then decode_or_keep body
            else body;
      }

-- `ParseEmail`: what it returns, and the email.
unfoldable pub parse_email_in : ℕ → Bytes → Email → Option (Bool × Email)
unfolding split_headers_and_body parse_main_headers extract_boundary process_mime_part parse_single
    contains get_header_value
parse_email_in fuel raw_mime email =
    let (top_headers, body) = split_headers_and_body raw_mime in
    let email1 = parse_main_headers top_headers email in
    let given = get_header_value top_headers (codes "Content-Type:") in
    let content_type = to_lower given in
    let boundary = extract_boundary given in
    if is_empty raw_mime
    then some (false, email)
    else if not (contains (codes "multipart") content_type)
    then some (true, parse_single top_headers body email1)
    else if is_empty boundary
    then some (false, record email1 { plain_text = body })
    else elim (parse_multipart_body (process_mime_part fuel) body boundary
        (set_boundary content_type boundary email1)) [
          | none ↦ none
          | some parsed ↦ some (true, parsed)
        ]

-- `ParseEmail`: a part is shorter than its body, so that the length of the message bounds the nesting.
unfoldable pub parse_email : Bytes → Email → Option (Bool × Email)
unfolding parse_email_in
parse_email raw_mime email = parse_email_in (length raw_mime) raw_mime email
