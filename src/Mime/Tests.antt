-- ===== src/Mime/Tests.antt =====
-- Runs of the MIME library at concrete input.
use ua_5308_smtp.StringUtils.{trim}
use ua_5308_smtp.Prelude.{
  List, All, arith, ◌≡◌, refl, true, Option, some, none, [], ◌∷◌, ◌++◌, codes, Bytes,
}
use ua_5308_smtp.Base64.Alphabet.{ok, is_valid_base64, table_value}
use ua_5308_smtp.Mime.Decoder.{decode_encoded_word, decode_quoted_printable}
use ua_5308_smtp.Mime.Headers.{
  get_header_value, split_addresses, extract_boundary, split_headers_and_body,
}
use ua_5308_smtp.Mime.Email.{new_email}
use ua_5308_smtp.Mime.Parser.{parse_email}
use ua_5308_smtp.Mime.Structure.{parse_structure}
use ua_5308_smtp.Mime.Encoder.{encode_header, needs_encoding}
use ua_5308_smtp.Mime.QuotedPrintable.{
  Piece, literal, escaped, soft_break, write_pieces, decode_quoted_printable-write_pieces,
}
use ua_5308_smtp.Mime.StructureTotality.{parse-Returns}
use ua_5308_smtp.Mime.Totality.{Returns}
use ua_5308_smtp.Mime.Message.{Header, IsHeader, write_message}
use ua_5308_smtp.Mime.Lookup.{get_header_value-write_message}
use ua_5308_smtp.Mime.HeaderTrip.{decode_encoded_word-encode_header}

abbrev nl : Bytes
nl = b'\r' ∷ b'\n' ∷ []

word_test : decode_encoded_word (codes "a =?UTF-8?B?aGk=?= =?x?q?=41_b?= c") ≡ codes "a hiA b c"
unfolding decode_encoded_word is_valid_base64 table_value
word_test = refl

artifact_test : decode_encoded_word (codes "x=41b") ≡ codes "xAb"
unfolding decode_encoded_word
artifact_test = refl

printable_test : decode_quoted_printable (codes "a=3Db=" ++ (nl ++ codes "c=zz")) ≡ codes "a=bc=zz"
unfolding decode_quoted_printable
printable_test = refl

abbrev test_headers : Bytes
test_headers = codes "From: x" ++ (nl ++ (codes "SUBJECT:  hello" ++ (nl ++ codes "  there ")))

header_test : get_header_value test_headers (codes "Subject:") ≡ codes "hello there"
unfolding get_header_value
header_test = refl

address_test :
    split_addresses (codes "A <a@b>, \"x, y\" <c@d> ,,e")
    ≡ codes "A <a@b>" ∷ codes "\"x, y\" <c@d>" ∷ codes "e" ∷ []
unfolding split_addresses
address_test = refl

boundary_test : extract_boundary (codes "multipart/mixed; BOUNDARY=\"b 1\"; x") ≡ codes "b 1"
unfolding extract_boundary
boundary_test = refl

abbrev test_mail : Bytes
test_mail =
    codes "Content-Type: multipart/mixed; boundary=B"
    ++ nl
    ++ nl
    ++ codes "--B"
    ++ nl
    ++ codes "Content-Type: text/plain"
    ++ nl
    ++ nl
    ++ codes "hi"
    ++ codes "--B"
    ++ nl
    ++ codes "Content-Type: text/plain; name=f.txt"
    ++ nl
    ++ nl
    ++ codes "data"
    ++ codes "--B--"

text_of_mail : Option (Bytes)
text_of_mail = elim (parse_email test_mail new_email) [ none ↦ none | some r ↦ some r.1.plain_text ]

email_test : text_of_mail ≡ some (codes "hi")
unfolding text_of_mail parse_email
email_test = refl

abbrev test_pieces : List Piece
test_pieces = literal b'a' ∷ escaped 61 ∷ soft_break ∷ escaped 200 ∷ []

decode_quoted_printable-write_pieces_example :
    decode_quoted_printable (write_pieces test_pieces) ≡ b'a' ∷ 61 ∷ 200 ∷ []
decode_quoted_printable-write_pieces_example =
    decode_quoted_printable-write_pieces test_pieces (omega arith)

parse-Returns_example :
    Returns (parse_email test_mail new_email) × Returns (parse_structure test_mail)
parse-Returns_example = parse-Returns test_mail new_email

abbrev two_headers : List Header
two_headers = (codes "From", codes "a@b") ∷ (codes "Subject", codes "hello there") ∷ []

two_headers-IsHeader : All IsHeader two_headers
unfolding trim
two_headers-IsHeader = (
  (refl, (refl, (refl, (refl, (refl, tt)))), (refl, (refl, (refl, tt))), refl),
  (
    (
      refl,
      (refl, (refl, (refl, (refl, (refl, (refl, (refl, tt))))))),
      (refl, (refl, (refl, (refl, (refl, (refl, (refl, (refl, (refl, (refl, (refl, tt))))))))))),
      refl,
    ),
    tt,
  ),
)

get_header_value-write_message_example :
    (get_header_value
        (split_headers_and_body (write_message two_headers (codes "hi"))).0
        (codes "SUBJECT" ++ b':' ∷ [])
      ≡ codes "hello there")
    × ((split_headers_and_body (write_message two_headers (codes "hi"))).1 ≡ codes "hi")
get_header_value-write_message_example =
    get_header_value-write_message (codes "SUBJECT") two_headers (codes "hi") two_headers-IsHeader

-- "h", e with an acute accent, "l"
abbrev accented : Bytes
accented = b'h' ∷ 195 ∷ 169 ∷ b'l' ∷ []

accented-needs_encoding : needs_encoding accented ≡ true
unfolding needs_encoding
accented-needs_encoding = refl

decode_encoded_word-encode_header_example :
    (s : Bytes) × (encode_header 45 accented (nl ++ codes "\t") ≡ some (ok s))
    × (decode_encoded_word s ≡ accented)
decode_encoded_word-encode_header_example =
    decode_encoded_word-encode_header 45 (nl ++ codes "\t") accented (omega arith) (omega arith)
      (refl, (refl, (refl, tt))) (refl, (refl, (refl, (refl, tt)))) (omega arith)
      accented-needs_encoding
