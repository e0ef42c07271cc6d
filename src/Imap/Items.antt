-- ===== src/Imap/Items.antt =====
-- imap-server/src/ImapCommandDispatcher.cpp: the data items of FETCH and UID FETCH, and the functions of
-- imap-server/src/ImapUtils.cpp that read the file of a message.
use ua_5308_smtp.Prelude.{
  Bool, ◌||◌, Option, none, some, List, [], ◌∷◌, ◌++◌, Bytes, codes, equal, is_empty, starts_with,
  pop_back, drop, length, to_string, if◌then◌else◌,
}
use ua_5308_smtp.Prelude.Search.{cut_at?}
use ua_5308_smtp.Effects.{
  M, Exception, ◌>>=◌, return, value, outcome, throw, invalid_argument, runtime_error,
}
use ua_5308_smtp.Database.Rows.{User, Message, Recipient}
use ua_5308_smtp.Database.Queries.{rows_where}
use ua_5308_smtp.Database.RecipientDal
use ua_5308_smtp.Database.Repository.Users
use ua_5308_smtp.Mime.Email.{Email, new_email}
use ua_5308_smtp.Mime.Structure.{MimePart, parse_structure}
use ua_5308_smtp.Mime.Headers.{split_headers_and_body, get_header_value}
use ua_5308_smtp.Mime.Parser.{parse_email}
use ua_5308_smtp.Imap.Session.{Server, repo}
use ua_5308_smtp.Imap.Status.{split_args, trim_parentheses}
use ua_5308_smtp.Imap.Sequence.{Machine, word_if, pop_space}
use ua_5308_smtp.Imap.Dates.{date_to_imap_internal}
use ua_5308_smtp.Imap.Bodies.{get_body_section}
use ua_5308_smtp.Imap.BodyStructure.{build_bodystructure}
use ua_5308_smtp.Imap.Envelope.{build_envelope, is_to, is_cc, value_or}
use ua_5308_smtp.Imap.Response

-- What the handlers find outside the database: the files, the boundaries that `GenerateBoundary` gives,
-- how many elements a vector can hold, the text that a read behind the last argument gives, and the name of a day of which the sum overflows.
pub record Outside : Type 0 where
  pub read : Bytes → Option Bytes
  pub generated : Bytes × Bytes
  pub machine : Machine
  pub beyond : Bytes
  pub undefined_day : Bytes

-- `GetBodyContent`
abbrev pub get_body_content : Outside → Message → Bytes
get_body_content o msg = elim (o.read msg.raw_file_path) [ none ↦ [] | some content ↦ content ]

abbrev parsed : {A : Type 0} → Option (Bool × A) → Option A
parsed none = none
parsed (some (ok, a)) = if ok then some a else none

-- `GetParsedEmail` and `GetParsedMimePart`
unfoldable pub get_parsed_email : Outside → Message → Option Email
unfolding parse_email
get_parsed_email o msg = elim (o.read msg.raw_file_path) [
  | none ↦ none
  | some raw_mime ↦ parsed (parse_email raw_mime new_email)
]

unfoldable pub get_parsed_mime_part : Outside → Message → Option MimePart
unfolding parse_structure
get_parsed_mime_part o msg = elim (o.read msg.raw_file_path) [
  | none ↦ none
  | some raw_mime ↦ parsed (parse_structure raw_mime)
]

-- The flags as FETCH gives them.
abbrev pub flags_item : Message → Bytes
flags_item msg =
    pop_space (
      codes "FLAGS ("
      ++ (word_if msg.is_seen (codes "\\Seen ")
          ++ (word_if msg.is_deleted (codes "\\Deleted ")
              ++ (word_if msg.is_draft (codes "\\Draft ")
                  ++ (word_if msg.is_answered (codes "\\Answered ")
                      ++ (word_if msg.is_flagged (codes "\\Flagged ")
                          ++ word_if msg.is_recent (codes "\\Recent ")))))))
    ++ codes ") "

-- A literal: its length, and its bytes behind a line end.
abbrev literal : Bytes → Bytes
literal text = codes "{" ++ (to_string (length text) ++ (codes "}" ++ (Response.crlf ++ text)))

abbrev join : List Bytes → Bytes
join [] = []
join (s ∷ []) = s
join (s ∷ t ∷ texts) = s ++ (codes ", " ++ join (t ∷ texts))

abbrev drop_empty : List Bytes → List Bytes
drop_empty [] = []
drop_empty (s ∷ texts) = if is_empty s then drop_empty texts else s ∷ texts

-- `to_rec`: no comma stands behind a text that is empty so far.
abbrev joined : List Bytes → Bytes
joined texts = join (drop_empty texts)

abbrev address_list : List Recipient → List Bytes
address_list [] = []
address_list (rec ∷ recs) = rec.address ∷ address_list recs

abbrev line : Bytes → Bytes → Bytes
line name text = name ++ (text ++ Response.crlf)

abbrev cc_line : Bytes → Bytes
cc_line text = if is_empty text then [] else line (codes "Cc: ") text

abbrev header_of_email : Email → Bytes
header_of_email email =
    line (codes "From: ") email.sender
    ++ (line (codes "To: ") (joined email.to_list)
        ++ (cc_line (joined email.cc_list)
            ++ (line (codes "Subject: ") email.subject
                ++ (line (codes "Date: ") email.date
                    ++ (line (codes "Message-ID: ") email.message_id ++ Response.crlf)))))

abbrev name_of : Option User → Bytes
name_of none = codes "unknown"
name_of (some user) = user.username

abbrev header_of_row : Message → Bytes → List Recipient → Bytes
header_of_row msg sender all_receipients =
    line (codes "From: ") (sender ++ codes "@test.com")
    ++ (line (codes "To: ")
          (joined (address_list (rows_where (λ (r : Recipient). is_to r.type) all_receipients)))
        ++ (cc_line
              (joined (address_list (rows_where (λ (r : Recipient). is_cc r.type) all_receipients)))
            ++ (line (codes "Subject: ") (value_or msg.subject [])
                ++ (line (codes "Date: ") msg.internal_date ++ Response.crlf))))

-- RFC822.HEADER
unfoldable pub header_item : Message → Option Email → M Server Bytes
header_item msg (some email) = return (codes "RFC822.HEADER " ++ literal (header_of_email email))
header_item msg none = repo (Users.find_by_id msg.user_id) >>= λ sender_user. value msg.id >>= λ id.
    repo (RecipientDal.find_by_message id) >>= λ all_receipients.
    return
      (codes "RFC822.HEADER " ++ literal (header_of_row msg (name_of sender_user) all_receipients))

abbrev found_headers : Bytes → List Bytes → Bytes
found_headers headers [] = []
found_headers headers (req ∷ requested) =
    let found = get_header_value headers (req ++ codes ":") in
    (if is_empty found then [] else line (req ++ codes ": ") found)
    ++ found_headers headers requested

-- BODY[HEADER.FIELDS] and BODY.PEEK[HEADER.FIELDS], with the list of the third argument.
unfoldable pub header_fields_item : Bytes → Bytes → Bytes → M Server Bytes
unfolding get_header_value split_headers_and_body
header_fields_item raw_mime item argument =
    let headers_list = trim_parentheses argument in
    let result =
      found_headers (split_headers_and_body raw_mime).0 (split_args headers_list)
      ++ Response.crlf in
    if is_empty raw_mime
    then throw (runtime_error (codes "File doesn`t have content"))
    else return (
        pop_back item
        ++ (codes " (" ++ (headers_list ++ (codes ")] " ++ (literal result ++ codes " ")))))

-- BODY[…] and BODY.PEEK[…], behind the bracket.
unfoldable pub section_item : Bytes → Bytes → Bytes → Bytes → M Server Bytes
unfolding get_body_section cut_at?
section_item raw_mime item prefix behind_bracket = elim (cut_at? (codes "]") behind_bracket) [
  | none ↦ throw (invalid_argument (codes "Invalid BODY section: " ++ item))
  | some (section, _) ↦ outcome (get_body_section raw_mime section) >>= λ content.
      return (prefix ++ (section ++ (codes "] " ++ (literal content ++ codes " "))))
]

abbrev pub is_header_fields_item : Bytes → Bool
is_header_fields_item item =
    equal item (codes "BODY[HEADER.FIELDS]") || equal item (codes "BODY.PEEK[HEADER.FIELDS]")

abbrev pub is_whole : Bytes → Bool
is_whole item =
    equal item (codes "BODY[]") || equal item (codes "RFC822") || equal item (codes "RFC822.TEXT")

abbrev pub uid_item : Message → Bytes
uid_item msg = codes "UID " ++ (to_string msg.uid ++ codes " ")

abbrev pub invalid_attribute : Bytes → Exception
invalid_attribute item = invalid_argument (codes "Invalid fetch attribute: " ++ item)

-- The branches from the header fields on.
unfoldable pub body_item : Outside → Message → Bytes → Bytes → M Server Bytes
unfolding header_fields_item section_item
body_item o msg argument item =
    if is_header_fields_item item
    then header_fields_item (get_body_content o msg) item argument
    else if starts_with item (codes "BODY.PEEK[")
    then section_item (get_body_content o msg) item (codes "BODY.PEEK[") (drop 10 item)
    else if starts_with item (codes "BODY[")
    then section_item (get_body_content o msg) item (codes "BODY[") (drop 5 item)
    else if equal item (codes "UID")
    then return (uid_item msg)
    else throw (invalid_attribute item)

abbrev pub structure_item : Outside → Message → Bytes → Bytes
structure_item o msg item =
    item
    ++ (codes " "
        ++ (build_bodystructure o.generated msg (get_parsed_email o msg)
              (get_parsed_mime_part o msg)
            ++ codes " "))

abbrev pub internal_date_item : Message → M Server Bytes
internal_date_item msg = outcome (date_to_imap_internal msg.internal_date) >>= λ date.
    return (codes "INTERNALDATE \"" ++ (date ++ codes "\" "))

abbrev pub envelope_item : Outside → Message → M Server Bytes
envelope_item o msg = build_envelope o.undefined_day msg (get_parsed_email o msg) >>= λ envelope.
    return (codes "ENVELOPE " ++ (envelope ++ codes " "))

abbrev pub size_item : Message → Bytes
size_item msg = codes "RFC822.SIZE " ++ (to_string msg.size_bytes ++ codes " ")

abbrev pub whole_item : Outside → Message → Bytes → Bytes
whole_item o msg item = item ++ (codes " " ++ (literal (get_body_content o msg) ++ codes " "))

-- A data item: the text that it adds.
unfoldable pub fetch_item : Outside → Message → Bytes → Bytes → M Server Bytes
unfolding date_to_imap_internal build_envelope build_bodystructure get_parsed_email
    get_parsed_mime_part header_item body_item
fetch_item o msg argument item =
    if equal item (codes "FLAGS")
    then return (flags_item msg)
    else if equal item (codes "INTERNALDATE")
    then internal_date_item msg
    else if equal item (codes "RFC822.SIZE")
    then return (size_item msg)
    else if equal item (codes "ENVELOPE")
    then envelope_item o msg
    else if is_whole item
    then return (whole_item o msg item)
    else if equal item (codes "RFC822.HEADER")
    then header_item msg (get_parsed_email o msg)
    else if equal item (codes "BODYSTRUCTURE") || equal item (codes "BODY")
    then return (structure_item o msg item)
    else body_item o msg argument item

unfoldable pub fetch_items : Outside → Message → Bytes → List Bytes → Bytes → M Server Bytes
unfolding fetch_item
fetch_items o msg argument [] fetch_response = return fetch_response
fetch_items o msg argument (item ∷ items) fetch_response =
    fetch_item o msg argument item >>= λ text.
    fetch_items o msg argument items (fetch_response ++ text)
