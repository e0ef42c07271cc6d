-- ===== src/Imap/Envelope.antt =====
-- imap-server/src/ImapUtils.cpp: `FormatAddress` and `BuildEnvelope`.
use ua_5308_smtp.Prelude.{
  ℕ, ◌+◌, ◌-◌, Bool, true, false, not, ◌&&◌, ◌||◌, Option, none, some, List, [], ◌∷◌, ◌++◌, ◌==◌,
  ltb, if◌then◌else◌, Bytes, codes, equal, is_empty, find?, find_last_index?, front_is, back_is,
  pop_back, take, drop, substr, length, to_string,
}
use ua_5308_smtp.Effects.{M, ◌>>=◌, return, value, outcome}
use ua_5308_smtp.Database.Rows.{Message, Recipient, RecipientType, to, cc, bcc}
use ua_5308_smtp.Database.Queries.{rows_where}
use ua_5308_smtp.Database.RecipientDal
use ua_5308_smtp.Mime.Email.{Email}
use ua_5308_smtp.Imap.Session.{Server, repo}
use ua_5308_smtp.Imap.Dates.{date_to_eml_date}

abbrev quote : Bytes
quote = b'"' ∷ []

abbrev pub in_quotes : Bytes → Bytes
in_quotes s = quote ++ (s ++ quote)

abbrev nil_text : Bytes
nil_text = codes "NIL"

-- The name in front of the bracket, without the blanks behind it and the quotes around it.
abbrev strip_quotes : Bytes → Bytes
strip_quotes name =
    if front_is b'"' name && back_is b'"' name && ltb 1 (length name)
    then pop_back (drop 1 name)
    else name

abbrev pub personal_name : Bytes → Bytes
personal_name name = elim (find_last_index? (λ c. not (c == b' ' || c == b'\t')) name) [
  | none ↦ nil_text
  | some name_end ↦ in_quotes (strip_quotes (take (name_end + 1) name))
]

-- The name and the address of a text that may have brackets.
abbrev pub split_brackets : Bytes → Bytes × Bytes
split_brackets raw_email = elim (find? b'<' raw_email) [
  | none ↦ (nil_text, raw_email)
  | some bracket_start ↦ elim (find? b'>' raw_email) [
    | none ↦ (nil_text, raw_email)
    | some bracket_end ↦
        if ltb bracket_start bracket_end
        then (
          personal_name (take bracket_start raw_email),
          substr raw_email (bracket_start + 1) (bracket_end - bracket_start - 1),
        )
        else (nil_text, raw_email)
  ]
]

abbrev mailbox_and_host : Bytes → Bytes
mailbox_and_host email_part = elim (find? b'@' email_part) [
  | none ↦ in_quotes email_part ++ (codes " " ++ in_quotes (codes "unknown"))
  | some at_pos ↦
      in_quotes (take at_pos email_part) ++ (codes " " ++ in_quotes (drop (at_pos + 1) email_part))
]

-- `FormatAddress`
unfoldable pub format_address : Bytes → Bytes
format_address raw_email =
    let (name, email_part) = split_brackets raw_email in
    if is_empty raw_email || equal raw_email nil_text
    then nil_text
    else codes "(" ++ (name ++ (codes " NIL " ++ (mailbox_and_host email_part ++ codes ")")))

-- `get_list_of_receipients`: the last space becomes the closing bracket.
abbrev pub addresses : List Recipient → Bytes
addresses [] = []
addresses (rec ∷ []) = format_address rec.address
addresses (rec ∷ other ∷ recs) = format_address rec.address ++ b' ' ∷ addresses (other ∷ recs)

abbrev pub list_of_receipients : List Recipient → Bytes
list_of_receipients [] = codes "NIL "
list_of_receipients (rec ∷ recs) = codes "(" ++ (addresses (rec ∷ recs) ++ codes ")")

abbrev pub is_to : RecipientType → Bool
is_to to = true
is_to _ = false

abbrev pub is_cc : RecipientType → Bool
is_cc cc = true
is_cc _ = false

abbrev is_bcc : RecipientType → Bool
is_bcc bcc = true
is_bcc _ = false

abbrev pub value_or : Option Bytes → Bytes → Bytes
value_or none d = d
value_or (some s) d = s

-- What the envelope takes from the email, or from the row where there is none.
pub record Origin : Type 0 where
  pub sender : Bytes
  pub subject : Bytes
  pub message_id : Bytes
  pub in_reply_to : Bytes

abbrev origin_of : Message → ℕ → Option Email → Origin
origin_of msg id none = record {
  sender = [];
  subject = value_or msg.subject [];
  message_id = codes "<" ++ (to_string id ++ codes "@test.com>");
  in_reply_to = value_or msg.in_reply_to nil_text;
}
origin_of msg id (some email) = record {
  sender = email.sender;
  subject = email.subject;
  message_id = email.message_id;
  in_reply_to = email.in_reply_to;
}

abbrev pub envelope_date : Bytes → Message → Option Email → M Server Bytes
envelope_date undefined msg none = outcome (date_to_eml_date undefined msg.internal_date)
envelope_date undefined msg (some email) = return email.date

abbrev reply_text : Bytes → Bytes
reply_text in_reply_to =
    if is_empty in_reply_to || equal in_reply_to nil_text
    then codes "NIL "
    else codes "<" ++ (in_reply_to ++ codes "> ")

-- The text of the envelope.
unfoldable pub envelope_text : Origin → Bytes → List Recipient → Bytes
unfolding format_address
envelope_text o date all_receipients =
    let from = format_address o.sender ++ codes " " in
    codes "("
    ++ (in_quotes date
        ++ (codes " "
            ++ (in_quotes o.subject
                ++ (codes " "
                    ++ (from
                        ++ (from
                            ++ (from
                                ++ (list_of_receipients
                                      (rows_where (λ (r : Recipient). is_to r.type) all_receipients)
                                    ++ (list_of_receipients (
                                          rows_where (λ (r : Recipient). is_cc r.type)
                                            all_receipients)
                                        ++ (list_of_receipients (
                                              rows_where (λ (r : Recipient). is_bcc r.type)
                                                all_receipients)
                                            ++ (reply_text o.in_reply_to
                                                ++ (in_quotes o.message_id ++ codes ")"))))))))))))

-- `BuildEnvelope`; `undefined` is the name that `DateToEmlDate` gives to a day of which the sum
-- overflows.
unfoldable pub build_envelope : Bytes → Message → Option Email → M Server Bytes
unfolding envelope_text date_to_eml_date
build_envelope undefined msg email_opt = value msg.id >>= λ id.
    repo (RecipientDal.find_by_message id) >>= λ all_receipients.
    envelope_date undefined msg email_opt >>= λ date.
    return (envelope_text (origin_of msg id email_opt) date all_receipients)
