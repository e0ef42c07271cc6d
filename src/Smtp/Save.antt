-- ===== src/Smtp/Save.antt =====
-- server/SmtpSession.cpp: `SaveMessage` and its helpers. A `continue` of the loop over the
-- recipients is a round that answers false. Log calls are left out.
use ua_5308_smtp.Prelude.{
  ℕ, ◌+◌, Bool, true, false, not, ◌&&◌, ◌||◌, Option, none, some, List, [], ◌∷◌, ◌++◌, ltb,
  if◌then◌else◌, Bytes, codes, equal, is_empty, get_or, map, to_string, length,
}
use ua_5308_smtp.Effects.{M, ◌>>=◌, ◌>>◌, return, call, value}
use ua_5308_smtp.Database.Rows.{User, RecipientType, to, cc, bcc, Message}
use ua_5308_smtp.Smtp.Services.{Services, Email}
use ua_5308_smtp.Smtp.State.{Session, extract_username}

abbrev is_to : RecipientType → Bool
is_to to = true
is_to _ = false

-- `HasHtml`, and the text for `mime_structure`.
unfoldable pub structure_of : Email → Bytes
structure_of e =
    if ltb 0 e.attachments
    then codes "multipart/mixed; parts="
      ++ (to_string (1 + e.attachments) ++ (codes "; attachments=" ++ to_string e.attachments))
    else if not (is_empty e.html_text)
    then codes "multipart/alternative; parts=2; attachments=0"
    else codes "text/plain"

abbrev unless_empty : Bytes → Option Bytes
unless_empty text = if is_empty text then none else some text

-- The message that is delivered, before its id is set. Its folder and UID, which the code leaves
-- without a value, are set with it.
unfoldable pub message_of : Session → Option Email → ℕ → Bytes → Bytes → Message
unfolding structure_of
message_of s none user_id path date = record {
  id = none;
  user_id = user_id;
  folder_id = 0;
  uid = 0;
  raw_file_path = path;
  size_bytes = length s.body;
  mime_structure = none;
  message_id_header = none;
  in_reply_to = none;
  references_header = none;
  from_address = s.sender;
  sender_address = none;
  subject = none;
  is_seen = false;
  is_deleted = false;
  is_draft = false;
  is_answered = false;
  is_flagged = false;
  is_recent = true;
  internal_date = date;
  date_header = none;
}
message_of s (some e) user_id path date = record {
  id = none;
  user_id = user_id;
  folder_id = 0;
  uid = 0;
  raw_file_path = path;
  size_bytes = length s.body;
  mime_structure = unless_empty (structure_of e);
  message_id_header = unless_empty e.message_id;
  in_reply_to = unless_empty e.in_reply_to;
  references_header = unless_empty e.references;
  from_address = if not (is_empty e.sender) then e.sender else s.sender;
  sender_address = none;
  subject = unless_empty e.subject;
  is_seen = false;
  is_deleted = false;
  is_draft = false;
  is_answered = false;
  is_flagged = false;
  is_recent = true;
  internal_date = date;
  date_header = unless_empty e.date;
}

-- `GenerateMailFilename`
unfoldable pub mail_filename : ℕ → List ℕ → Bytes
mail_filename ms digits =
    to_string ms
    ++ (b'_' ∷ (map (λ d. get_or (codes "0123456789abcdef") d 0) digits ++ codes ".eml"))

module _ (v : Services) where
  open v use {
    World, find_by_username, register_user, find_folder_by_name, deliver, add_recipient,
    parse_email, create_directories, write_file, milliseconds, random_digits, utc_timestamp,
  }

  -- `WriteMailToFile`: the path, or the empty string.
  unfoldable pub write_mail_to_file : Bytes → Bytes → M World Bytes
  unfolding mail_filename
  write_mail_to_file mail_dir body = do
    created ← call (create_directories mail_dir)
    if not created then return [] else (do
      ms ← call milliseconds
      digits ← call random_digits
      let path = mail_dir ++ (b'/' ∷ mail_filename ms digits)
      written ← call (write_file path body)
      return (if written then path else []))

  -- `add_mime_recipients`
  unfoldable pub add_mime_recipients : Bytes → ℕ → RecipientType → List Bytes → M World (Unit {0})
  add_mime_recipients recipient_addr id type [] = return tt
  add_mime_recipients recipient_addr id type (addr ∷ addrs) =
      let rest = add_mime_recipients recipient_addr id type addrs in
      if is_empty addr || (is_to type && equal addr recipient_addr) then rest else (do
        added ← add_recipient (record { id = none; message_id = id; address = addr; type = type })
        rest)

  -- The lookup of the user, who is registered where there is none.
  unfoldable pub find_or_register : Bytes → M World (Option User)
  find_or_register username = do
    found ← find_by_username username
    elim found [
      | some user ↦ return (some user)
      | none ↦ (do
        let new_user : User = record {
          id = none;
          username = username;
          password_hash = codes "smtp_auto";
          first_name = none;
          last_name = none;
          birthdate = none;
          avatar_b64 = none;
        }
        registered ← register_user new_user []
        if not registered then return none else find_by_username username)
    ]

  -- The recipients of a delivered message.
  unfoldable pub add_recipients : Bytes → Option Email → ℕ → M World (Unit {0})
  unfolding add_mime_recipients
  add_recipients recipient_addr parsed id = do
    added ←
        add_recipient (record { id = none; message_id = id; address = recipient_addr; type = to })
    elim parsed [
      | none ↦ return tt
      | some e ↦ (do
        add_mime_recipients recipient_addr id to e.to_list
        add_mime_recipients recipient_addr id cc e.cc_list
        add_mime_recipients recipient_addr id bcc e.bcc_list)
    ]

  -- The delivery to the folder of a user.
  unfoldable pub deliver_to : Session → Option Email → Bytes → ℕ → ℕ → M World Bool
  unfolding write_mail_to_file message_of add_recipients
  deliver_to s parsed recipient_addr user_id inbox_id = do
    file_path ← write_mail_to_file (codes "mailstore/" ++ extract_username recipient_addr) s.body
    if is_empty file_path then return false else (do
      date ← call utc_timestamp
      delivery ← deliver (message_of s parsed user_id file_path date) inbox_id
      if not delivery.0
          then return false
          else (do id ← value delivery.1.id; add_recipients recipient_addr parsed id; return true))

  -- A round of the loop over the recipients, from the lookup on.
  unfoldable pub save_for_user : Session → Option Email → Bytes → Option User → M World Bool
  unfolding deliver_to
  save_for_user s parsed recipient_addr none = return false
  save_for_user s parsed recipient_addr (some user) = elim user.id [
    | none ↦ return false
    | some user_id ↦ (do
      inbox ← find_folder_by_name user_id (codes "INBOX")
      elim inbox [
        | none ↦ return false
        | some folder ↦ elim folder.id [
          | none ↦ return false
          | some inbox_id ↦ deliver_to s parsed recipient_addr user_id inbox_id
        ]
      ])
  ]

  unfoldable pub save_recipient : Session → Option Email → Bytes → M World Bool
  unfolding find_or_register save_for_user extract_username
  save_recipient s parsed recipient_addr = do
    user ← find_or_register (extract_username recipient_addr)
    save_for_user s parsed recipient_addr user

  -- The loop, from the value of `any_saved` so far.
  unfoldable pub save_loop : Session → Option Email → Bool → List Bytes → M World Bool
  unfolding save_recipient
  save_loop s parsed any_saved [] = return any_saved
  save_loop s parsed any_saved (addr ∷ addrs) = do
    saved ← save_recipient s parsed addr
    save_loop s parsed (saved || any_saved) addrs

  -- `SaveMessage`
  unfoldable pub save_message : Session → M World Bool
  unfolding save_loop
  save_message s =
      if is_empty s.recipients
      then return false
      else save_loop s (if s.has_logger then parse_email s.body else none) false s.recipients
