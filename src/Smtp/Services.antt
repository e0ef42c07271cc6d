-- ===== src/Smtp/Services.antt =====
-- What an SMTP session calls: the repositories (database/Repository), the MIME parser (mime/), the
-- file system and the clock, as an interface. Of mime/include/Email.h the fields that the session
-- reads are kept. What a repository does may throw, but for the check of credentials.
use ua_5308_smtp.Prelude.{ℕ, Bool, List, Option, Bytes}
use ua_5308_smtp.Effects.{M}
use ua_5308_smtp.Database.Rows.{User, Folder, Message, Recipient}

-- `attachments` is the number of attachments: the session reads no more of them.
pub record Email : Type 0 where
  pub sender : Bytes
  pub to_list : List Bytes
  pub cc_list : List Bytes
  pub bcc_list : List Bytes
  pub subject : Bytes
  pub date : Bytes
  pub message_id : Bytes
  pub in_reply_to : Bytes
  pub references : Bytes
  pub html_text : Bytes
  pub attachments : ℕ

pub record Services : Type 1 where
  pub World : Type 0
  -- `UserRepository`
  pub find_by_username : Bytes → M World (Option User)
  pub register_user : User → Bytes → M World Bool
  pub authorize : Bytes → Bytes → World → Bool × World
  -- `MessageRepository`; `deliver` sets fields of the message that it is given.
  pub find_folder_by_name : ℕ → Bytes → M World (Option Folder)
  pub deliver : Message → ℕ → M World (Bool × Message)
  pub add_recipient : Recipient → M World Bool
  -- `MimeParser::ParseEmail`: none where it returns false.
  pub parse_email : Bytes → Option Email
  -- `create_directories` (true on success), and opening and writing a file (true on success).
  pub create_directories : Bytes → World → Bool × World
  pub write_file : Bytes → Bytes → World → Bool × World
  -- The milliseconds since the epoch, sixteen random digits below 16, and the formatted UTC time.
  pub milliseconds : World → ℕ × World
  pub random_digits : World → List ℕ × World
  pub utc_timestamp : World → Bytes × World
