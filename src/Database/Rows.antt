-- ===== src/Database/Rows.antt =====
-- database/Entity: the rows of the tables. A row id is what SQLite counts up from 1, so it is a
-- natural number; so are the UIDs, which a folder counts.
use ua_5308_smtp.Prelude.{ℕ, Bool, Option, Bytes}

pub record User : Type 0 where
  pub id : Option ℕ
  pub username : Bytes
  pub password_hash : Bytes
  pub first_name : Option Bytes
  pub last_name : Option Bytes
  pub birthdate : Option Bytes
  pub avatar_b64 : Option Bytes

pub record Folder : Type 0 where
  pub id : Option ℕ
  pub user_id : ℕ
  pub parent_id : Option ℕ
  pub name : Bytes
  pub next_uid : ℕ
  pub is_subscribed : Bool

pub data RecipientType : Type 0 where
  to cc bcc reply_to : RecipientType

pub record Recipient : Type 0 where
  pub id : Option ℕ
  pub message_id : ℕ
  pub address : Bytes
  pub type : RecipientType

pub record Message : Type 0 where
  pub id : Option ℕ
  pub user_id : ℕ
  pub folder_id : ℕ
  pub uid : ℕ
  pub raw_file_path : Bytes
  pub size_bytes : ℕ
  pub mime_structure : Option Bytes
  pub message_id_header : Option Bytes
  pub in_reply_to : Option Bytes
  pub references_header : Option Bytes
  pub from_address : Bytes
  pub sender_address : Option Bytes
  pub subject : Option Bytes
  pub is_seen : Bool
  pub is_deleted : Bool
  pub is_draft : Bool
  pub is_answered : Bool
  pub is_flagged : Bool
  pub is_recent : Bool
  pub internal_date : Bytes
  pub date_header : Option Bytes
