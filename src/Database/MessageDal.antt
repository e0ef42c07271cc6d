-- ===== src/Database/MessageDal.antt =====
-- database/DAL/MessageDAL.cpp, but for `search`.
use ua_5308_smtp.Prelude.{
  ℕ, suc, Bool, true, false, not, ◌&&◌, Option, none, some, List, [], ◌∷◌, ◌++◌, ◌==◌, ltb,
  if◌then◌else◌,
}
use ua_5308_smtp.Effects.{return}
use ua_5308_smtp.Database.Rows.{Message}
use ua_5308_smtp.Database.Engine.{Tables, Sql, select, statement}
use ua_5308_smtp.Database.Queries.{
  find_row, rows_where, has_row, delete_where, update_where, order_by, page, text_before, is_id,
  c_str, c_str?,
}
use ua_5308_smtp.Database.FolderDal.{has_user, has_folder, delete_messages}

unfoldable pub find_by_id : ℕ → Sql (Option Message)
unfolding select
find_by_id id = select none (λ t. find_row (λ (m : Message). is_id id m.id) t.messages)

unfoldable pub find_by_uid : ℕ → ℕ → Sql (Option Message)
unfolding select
find_by_uid folder_id uid =
    select none
      (λ t. find_row (λ (m : Message). m.folder_id == folder_id && m.uid == uid) t.messages)

unfoldable pub find_by_user : ℕ → ℕ → ℕ → Sql (List Message)
unfolding select order_by
find_by_user user_id limit offset = select [] (λ t. page limit offset (
    order_by (λ m n. text_before n.internal_date m.internal_date)
      (rows_where (λ m. m.user_id == user_id) t.messages)))

-- `WHERE folder_id = ? AND … ORDER BY uid ASC LIMIT ? OFFSET ?`
unfoldable pub select_by_uid : (Message → Bool) → ℕ → ℕ → ℕ → Sql (List Message)
unfolding select order_by
select_by_uid also folder_id limit offset = select [] (λ t. page limit offset (
    order_by (λ m n. ltb m.uid n.uid)
      (rows_where (λ m. m.folder_id == folder_id && also m) t.messages)))

unfoldable pub find_by_folder : ℕ → ℕ → ℕ → Sql (List Message)
unfolding select_by_uid
find_by_folder = select_by_uid (λ m. true)

unfoldable pub find_unseen : ℕ → ℕ → ℕ → Sql (List Message)
unfolding select_by_uid
find_unseen = select_by_uid (λ m. not m.is_seen)

unfoldable pub find_deleted : ℕ → ℕ → ℕ → Sql (List Message)
unfolding select_by_uid
find_deleted = select_by_uid (λ m. m.is_deleted)

unfoldable pub find_flagged : ℕ → ℕ → ℕ → Sql (List Message)
unfolding select_by_uid
find_flagged = select_by_uid (λ m. m.is_flagged)

-- The index on folder and UID.
abbrev pub has_uid : List Message → ℕ → ℕ → Bool
has_uid messages folder_id uid =
    has_row (λ (m : Message). m.folder_id == folder_id && m.uid == uid) messages

-- The row that is written.
abbrev pub stored : Message → Message
stored m = record m {
  raw_file_path = c_str m.raw_file_path;
  mime_structure = c_str? m.mime_structure;
  message_id_header = c_str? m.message_id_header;
  in_reply_to = c_str? m.in_reply_to;
  references_header = c_str? m.references_header;
  from_address = c_str m.from_address;
  sender_address = c_str? m.sender_address;
  subject = c_str? m.subject;
  internal_date = c_str m.internal_date;
  date_header = c_str? m.date_header;
}

-- The new id.
unfoldable pub insert : Message → Sql (Option ℕ)
unfolding statement
insert msg = statement (λ t.
    if has_user t msg.user_id
      && has_folder t msg.folder_id
      && not (has_uid t.messages msg.folder_id msg.uid)
    then some (
      suc t.last_message,
      record t {
        messages = t.messages ++ record (stored msg) { id = some (suc t.last_message) } ∷ [];
        last_message = suc t.last_message;
      },
    )
    else none)

abbrev pub others : ℕ → List Message → List Message
others id = delete_where (λ m. is_id id m.id)

abbrev pub set_messages : Tables → List Message → Option (Unit {0} × Tables)
set_messages t messages = some (tt, record t { messages = messages })

-- What the user, the folder and the index ask of a row that another row does not have yet.
abbrev fits : Tables → ℕ → Message → Bool
fits t id msg =
    has_user t msg.user_id
    && (has_folder t msg.folder_id && not (has_uid (others id t.messages) msg.folder_id msg.uid))

unfoldable pub update : Message → Sql (Option (Unit {0}))
unfolding statement
update msg = elim msg.id [
  | none ↦ return none
  | some id ↦ statement (λ t.
      if has_row (λ (m : Message). is_id id m.id) t.messages && not (fits t id msg)
      then none
      else set_messages t
          (update_where (λ (m : Message). is_id id m.id) (λ m. stored msg) t.messages))
]

-- An UPDATE by id of columns that no constraint is about.
unfoldable pub update_by_id : ℕ → (Message → Message) → Sql (Option (Unit {0}))
unfolding statement
update_by_id id change =
    statement
      (λ t. set_messages t (update_where (λ (m : Message). is_id id m.id) change t.messages))

unfoldable pub update_seen : ℕ → Bool → Sql (Option (Unit {0}))
unfolding update_by_id
update_seen id seen = update_by_id id (λ m. record m { is_seen = seen })

unfoldable pub update_deleted : ℕ → Bool → Sql (Option (Unit {0}))
unfolding update_by_id
update_deleted id deleted = update_by_id id (λ m. record m { is_deleted = deleted })

-- The six flags of a message.
pub record Flags : Type 0 where
  pub seen : Bool
  pub deleted : Bool
  pub draft : Bool
  pub answered : Bool
  pub flagged : Bool
  pub recent : Bool

abbrev pub flags_of : Message → Flags
flags_of m = record {
  seen = m.is_seen;
  deleted = m.is_deleted;
  draft = m.is_draft;
  answered = m.is_answered;
  flagged = m.is_flagged;
  recent = m.is_recent;
}

abbrev pub with_flags : Flags → Message → Message
with_flags f m = record m {
  is_seen = f.seen;
  is_deleted = f.deleted;
  is_draft = f.draft;
  is_answered = f.answered;
  is_flagged = f.flagged;
  is_recent = f.recent;
}

unfoldable pub update_flags : ℕ → Flags → Sql (Option (Unit {0}))
unfolding update_by_id
update_flags id flags = update_by_id id (with_flags flags)

unfoldable pub move_to_folder : ℕ → ℕ → ℕ → Sql (Option (Unit {0}))
unfolding statement
move_to_folder id folder_id new_uid = statement (λ t.
    if has_row (λ (m : Message). is_id id m.id) t.messages
      && not (has_folder t folder_id && not (has_uid (others id t.messages) folder_id new_uid))
    then none
    else set_messages t (
        update_where (λ (m : Message). is_id id m.id)
          (λ m. record m { folder_id = folder_id; uid = new_uid }) t.messages))

unfoldable pub hard_delete : ℕ → Sql (Option (Unit {0}))
unfolding statement
hard_delete id = statement (λ t. some (tt, delete_messages (λ m. is_id id m.id) t))

unfoldable pub clear_recent_by_folder : ℕ → Sql (Option (Unit {0}))
unfolding statement
clear_recent_by_folder folder_id = statement (λ t.
    set_messages t (
      update_where (λ m. m.folder_id == folder_id) (λ m. record m { is_recent = false })
        t.messages))
