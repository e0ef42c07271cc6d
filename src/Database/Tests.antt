-- ===== src/Database/Tests.antt =====
-- A user with two folders and two messages, and the database code run on them.
use ua_5308_smtp.Prelude.{
  ℕ, Bool, true, false, ◌≡◌, ◌≢◌, refl, Option, none, some, List, [], ◌∷◌, Bytes, codes, ◌&&◌,
  arith,
}
use ua_5308_smtp.Effects.{returned}
use ua_5308_smtp.Effects.Ensures.{Ensures}
use ua_5308_smtp.Database.Rows.{User, Folder, Message, to}
use ua_5308_smtp.Database.Engine.{Tables, Db, select, statement, transaction, end_transaction}
use ua_5308_smtp.Database.Queries.{delete_where, update_where, is_id}
use ua_5308_smtp.Database.FolderDal
use ua_5308_smtp.Database.MessageDal.{with_flags, flags_of}
use ua_5308_smtp.Database.MessageDal
use ua_5308_smtp.Database.Rules.{Done, Back}
use ua_5308_smtp.Database.Counters.{Counted}
use ua_5308_smtp.Database.Storing.{Stored, assign_uid-Stored, row_for, with_row}
use ua_5308_smtp.Database.Moving.{Moved, move_to_folder-Moved}
use ua_5308_smtp.Database.Copying.{Copied, copy-Copied}
use ua_5308_smtp.Database.Expunging.{Expunged, expunge-Expunged, is_expunged}
use ua_5308_smtp.Database.ExpungeSound.{Identified, expunge-messages}
use ua_5308_smtp.Database.Delivery.{deliver-inbox, deliver-used}
use ua_5308_smtp.Database.FlagChanges.{
  Flag, seen, flagged, Change, add, remove, change_text, final, any_signed, has, set_flags-final,
}
use ua_5308_smtp.Database.Invariant.{Runs, start, step, Runs-Counted}
use ua_5308_smtp.Database.Invariant
use ua_5308_smtp.Database.Repository.Flagging.{set_flags}
use ua_5308_smtp.Database.Repository.Messages
use ua_5308_smtp.Prelude.{map}

abbrev ann : User
ann = record {
  id = some 1;
  username = codes "ann";
  password_hash = codes "h";
  first_name = none;
  last_name = none;
  birthdate = none;
  avatar_b64 = none;
}

abbrev folder : ℕ → Bytes → ℕ → Folder
folder id name next_uid = record {
  id = some id;
  user_id = 1;
  parent_id = none;
  name = name;
  next_uid = next_uid;
  is_subscribed = true;
}

abbrev message : Option ℕ → ℕ → ℕ → Bool → Message
message id folder_id uid deleted = record {
  id = id;
  user_id = 1;
  folder_id = folder_id;
  uid = uid;
  raw_file_path = codes "a.eml";
  size_bytes = 3;
  mime_structure = none;
  message_id_header = none;
  in_reply_to = none;
  references_header = none;
  from_address = codes "bob@x";
  sender_address = none;
  subject = none;
  is_seen = true;
  is_deleted = deleted;
  is_draft = false;
  is_answered = false;
  is_flagged = false;
  is_recent = false;
  internal_date = codes "d";
  date_header = none;
}

abbrev tables : Tables
tables = record {
  users = ann ∷ [];
  folders = folder 1 (codes "INBOX") 6 ∷ folder 2 (codes "Sent") 1 ∷ [];
  messages = message (some 1) 1 4 true ∷ message (some 2) 1 5 false ∷ [];
  recipients = record { id = some 1; message_id = 2; address = codes "ann@x"; type = to } ∷ [];
  last_user = 1;
  last_folder = 2;
  last_message = 2;
  last_recipient = 1;
}

abbrev db : Db
db = record { live = tables; saved = none; faults = []; last_error = []; errmsg = codes "locked" }

-- The COMMIT is refused.
abbrev locked : Db
locked = record db { faults = false ∷ false ∷ false ∷ false ∷ true ∷ [] }

-- The counter of the INBOX fell behind its messages.
abbrev stale : Db
stale = record db { live = record tables { folders = folder 1 (codes "INBOX") 5 ∷ [] } }

assign_commit_refused : (Messages.assign_uid (message none 1 0 false) 1 locked).1.live ≡ tables
unfolding Messages.assign_uid select statement transaction end_transaction FolderDal.find_by_id
    FolderDal.increment_next_uid MessageDal.insert
assign_commit_refused = refl

-- What `renameFolder` read before a message was delivered is written back behind it.
rename_races :
    (FolderDal.update
      (folder 1 (codes "In") 6)
      (Messages.deliver (message none 1 0 false) 0 db).1).1.live.folders
    ≡ folder 1 (codes "In") 6 ∷ folder 2 (codes "Sent") 1 ∷ []
unfolding Messages.deliver select statement transaction end_transaction FolderDal.find_by_id
    FolderDal.find_by_name FolderDal.increment_next_uid FolderDal.update MessageDal.insert
rename_races = refl

abbrev after : Db
after =
    (Messages.expunge 1 (Messages.copy 2 2 (Messages.deliver (message none 1 0 false) 0 db).1).1).1

tables_Counted : Counted tables
unfolding Counted
tables_Counted = ((_, (refl, omega arith)), ((_, (refl, omega arith)), tt))

Runs-Counted_example : (after.saved ≡ none) × Counted after.live
Runs-Counted_example =
    Runs-Counted db after
      (step (step (step start (Invariant.deliver (message none 1 0 false) 0)) (Invariant.copy 2 2))
        (Invariant.expunge 1))
      refl tables_Counted

assign_uid-Stored_example :
    Ensures
      (Done (Stored (message none 1 0 false) 1 tables) tables)
      (Back tables)
      (Messages.assign_uid (message none 1 0 false) 1 locked)
assign_uid-Stored_example = assign_uid-Stored (message none 1 0 false) 1 locked refl

move_to_folder-Moved_example :
    Ensures (Done (λ _. Moved 2 2 tables) tables) (Back tables) (Messages.move_to_folder 2 2 db)
move_to_folder-Moved_example = move_to_folder-Moved 2 2 db refl

copy-Copied_example : Ensures (Done (Copied 2 2 tables) tables) (Back tables) (Messages.copy 2 2 db)
copy-Copied_example = copy-Copied 2 2 db refl

expunge-Expunged_example :
    Ensures (Done (λ _. Expunged 1 tables) tables) (Back tables) (Messages.expunge 1 db)
expunge-Expunged_example = expunge-Expunged 1 db refl

tables_Identified : Identified tables.messages
unfolding Identified
tables_Identified = (1, (refl, ((refl, tt), (2, (refl, (tt, tt))))))

expunge-messages_example :
    ((Messages.expunge 1 db).0 ≡ returned (some tt))
    × ((Messages.expunge 1 db).1.live.messages ≡ delete_where (is_expunged 1) tables.messages)
expunge-messages_example = expunge-messages 1 db refl refl tables_Identified (omega arith)

deliver-inbox_example : Messages.deliver (message none 1 0 false) 0 db ≡ (
  returned (
      some (
        row_for
          (Messages.delivered (message none 1 0 false))
          1
          (folder 1 (codes "INBOX") 6)
          tables)),
  record db {
    live =
        with_row
          (row_for
            (Messages.delivered (message none 1 0 false))
            1
            (folder 1 (codes "INBOX") 6)
            tables)
          tables;
  },
)
deliver-inbox_example =
    deliver-inbox (message none 1 0 false) (folder 1 (codes "INBOX") 6) (folder 1 (codes "INBOX") 6)
      1 db refl refl tables_Counted refl refl refl refl

deliver-used_example :
    ((Messages.deliver (message none 1 0 false) 1 stale).1.live ≡ stale.live)
    × ((m : Message) → (Messages.deliver (message none 1 0 false) 1 stale).0 ≢ returned (some m))
deliver-used_example =
    deliver-used (message none 1 0 false) 1 (folder 1 (codes "INBOX") 5) stale (omega arith) refl
      refl refl

-- `+FLAGS` and `-FLAGS` at once.
abbrev changes : List Change
changes = add flagged ∷ remove seen ∷ []

set_flags-final_example :
    (g : MessageDal.Flags) × ((set_flags 2 (map change_text changes) db ≡ (
      returned (some tt),
      record db {
        live = record tables {
          messages = update_where (λ (m : Message). is_id 2 m.id) (with_flags g) tables.messages;
        };
      },
    ))
      × ((x : Flag)
          → has x g
            ≡ final x changes
                (any_signed changes && has x (flags_of (message (some 2) 1 5 false)))))
set_flags-final_example = set_flags-final 2 (message (some 2) 1 5 false) changes db refl refl refl
