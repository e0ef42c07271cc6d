-- ===== src/Database/Repository/Messages.antt =====
-- database/Repository/MessageRepository.cpp: finding, storing, moving, copying and removing messages.
-- A bool is an Option, `some` for true; where the code writes to the message it is given, that is
-- what `some` holds. A folder id that is no number of a row is 0.
use ua_5308_smtp.Prelude.{
  ℕ, true, false, Option, none, some, List, [], ◌∷◌, ◌++◌, ◌==◌, codes, if◌then◌else◌,
}
use ua_5308_smtp.Effects.{◌>>=◌, return, value}
use ua_5308_smtp.Database.Rows.{Message, Recipient}
use ua_5308_smtp.Database.Engine.{Sql, transaction, needs, tries, set_error}
use ua_5308_smtp.Database.FolderDal
use ua_5308_smtp.Database.MessageDal
use ua_5308_smtp.Database.RecipientDal

-- The row that `assignUID` inserts, for the counter of the folder.
abbrev pub numbered : Message → ℕ → ℕ → Message
numbered msg folder_id uid = record msg { folder_id = folder_id; uid = uid }

unfoldable pub assign_body : Message → ℕ → Sql (Option Message)
assign_body msg folder_id =
    needs (codes "assignUID: folder not found") (FolderDal.find_by_id folder_id) (λ folder.
      tries (MessageDal.insert (numbered msg folder_id folder.next_uid)) (λ id.
        tries (FolderDal.increment_next_uid folder_id)
          (λ _. return (some (record (numbered msg folder_id folder.next_uid) { id = some id })))))

unfoldable pub assign_uid : Message → ℕ → Sql (Option Message)
unfolding assign_body
assign_uid msg folder_id =
    transaction (codes "assignUID: failed to begin transaction") (codes "assignUID: commit failed")
      (assign_body msg folder_id)

-- `findByID`, `findByUID` and the lists of messages are those of the data access.
abbrev pub int_max : ℕ
int_max = 2147483647

abbrev pub delivered : Message → Message
delivered msg = record msg { is_seen = false; is_recent = true; is_draft = false }

unfoldable pub deliver : Message → ℕ → Sql (Option Message)
unfolding assign_uid
deliver msg folder_id =
    if folder_id == 0
    then needs (codes "deliver: INBOX not found for user")
        (FolderDal.find_by_name msg.user_id (codes "INBOX"))
        (λ inbox. value inbox.id >>= λ id. assign_uid (delivered msg) id)
    else assign_uid (delivered msg) folder_id

unfoldable pub save_to_folder : Message → ℕ → Sql (Option Message)
unfolding assign_uid
save_to_folder msg folder_id =
    assign_uid (record msg { is_seen = true; is_recent = false }) folder_id

unfoldable pub append : Message → ℕ → Sql (Option Message)
unfolding assign_uid
append = assign_uid

-- The folder is read before the transaction begins.
unfoldable pub move_body : ℕ → ℕ → ℕ → Sql (Option (Unit {0}))
move_body id folder_id new_uid =
    tries (MessageDal.move_to_folder id folder_id new_uid)
      (λ _. tries (FolderDal.increment_next_uid folder_id) (λ _. return (some tt)))

unfoldable pub move_to_folder : ℕ → ℕ → Sql (Option (Unit {0}))
unfolding move_body
move_to_folder id folder_id =
    needs (codes "moveToFolder: folder not found") (FolderDal.find_by_id folder_id) (λ folder.
      transaction (codes "moveToFolder: failed to begin transaction")
        (codes "moveToFolder: commit failed") (move_body id folder_id folder.next_uid))

-- A message without an id is passed over.
unfoldable pub delete_all : List Message → Sql (Option (Unit {0}))
delete_all [] = return (some tt)
delete_all (msg ∷ messages) = elim msg.id [
  | none ↦ delete_all messages
  | some id ↦ tries (MessageDal.hard_delete id) (λ _. delete_all messages)
]

unfoldable pub expunge : ℕ → Sql (Option (Unit {0}))
expunge folder_id = MessageDal.find_deleted folder_id int_max 0 >>= λ deleted.
    transaction (codes "expunge: failed to begin transaction") (codes "expunge: commit failed")
      (delete_all deleted)

unfoldable pub hard_delete : ℕ → Sql (Option (Unit {0}))
hard_delete id =
    needs (codes "hardDelete: message not found") (MessageDal.find_by_id id)
      (λ _. MessageDal.hard_delete id)

-- The recipients of the copy.
unfoldable pub insert_all : ℕ → List Recipient → Sql (Option (Unit {0}))
insert_all message_id [] = return (some tt)
insert_all message_id (r ∷ rs) =
    RecipientDal.insert (record r { id = none; message_id = message_id }) >>= λ inserted.
    elim inserted [
      | none ↦ λ db.
          set_error (codes "copy: failed to copy recipient " ++ 226 ∷ 128 ∷ 148 ∷ 32 ∷ db.errmsg) db
      | some id ↦ insert_all message_id rs
    ]

unfoldable pub copy_body : Message → List Recipient → Sql (Option Message)
unfolding insert_all
copy_body msg recipients = tries (MessageDal.insert msg) (λ id. insert_all id recipients >>= λ all.
    elim all [
      | none ↦ return none
      | some _ ↦
          tries (FolderDal.increment_next_uid msg.folder_id)
            (λ _. return (some (record msg { id = some id })))
    ])

unfoldable pub copy : ℕ → ℕ → Sql (Option Message)
unfolding copy_body
copy id target_folder_id =
    needs (codes "copy: message not found") (MessageDal.find_by_id id) (λ msg.
      needs (codes "copy: target folder not found") (FolderDal.find_by_id target_folder_id)
        (λ folder. RecipientDal.find_by_message id >>= λ recipients.
          transaction (codes "copy: failed to begin transaction") (codes "copy: commit failed") (
            copy_body (record (numbered msg target_folder_id folder.next_uid) { id = none })
              recipients)))

unfoldable pub clear_recent_by_folder : ℕ → Sql (Option (Unit {0}))
clear_recent_by_folder folder_id =
    needs (codes "clearRecentByFolder: folder not found") (FolderDal.find_by_id folder_id)
      (λ _. tries (MessageDal.clear_recent_by_folder folder_id) (λ _. return (some tt)))

unfoldable pub close_folder : ℕ → Sql (Option (Unit {0}))
unfolding expunge
close_folder folder_id = expunge folder_id >>= λ expunged. elim expunged [
  | none ↦ return none
  | some _ ↦ tries (MessageDal.clear_recent_by_folder folder_id) (λ _. return (some tt))
]
