-- ===== src/Database/Operations.antt =====
-- The operations of database/Repository that keep the counters above the UIDs: those of one statement,
-- and those that store a message.
use ua_5308_smtp.Prelude.{
  ◌⊎◌, inl, inr, ℕ, suc, ◌+◌, ◌≤◌, Bool, true, false, ◌≡◌, refl, ap, ◌∙◌, none, some, List, [], ◌∷◌,
  ◌++◌, Bytes, codes, is_empty, arith, ◌==◌,
}
use ua_5308_smtp.Effects.{◌>>=◌, value}
use ua_5308_smtp.Database.Rows.{Folder, Message, Recipient}
use ua_5308_smtp.Database.Engine.{statement}
use ua_5308_smtp.Database.Queries.{update_where, delete_where, is_id}
use ua_5308_smtp.Database.Counters.{Counted, Grows-append, Grows-update_where}
use ua_5308_smtp.Database.FolderDal.{set_folders, refers, delete_messages}
use ua_5308_smtp.Database.FolderDal
use ua_5308_smtp.Database.MessageDal.{Flags, flags_of, with_flags}
use ua_5308_smtp.Database.MessageDal
use ua_5308_smtp.Database.RecipientDal
use ua_5308_smtp.Database.Storing.{Stored, assign_uid-Stored, Stored-Counted}
use ua_5308_smtp.Database.Cascade.{hard_delete-Keeps}
use ua_5308_smtp.Database.Keeping.{
  Keeps, return-Keeps, set_error-Keeps, value-Keeps, change-Keeps, guarded-Keeps, same-Counted,
  >>=-Keeps, if-Keeps, needs-Keeps, tries-Keeps, Done-Kept, folders-Counted, update-Counted,
  delete-Counted,
}
use ua_5308_smtp.Database.Repository.Messages
use ua_5308_smtp.Database.Repository.Flagging.{no_flags, apply_flags, start_flags}
use ua_5308_smtp.Database.Repository.Flagging
use ua_5308_smtp.Database.Repository.Folders
use ua_5308_smtp.Database.Repository.Recipients

-- Reads.
pub folder_by_id-Keeps : (id : ℕ) → Keeps (FolderDal.find_by_id id)
unfolding FolderDal.find_by_id
folder_by_id-Keeps id = record { keeps = λ db k. k }

pub folder_by_name-Keeps :
    (user_id : ℕ) (name : Bytes) → Keeps (FolderDal.find_by_name user_id name)
unfolding FolderDal.find_by_name
folder_by_name-Keeps user_id name = record { keeps = λ db k. k }

pub message_by_id-Keeps : (id : ℕ) → Keeps (MessageDal.find_by_id id)
unfolding MessageDal.find_by_id
message_by_id-Keeps id = record { keeps = λ db k. k }

pub recipient_by_id-Keeps : (id : ℕ) → Keeps (RecipientDal.find_by_id id)
unfolding RecipientDal.find_by_id
recipient_by_id-Keeps id = record { keeps = λ db k. k }

-- Statements.
pub update_by_id-Keeps :
    (id : ℕ) (f : Message → Message)
    → ((m : Message) → ((f m).folder_id ≡ m.folder_id) × ((f m).uid ≡ m.uid))
    → Keeps (MessageDal.update_by_id id f)
unfolding MessageDal.update_by_id
update_by_id-Keeps id f h = change-Keeps tt _ (λ t. update-Counted t (λ m. is_id id m.id) f h)

pub update_flags-Keeps : (id : ℕ) (flags : Flags) → Keeps (MessageDal.update_flags id flags)
unfolding MessageDal.update_flags
update_flags-Keeps id flags = update_by_id-Keeps id (with_flags flags) (λ m. (refl, refl))

pub clear_recent-Keeps : (folder_id : ℕ) → Keeps (MessageDal.clear_recent_by_folder folder_id)
unfolding MessageDal.clear_recent_by_folder
clear_recent-Keeps folder_id = change-Keeps tt _ (λ t.
    update-Counted t (λ m. m.folder_id == folder_id) (λ m. record m { is_recent = false })
      (λ m. (refl, refl)))

pub message_delete-Keeps : (id : ℕ) → Keeps (MessageDal.hard_delete id)
unfolding MessageDal.hard_delete Counted
message_delete-Keeps id =
    change-Keeps tt (delete_messages (λ m. is_id id m.id))
      (λ t. delete-Counted t (λ m. is_id id m.id))

update_folder-Keeps :
    (id : ℕ) (f : Folder → Folder)
    → ((x : Folder) → (f x).id ≡ x.id)
    → ((x : Folder) → x.next_uid ≤ (f x).next_uid)
    → Keeps
        (statement (λ t. set_folders t (update_where (λ (x : Folder). is_id id x.id) f t.folders)))
update_folder-Keeps id f h g =
    change-Keeps tt (λ t. record t { folders = update_where (λ x. is_id id x.id) f t.folders })
      (λ t.
        folders-Counted t (update_where (λ x. is_id id x.id) f t.folders)
          (Grows-update_where id f t.folders (λ x k. ap (is_id id) (h x) ∙ k) (λ x k. g x)))

pub increment-Keeps : (id : ℕ) → Keeps (FolderDal.increment_next_uid id)
unfolding FolderDal.increment_next_uid
increment-Keeps id =
    update_folder-Keeps id (λ f. record f { next_uid = f.next_uid + 1 }) (λ f. refl)
      (λ f. omega arith)

pub subscribed-Keeps : (id : ℕ) (subscribed : Bool) → Keeps (FolderDal.set_subscribed id subscribed)
unfolding FolderDal.set_subscribed
subscribed-Keeps id subscribed =
    update_folder-Keeps id (λ f. record f { is_subscribed = subscribed }) (λ f. refl)
      (λ f. omega arith)

pub folder_insert-Keeps : (folder : Folder) → Keeps (FolderDal.insert folder)
unfolding FolderDal.insert
folder_insert-Keeps folder =
    guarded-Keeps (λ t. refers t folder)
      (λ t. (
        suc t.last_folder,
        record t {
          folders =
              t.folders ++ record (FolderDal.stored folder) { id = some (suc t.last_folder) } ∷ [];
          last_folder = suc t.last_folder;
        },
      ))
      (λ t k.
        same-Counted
          (record t {
            folders =
                t.folders
                ++ record (FolderDal.stored folder) { id = some (suc t.last_folder) } ∷ [];
          })
          _
          (folders-Counted t _
            (Grows-append t.folders
              (record (FolderDal.stored folder) { id = some (suc t.last_folder) } ∷ []))
            k)
          refl refl)

pub recipient_insert-Keeps : (recipient : Recipient) → Keeps (RecipientDal.insert recipient)
unfolding RecipientDal.insert
recipient_insert-Keeps recipient =
    guarded-Keeps (λ t. RecipientDal.has_message t recipient.message_id)
      (λ t. (
        suc t.last_recipient,
        record t {
          recipients =
              t.recipients
              ++ record (RecipientDal.stored recipient) { id = some (suc t.last_recipient) } ∷ [];
          last_recipient = suc t.last_recipient;
        },
      ))
      (λ t k. same-Counted t _ k refl refl)

pub recipient_delete-Keeps : (id : ℕ) → Keeps (RecipientDal.hard_delete id)
unfolding RecipientDal.hard_delete
recipient_delete-Keeps id =
    change-Keeps tt (λ t. record t { recipients = delete_where (λ r. is_id id r.id) t.recipients })
      (λ t k. same-Counted t _ k refl refl)

-- Operations of the repository.
pub assign_uid-Keeps : (msg : Message) (folder_id : ℕ) → Keeps (Messages.assign_uid msg folder_id)
assign_uid-Keeps msg folder_id = record {
  keeps = λ db k.
      Done-Kept (Stored msg folder_id db.live) db.live _
        (λ m t s. Stored-Counted msg folder_id db.live m t s k.1) k.1
        (assign_uid-Stored msg folder_id db k.0);
}

pub deliver-Keeps : (msg : Message) (folder_id : ℕ) → Keeps (Messages.deliver msg folder_id)
unfolding Messages.deliver
deliver-Keeps msg folder_id =
    if-Keeps (folder_id == 0) _ _
      (needs-Keeps _ (FolderDal.find_by_name msg.user_id (codes "INBOX"))
        (λ inbox. value inbox.id >>= λ id. Messages.assign_uid (Messages.delivered msg) id)
        (folder_by_name-Keeps _ _)
        (λ inbox.
          >>=-Keeps (value inbox.id) _ (value-Keeps _) (assign_uid-Keeps (Messages.delivered msg))))
      (assign_uid-Keeps (Messages.delivered msg) folder_id)

pub save-Keeps : (msg : Message) (folder_id : ℕ) → Keeps (Messages.save_to_folder msg folder_id)
unfolding Messages.save_to_folder
save-Keeps msg folder_id =
    assign_uid-Keeps (record msg { is_seen = true; is_recent = false }) folder_id

pub append-Keeps : (msg : Message) (folder_id : ℕ) → Keeps (Messages.append msg folder_id)
unfolding Messages.append
append-Keeps = assign_uid-Keeps

pub hard_delete_message-Keeps : (id : ℕ) → Keeps (Messages.hard_delete id)
unfolding Messages.hard_delete
hard_delete_message-Keeps id =
    needs-Keeps _ _ _ (message_by_id-Keeps id) (λ _. message_delete-Keeps id)

pub clear_recent_by_folder-Keeps :
    (folder_id : ℕ) → Keeps (Messages.clear_recent_by_folder folder_id)
unfolding Messages.clear_recent_by_folder
clear_recent_by_folder-Keeps folder_id =
    needs-Keeps _ _ _ (folder_by_id-Keeps folder_id)
      (λ _. tries-Keeps _ _ (clear_recent-Keeps folder_id) (λ _. return-Keeps (some tt)))

-- Flags.
pub mark_seen-Keeps : (id : ℕ) (seen : Bool) → Keeps (Flagging.mark_seen id seen)
unfolding Flagging.mark_seen MessageDal.update_seen
mark_seen-Keeps id seen =
    update_by_id-Keeps id (λ m. record m { is_seen = seen }) (λ m. (refl, refl))

pub mark_deleted-Keeps : (id : ℕ) (deleted : Bool) → Keeps (Flagging.mark_deleted id deleted)
unfolding Flagging.mark_deleted MessageDal.update_deleted
mark_deleted-Keeps id deleted =
    update_by_id-Keeps id (λ m. record m { is_deleted = deleted }) (λ m. (refl, refl))

marked-Keeps :
    (text : Bytes) (change : Flags → Flags) (id : ℕ) → Keeps (Flagging.marked text change id)
marked-Keeps text change id =
    needs-Keeps text _ (λ msg. MessageDal.update_flags id (change (flags_of msg)))
      (message_by_id-Keeps id) (λ msg. update_flags-Keeps id _)

pub mark_flagged-Keeps : (id : ℕ) (flagged : Bool) → Keeps (Flagging.mark_flagged id flagged)
unfolding Flagging.mark_flagged
mark_flagged-Keeps id flagged = marked-Keeps _ (λ f. record f { flagged = flagged }) id

pub mark_answered-Keeps : (id : ℕ) (answered : Bool) → Keeps (Flagging.mark_answered id answered)
unfolding Flagging.mark_answered
mark_answered-Keeps id answered = marked-Keeps _ (λ f. record f { answered = answered }) id

pub mark_draft-Keeps : (id : ℕ) (draft : Bool) → Keeps (Flagging.mark_draft id draft)
unfolding Flagging.mark_draft
mark_draft-Keeps id draft = marked-Keeps _ (λ f. record f { draft = draft }) id

pub set_flags-Keeps : (id : ℕ) (flags : List Bytes) → Keeps (Flagging.set_flags id flags)
unfolding Flagging.set_flags
set_flags-Keeps id flags =
    needs-Keeps _ _ _ (message_by_id-Keeps id)
      (λ msg. outcome-Keeps (apply_flags flags (start_flags flags (flags_of msg))))
  where
    outcome-Keeps : (o : Flags ⊎ Bytes) → Keeps (Flagging.write_back id o)
    outcome-Keeps (inl f) = update_flags-Keeps id f
    outcome-Keeps (inr name) = set_error-Keeps _

-- Folders and recipients.
pub create_folder-Keeps : (folder : Folder) → Keeps (Folders.create_folder folder)
unfolding Folders.create_folder
create_folder-Keeps folder = if-Keeps (is_empty folder.name) _ _ (set_error-Keeps _) (
    >>=-Keeps (FolderDal.find_by_name folder.user_id folder.name) _ (folder_by_name-Keeps _ _)
      (elim [ none ↦ folder_insert-Keeps folder | some existing ↦ set_error-Keeps _ ]))

pub delete_folder-Keeps : (id : ℕ) → Keeps (Folders.delete_folder id)
unfolding Folders.delete_folder
delete_folder-Keeps id = needs-Keeps _ _ _ (folder_by_id-Keeps id) (λ _. hard_delete-Keeps id)

pub increment_next_uid-Keeps : (folder_id : ℕ) → Keeps (Folders.increment_next_uid folder_id)
unfolding Folders.increment_next_uid
increment_next_uid-Keeps folder_id =
    needs-Keeps _ _ _ (folder_by_id-Keeps folder_id)
      (λ _. tries-Keeps _ _ (increment-Keeps folder_id) (λ _. return-Keeps (some tt)))

pub set_subscribed-Keeps :
    (folder_id : ℕ) (subscribed : Bool) → Keeps (Folders.set_subscribed folder_id subscribed)
unfolding Folders.set_subscribed
set_subscribed-Keeps folder_id subscribed =
    needs-Keeps _ _ _ (folder_by_id-Keeps folder_id)
      (λ _. tries-Keeps _ _ (subscribed-Keeps folder_id subscribed) (λ _. return-Keeps (some tt)))

pub add_recipient-Keeps : (recipient : Recipient) → Keeps (Recipients.add_recipient recipient)
unfolding Recipients.add_recipient
add_recipient-Keeps recipient = needs-Keeps _ _ _ (message_by_id-Keeps recipient.message_id) (λ _.
    if-Keeps (is_empty recipient.address) _ _ (set_error-Keeps _)
      (recipient_insert-Keeps recipient))

pub remove_recipient-Keeps : (id : ℕ) → Keeps (Recipients.remove_recipient id)
unfolding Recipients.remove_recipient
remove_recipient-Keeps id =
    needs-Keeps _ _ _ (recipient_by_id-Keeps id) (λ _. recipient_delete-Keeps id)

pub all_flags-Keeps : (id : ℕ) (flags : Flags) → Keeps (Flagging.update_flags id flags)
unfolding Flagging.update_flags
all_flags-Keeps = update_flags-Keeps

pub messages_by_folder-Keeps :
    (folder_id limit offset : ℕ) → Keeps (MessageDal.find_by_folder folder_id limit offset)
unfolding MessageDal.find_by_folder
messages_by_folder-Keeps folder_id limit offset = record { keeps = λ db k. k }

pub folders_by_user-Keeps :
    (user_id limit offset : ℕ) → Keeps (FolderDal.find_by_user user_id limit offset)
unfolding FolderDal.find_by_user
folders_by_user-Keeps user_id limit offset = record { keeps = λ db k. k }
