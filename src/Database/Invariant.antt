-- ===== src/Database/Invariant.antt =====
-- database/Repository: any operations, one after the other, whatever SQLite refuses of each.
use ua_5308_smtp.Prelude.{ℕ, Bool, ◌≡◌, Option, none, List, Bytes}
use ua_5308_smtp.Database.Rows.{User, Folder, Message, Recipient}
use ua_5308_smtp.Database.Engine.{Db}
use ua_5308_smtp.Database.MessageDal.{Flags}
use ua_5308_smtp.Database.Counters.{Counted}
use ua_5308_smtp.Database.Keeping.{Kept}
use ua_5308_smtp.Database.Operations.{
  deliver-Keeps, save-Keeps, append-Keeps, hard_delete_message-Keeps, clear_recent_by_folder-Keeps,
  mark_seen-Keeps, mark_deleted-Keeps, mark_flagged-Keeps, mark_answered-Keeps, mark_draft-Keeps,
  all_flags-Keeps, set_flags-Keeps, create_folder-Keeps, delete_folder-Keeps,
  increment_next_uid-Keeps, set_subscribed-Keeps, add_recipient-Keeps, remove_recipient-Keeps,
}
use ua_5308_smtp.Database.Moving.{rename_folder-Keeps, move_to_folder-Keeps}
use ua_5308_smtp.Database.Expunging.{expunge-Keeps, close_folder-Keeps}
use ua_5308_smtp.Database.Copying.{copy-Keeps}
use ua_5308_smtp.Database.Accounts.{
  register_user-Keeps, change_password-Keeps, authorize-Keeps, update-Keeps, user_hard_delete-Keeps,
  update_profile-Keeps, update_avatar-Keeps,
}
use ua_5308_smtp.Database.Repository.Messages
use ua_5308_smtp.Database.Repository.Flagging
use ua_5308_smtp.Database.Repository.Folders
use ua_5308_smtp.Database.Repository.Recipients
use ua_5308_smtp.Database.Repository.Users

-- An operation of a repository, and other faults for the calls to come.
pub data Step : Db → Db → Type 0 where
  deliver :
      {db : Db} (msg : Message) (folder_id : ℕ) → Step db (Messages.deliver msg folder_id db).1
  save_to_folder :
      {db : Db} (msg : Message) (folder_id : ℕ)
      → Step db (Messages.save_to_folder msg folder_id db).1
  append : {db : Db} (msg : Message) (folder_id : ℕ) → Step db (Messages.append msg folder_id db).1
  move_to_folder :
      {db : Db} (id folder_id : ℕ) → Step db (Messages.move_to_folder id folder_id db).1
  expunge : {db : Db} (folder_id : ℕ) → Step db (Messages.expunge folder_id db).1
  close_folder : {db : Db} (folder_id : ℕ) → Step db (Messages.close_folder folder_id db).1
  hard_delete : {db : Db} (id : ℕ) → Step db (Messages.hard_delete id db).1
  copy : {db : Db} (id target : ℕ) → Step db (Messages.copy id target db).1
  clear_recent_by_folder :
      {db : Db} (folder_id : ℕ) → Step db (Messages.clear_recent_by_folder folder_id db).1
  mark_seen : {db : Db} (id : ℕ) (seen : Bool) → Step db (Flagging.mark_seen id seen db).1
  mark_deleted :
      {db : Db} (id : ℕ) (deleted : Bool) → Step db (Flagging.mark_deleted id deleted db).1
  mark_flagged :
      {db : Db} (id : ℕ) (flagged : Bool) → Step db (Flagging.mark_flagged id flagged db).1
  mark_answered :
      {db : Db} (id : ℕ) (answered : Bool) → Step db (Flagging.mark_answered id answered db).1
  mark_draft : {db : Db} (id : ℕ) (draft : Bool) → Step db (Flagging.mark_draft id draft db).1
  update_flags : {db : Db} (id : ℕ) (flags : Flags) → Step db (Flagging.update_flags id flags db).1
  set_flags : {db : Db} (id : ℕ) (flags : List Bytes) → Step db (Flagging.set_flags id flags db).1
  create_folder : {db : Db} (folder : Folder) → Step db (Folders.create_folder folder db).1
  rename_folder :
      {db : Db} (id : ℕ) (new_name : Bytes) → Step db (Folders.rename_folder id new_name db).1
  delete_folder : {db : Db} (id : ℕ) → Step db (Folders.delete_folder id db).1
  increment_next_uid :
      {db : Db} (folder_id : ℕ) → Step db (Folders.increment_next_uid folder_id db).1
  set_subscribed :
      {db : Db} (folder_id : ℕ) (subscribed : Bool)
      → Step db (Folders.set_subscribed folder_id subscribed db).1
  add_recipient :
      {db : Db} (recipient : Recipient) → Step db (Recipients.add_recipient recipient db).1
  remove_recipient : {db : Db} (id : ℕ) → Step db (Recipients.remove_recipient id db).1
  register_user :
      {db : Db} (pwhash : Bytes → Option Bytes) (user : User) (password : Bytes)
      → Step db (Users.register_user pwhash user password db).1
  change_password :
      {db : Db} (pwhash : Bytes → Option Bytes) (id : ℕ) (new_password : Bytes)
      → Step db (Users.change_password pwhash id new_password db).1
  authorize :
      {db : Db} (verify : Bytes → Bytes → Bool) (username password : Bytes)
      → Step db (Users.authorize verify username password db).1
  update_user : {db : Db} (user : User) → Step db (Users.update user db).1
  hard_delete_user : {db : Db} (id : ℕ) → Step db (Users.hard_delete id db).1
  update_profile :
      {db : Db} (id : ℕ) (first_name last_name birthdate : Option Bytes)
      → Step db (Users.update_profile id first_name last_name birthdate db).1
  update_avatar :
      {db : Db} (id : ℕ) (avatar_b64 : Option Bytes)
      → Step db (Users.update_avatar id avatar_b64 db).1
  other_faults : {db : Db} (faults : List Bool) → Step db (record db { faults = faults })

pub data Runs : Db → Db → Type 0 where
  start : {db : Db} → Runs db db
  step : {db middle after : Db} → Runs db middle → Step middle after → Runs db after

Step-Kept : (db after : Db) → Step db after → Kept db → Kept after
Step-Kept db after (deliver msg folder_id) = (deliver-Keeps msg folder_id).keeps db
Step-Kept db after (save_to_folder msg folder_id) = (save-Keeps msg folder_id).keeps db
Step-Kept db after (append msg folder_id) = (append-Keeps msg folder_id).keeps db
Step-Kept db after (move_to_folder id folder_id) = (move_to_folder-Keeps id folder_id).keeps db
Step-Kept db after (expunge folder_id) = (expunge-Keeps folder_id).keeps db
Step-Kept db after (close_folder folder_id) = (close_folder-Keeps folder_id).keeps db
Step-Kept db after (hard_delete id) = (hard_delete_message-Keeps id).keeps db
Step-Kept db after (copy id target) = (copy-Keeps id target).keeps db
Step-Kept db after (clear_recent_by_folder folder_id) =
    (clear_recent_by_folder-Keeps folder_id).keeps db
Step-Kept db after (mark_seen id seen) = (mark_seen-Keeps id seen).keeps db
Step-Kept db after (mark_deleted id deleted) = (mark_deleted-Keeps id deleted).keeps db
Step-Kept db after (mark_flagged id flagged) = (mark_flagged-Keeps id flagged).keeps db
Step-Kept db after (mark_answered id answered) = (mark_answered-Keeps id answered).keeps db
Step-Kept db after (mark_draft id draft) = (mark_draft-Keeps id draft).keeps db
Step-Kept db after (update_flags id flags) = (all_flags-Keeps id flags).keeps db
Step-Kept db after (set_flags id flags) = (set_flags-Keeps id flags).keeps db
Step-Kept db after (create_folder folder) = (create_folder-Keeps folder).keeps db
Step-Kept db after (rename_folder id new_name) = (rename_folder-Keeps id new_name).keeps db
Step-Kept db after (delete_folder id) = (delete_folder-Keeps id).keeps db
Step-Kept db after (increment_next_uid folder_id) = (increment_next_uid-Keeps folder_id).keeps db
Step-Kept db after (set_subscribed folder_id subscribed) =
    (set_subscribed-Keeps folder_id subscribed).keeps db
Step-Kept db after (add_recipient recipient) = (add_recipient-Keeps recipient).keeps db
Step-Kept db after (remove_recipient id) = (remove_recipient-Keeps id).keeps db
Step-Kept db after (register_user pwhash user password) =
    (register_user-Keeps pwhash user password).keeps db
Step-Kept db after (change_password pwhash id new_password) =
    (change_password-Keeps pwhash id new_password).keeps db
Step-Kept db after (authorize verify username password) =
    (authorize-Keeps verify username password).keeps db
Step-Kept db after (update_user user) = (update-Keeps user).keeps db
Step-Kept db after (hard_delete_user id) = (user_hard_delete-Keeps id).keeps db
Step-Kept db after (update_profile id first_name last_name birthdate) =
    (update_profile-Keeps id first_name last_name birthdate).keeps db
Step-Kept db after (update_avatar id avatar_b64) = (update_avatar-Keeps id avatar_b64).keeps db
Step-Kept db after (other_faults faults) = λ k. k

-- From a database without an open transaction in which every message lies in a folder whose counter
-- is above its UID, any operations of the repositories, one after the other and with any calls
-- refused, lead to such a database again.
pub Runs-Counted :
    (db after : Db)
    → Runs db after
    → db.saved ≡ none
    → Counted db.live
    → (after.saved ≡ none) × Counted after.live
Runs-Counted db after start e h = (e, h)
Runs-Counted db after (step runs s) e h = Step-Kept _ after s (Runs-Counted db _ runs e h)
