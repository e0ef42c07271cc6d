-- ===== src/Imap/Copy.antt =====
-- imap-server/src/ImapCommandDispatcher.cpp: the handlers of COPY and UID COPY.
use ua_5308_smtp.Prelude.{none, some, List, [], ◌∷◌, Bytes, codes, length}
use ua_5308_smtp.Prelude.Int.{ℤ, pos}
use ua_5308_smtp.Effects.{M, ◌>>=◌, return, value, catching}
use ua_5308_smtp.Database.Rows.{Folder, Message}
use ua_5308_smtp.Database.FolderDal
use ua_5308_smtp.Database.Repository.Messages
use ua_5308_smtp.Imap.Command.{ImapCommand}
use ua_5308_smtp.Imap.Session.{
  Server, Handler, repo, user_id, when_selected, mailbox_id, find_by_folder,
}
use ua_5308_smtp.Imap.Store.{message_at, sequence_set, max_int64, invalid_sequence, find_by_uid}
use ua_5308_smtp.Imap.Sequence.{Machine}
use ua_5308_smtp.Imap.Response

-- `selected_messages`
abbrev pub selected_messages : List Message → List ℤ → List Message
selected_messages messages [] = []
selected_messages messages (id ∷ lists_ids) =
    let rest = selected_messages messages lists_ids in
    elim (message_at messages id) [ none ↦ rest | some (_, msg) ↦ msg ∷ rest ]

-- What `copy` returns is not looked at.
unfoldable pub copy_message : Folder → Message → M Server (Unit {0})
copy_message folder_dest msg = value msg.id >>= λ id.
    value folder_dest.id >>= λ target. repo (Messages.copy id target) >>= λ _. return tt

unfoldable pub copy_loop : Folder → List Message → M Server (Unit {0})
unfolding copy_message
copy_loop folder_dest [] = return tt
copy_loop folder_dest (msg ∷ messages) =
    copy_message folder_dest msg >>= λ _. copy_loop folder_dest messages

abbrev pub copy_body : Machine → ImapCommand → Bytes → Folder → M Server Bytes
copy_body machine cmd set folder_dest = mailbox_id >>= λ folder.
    repo (find_by_folder folder) >>= λ messages.
    sequence_set machine set (pos (length messages)) >>= λ lists_ids.
    copy_loop folder_dest (selected_messages messages lists_ids) >>= λ _.
    return (Response.ok cmd.tag (codes "Copy completed"))

-- The folder of the second argument, and the body with its exceptions caught.
abbrev pub into_folder : ImapCommand → Bytes → (Folder → M Server Bytes) → M Server Bytes
into_folder cmd name body = user_id >>= λ user. repo (FolderDal.find_by_name user name) >>= λ found.
    elim found [
      | none ↦ return (Response.bad cmd.tag (codes "No such folder"))
      | some folder_dest ↦ catching (body folder_dest) (invalid_sequence cmd)
    ]

abbrev pub copy_args : (Bytes → Folder → M Server Bytes) → ImapCommand → List Bytes → M Server Bytes
copy_args body cmd (set ∷ name ∷ []) = into_folder cmd name (body set)
copy_args body cmd _ = return (Response.bad cmd.tag (codes "Missing arguments"))

unfoldable pub handle_copy : Machine → Handler
unfolding copy_loop
handle_copy machine cmd = when_selected cmd (copy_args (copy_body machine cmd) cmd cmd.args)

unfoldable pub uid_copy_loop : Folder → List ℤ → M Server (Unit {0})
unfolding copy_message
uid_copy_loop folder_dest [] = return tt
uid_copy_loop folder_dest (uid ∷ uids) = mailbox_id >>= λ folder.
    repo (find_by_uid folder uid) >>= λ found. elim found [
      | none ↦ uid_copy_loop folder_dest uids
      | some msg ↦ copy_message folder_dest msg >>= λ _. uid_copy_loop folder_dest uids
    ]

abbrev pub uid_copy_body : Machine → ImapCommand → Bytes → Folder → M Server Bytes
uid_copy_body machine cmd set folder_dest = sequence_set machine set max_int64 >>= λ uids.
    uid_copy_loop folder_dest uids >>= λ _.
    return (Response.ok cmd.tag (codes "Uid Copy completed"))

unfoldable pub handle_uid_copy : Machine → Handler
unfolding uid_copy_loop
handle_uid_copy machine cmd = when_selected cmd (copy_args (uid_copy_body machine cmd) cmd cmd.args)
