-- ===== src/Imap/StoreServes.antt =====
-- imap-server/src/ImapCommandDispatcher.cpp: STORE, COPY and their UID forms keep what `Serves` says.
use ua_5308_smtp.Prelude.{
  ℕ, suc, Bool, none, some, List, [], ◌∷◌, ◌++◌, Bytes, codes, length, Option-cases, inl, inr,
}
use ua_5308_smtp.Prelude.Int.{ℤ, pos, negsuc}
use ua_5308_smtp.Effects.{M, value}
use ua_5308_smtp.Database.Rows.{Folder, Message}
use ua_5308_smtp.Database.Keeping.{Keeps, select-Keeps}
use ua_5308_smtp.Database.Operations.{
  set_flags-Keeps, messages_by_folder-Keeps, message_by_id-Keeps,
}
use ua_5308_smtp.Database.Copying.{copy-Keeps}
use ua_5308_smtp.Database.MessageDal
use ua_5308_smtp.Database.Repository.Flagging
use ua_5308_smtp.Database.Repository.Messages
use ua_5308_smtp.Imap.Command.{ImapCommand}
use ua_5308_smtp.Imap.Session.{Server, repo, mailbox_id, find_by_folder}
use ua_5308_smtp.Imap.Sequence.{Machine}
use ua_5308_smtp.Imap.Response
use ua_5308_smtp.Imap.Status.{split_args, trim_parentheses}
use ua_5308_smtp.Imap.Store.{
  unknown_flag, message_at, store_message, store_loop, sequence_set, store_body, with_known_flags,
  store_args, handle_store, find_by_uid, uid_store_loop, uid_store_body, uid_store_args,
  handle_uid_store, invalid_sequence,
}
use ua_5308_smtp.Imap.Copy.{
  copy_message, copy_loop, copy_body, copy_args, handle_copy, uid_copy_loop, uid_copy_body,
  handle_uid_copy,
}
use ua_5308_smtp.Imap.Guards.{
  Serves, return-Serves, value-Serves, repo-Serves, bind-Serves, if-Serves, lookup-Serves,
  when_selected-Serves, mailbox_id-Serves, catching-Serves, outcome-Serves,
}

store_message-Serves :
    (is_silence : Bool) (flags : List Bytes) (line : Message → Bytes) (msg : Message)
    → Serves (store_message is_silence flags line msg)
unfolding store_message
store_message-Serves is_silence flags line msg =
    bind-Serves (value msg.id) _ (value-Serves msg.id) (λ id.
      bind-Serves (repo (Flagging.set_flags id flags)) _ (repo-Serves _ (set_flags-Keeps id flags))
        (elim [
          | none ↦ return-Serves _
          | some _ ↦ if-Serves is_silence _ _ (return-Serves _) (
              bind-Serves (repo (MessageDal.find_by_id id)) _
                (repo-Serves _ (message_by_id-Keeps id))
                (elim [ none ↦ return-Serves _ | some m ↦ return-Serves _ ]))
        ]))

store_loop-Serves :
    (is_silence : Bool) (flags : List Bytes) (messages : List Message) (ids : List ℤ)
    (fetch_responses : Bytes)
    → Serves (store_loop is_silence flags messages ids fetch_responses)
unfolding store_loop
store_loop-Serves is_silence flags messages [] fetch_responses = return-Serves _
store_loop-Serves is_silence flags messages (id ∷ ids) fetch_responses =
    elim (Option-cases (message_at messages id)) [
      | inl missing ↦
          rw (missing, store_loop) (store_loop-Serves is_silence flags messages ids fetch_responses)
      | inr (found, e) ↦
          rw (e, store_loop)
            (bind-Serves _ _ (store_message-Serves is_silence flags _ found.1)
              (λ line. store_loop-Serves is_silence flags messages ids (fetch_responses ++ line)))
    ]

with_known_flags-Serves :
    (cmd : ImapCommand) (flags : Bytes) (body : List Bytes → M Server Bytes)
    → ((raw_flags : List Bytes) → Serves (body raw_flags))
    → Serves (with_known_flags cmd flags body)
with_known_flags-Serves cmd flags body h =
    let raw_flags = split_args (trim_parentheses flags) in
    elim (Option-cases (unknown_flag raw_flags)) [
      | inl known ↦ rw (known, with_known_flags) (h raw_flags)
      | inr (f, e) ↦
          rw (e, with_known_flags)
            (return-Serves (Response.bad cmd.tag (codes "Unknown flag: " ++ f)))
    ]

store_body-Serves :
    (machine : Machine) (cmd : ImapCommand) (set item : Bytes) (raw_flags : List Bytes)
    → Serves (store_body machine cmd set item raw_flags)
store_body-Serves machine cmd set item raw_flags =
    bind-Serves mailbox_id _ mailbox_id-Serves (λ folder.
      bind-Serves (repo (find_by_folder folder)) _
        (repo-Serves _ (messages_by_folder-Keeps folder 50 0))
        (λ messages.
          bind-Serves (sequence_set machine set (pos (length messages))) _ (outcome-Serves _)
            (λ ids.
              bind-Serves (store_loop _ _ messages ids []) _ (store_loop-Serves _ _ messages ids [])
                (λ fetch_responses. return-Serves _))))

store_args-Serves :
    (machine : Machine) (cmd : ImapCommand) (args : List Bytes)
    → Serves (store_args machine cmd args)
store_args-Serves machine cmd [] = return-Serves _
store_args-Serves machine cmd (a ∷ []) = return-Serves _
store_args-Serves machine cmd (a ∷ b ∷ []) = return-Serves _
store_args-Serves machine cmd (a ∷ b ∷ c ∷ d ∷ args) = return-Serves _
store_args-Serves machine cmd (set ∷ item ∷ flags ∷ []) =
    catching-Serves (with_known_flags cmd flags (store_body machine cmd set item)) _
      (with_known_flags-Serves cmd flags _ (store_body-Serves machine cmd set item))
      (return-Serves _)

pub handle_store-Serves :
    (machine : Machine) (cmd : ImapCommand) → Serves (handle_store machine cmd)
unfolding handle_store
handle_store-Serves machine cmd =
    when_selected-Serves cmd _ (store_args-Serves machine cmd cmd.args)

select_uid-Keeps : (folder uid : ℕ) → Keeps (MessageDal.find_by_uid folder uid)
unfolding MessageDal.find_by_uid
select_uid-Keeps folder uid = record { keeps = λ db k. k }

pub find_by_uid-Keeps : (folder : ℕ) (uid : ℤ) → Keeps (find_by_uid folder uid)
find_by_uid-Keeps folder (pos uid) = select_uid-Keeps folder uid
find_by_uid-Keeps folder (negsuc n) = select-Keeps none (λ t. none)

uid_store_loop-Serves :
    (is_silence : Bool) (flags : List Bytes) (i : ℕ) (uids : List ℤ) (fetch_responses : Bytes)
    → Serves (uid_store_loop is_silence flags i uids fetch_responses)
unfolding uid_store_loop
uid_store_loop-Serves is_silence flags i [] fetch_responses = return-Serves _
uid_store_loop-Serves is_silence flags i (uid ∷ uids) fetch_responses =
    bind-Serves mailbox_id _ mailbox_id-Serves (λ folder.
      bind-Serves (repo (find_by_uid folder uid)) _ (repo-Serves _ (find_by_uid-Keeps folder uid))
        (elim [
          | none ↦ uid_store_loop-Serves is_silence flags (suc i) uids fetch_responses
          | some msg ↦ bind-Serves _ _ (store_message-Serves is_silence flags _ msg) (λ line.
              uid_store_loop-Serves is_silence flags (suc i) uids (fetch_responses ++ line))
        ]))

uid_store_body-Serves :
    (machine : Machine) (cmd : ImapCommand) (set item : Bytes) (raw_flags : List Bytes)
    → Serves (uid_store_body machine cmd set item raw_flags)
uid_store_body-Serves machine cmd set item raw_flags =
    bind-Serves (sequence_set machine set _) _ (outcome-Serves _) (λ uids.
      bind-Serves (uid_store_loop _ _ 0 uids []) _ (uid_store_loop-Serves _ _ 0 uids [])
        (λ fetch_responses. return-Serves _))

uid_store_args-Serves :
    (machine : Machine) (cmd : ImapCommand) (args : List Bytes)
    → Serves (uid_store_args machine cmd args)
uid_store_args-Serves machine cmd [] = return-Serves _
uid_store_args-Serves machine cmd (a ∷ []) = return-Serves _
uid_store_args-Serves machine cmd (a ∷ b ∷ []) = return-Serves _
uid_store_args-Serves machine cmd (a ∷ b ∷ c ∷ d ∷ args) = return-Serves _
uid_store_args-Serves machine cmd (set ∷ item ∷ flags ∷ []) =
    catching-Serves (with_known_flags cmd flags (uid_store_body machine cmd set item)) _
      (with_known_flags-Serves cmd flags _ (uid_store_body-Serves machine cmd set item))
      (return-Serves _)

pub handle_uid_store-Serves :
    (machine : Machine) (cmd : ImapCommand) → Serves (handle_uid_store machine cmd)
unfolding handle_uid_store
handle_uid_store-Serves machine cmd =
    when_selected-Serves cmd _ (uid_store_args-Serves machine cmd cmd.args)

copy_message-Serves : (folder_dest : Folder) (msg : Message) → Serves (copy_message folder_dest msg)
unfolding copy_message
copy_message-Serves folder_dest msg = bind-Serves (value msg.id) _ (value-Serves msg.id) (λ id.
    bind-Serves (value folder_dest.id) _ (value-Serves folder_dest.id) (λ target.
      bind-Serves (repo (Messages.copy id target)) _ (repo-Serves _ (copy-Keeps id target))
        (λ copied. return-Serves _)))

copy_loop-Serves :
    (folder_dest : Folder) (messages : List Message) → Serves (copy_loop folder_dest messages)
unfolding copy_loop
copy_loop-Serves folder_dest [] = return-Serves _
copy_loop-Serves folder_dest (msg ∷ messages) =
    bind-Serves (copy_message folder_dest msg) _ (copy_message-Serves folder_dest msg)
      (λ done. copy_loop-Serves folder_dest messages)

uid_copy_loop-Serves :
    (folder_dest : Folder) (uids : List ℤ) → Serves (uid_copy_loop folder_dest uids)
unfolding uid_copy_loop
uid_copy_loop-Serves folder_dest [] = return-Serves _
uid_copy_loop-Serves folder_dest (uid ∷ uids) =
    bind-Serves mailbox_id _ mailbox_id-Serves (λ folder.
      bind-Serves (repo (find_by_uid folder uid)) _ (repo-Serves _ (find_by_uid-Keeps folder uid))
        (elim [
          | none ↦ uid_copy_loop-Serves folder_dest uids
          | some msg ↦
              bind-Serves (copy_message folder_dest msg) _ (copy_message-Serves folder_dest msg)
                (λ done. uid_copy_loop-Serves folder_dest uids)
        ]))

copy_args-Serves :
    (body : Bytes → Folder → M Server Bytes) (cmd : ImapCommand)
    → ((set : Bytes) (folder_dest : Folder) → Serves (body set folder_dest))
    → (args : List Bytes) → Serves (copy_args body cmd args)
copy_args-Serves body cmd h [] = return-Serves _
copy_args-Serves body cmd h (a ∷ []) = return-Serves _
copy_args-Serves body cmd h (a ∷ b ∷ c ∷ args) = return-Serves _
copy_args-Serves body cmd h (set ∷ name ∷ []) = lookup-Serves name _ (elim [
  | none ↦ return-Serves _
  | some folder_dest ↦
      catching-Serves (body set folder_dest) (invalid_sequence cmd) (h set folder_dest)
        (return-Serves _)
])

pub handle_copy-Serves : (machine : Machine) (cmd : ImapCommand) → Serves (handle_copy machine cmd)
unfolding handle_copy
handle_copy-Serves machine cmd =
    when_selected-Serves cmd _ (copy_args-Serves (copy_body machine cmd) cmd copied cmd.args)
  where
    copied : (set : Bytes) (folder_dest : Folder) → Serves (copy_body machine cmd set folder_dest)
    copied set folder_dest = bind-Serves mailbox_id _ mailbox_id-Serves (λ folder.
        bind-Serves (repo (find_by_folder folder)) _
          (repo-Serves _ (messages_by_folder-Keeps folder 50 0))
          (λ messages.
            bind-Serves (sequence_set machine set (pos (length messages))) _ (outcome-Serves _)
              (λ ids.
                bind-Serves (copy_loop folder_dest _) _ (copy_loop-Serves folder_dest _)
                  (λ done. return-Serves _))))

pub handle_uid_copy-Serves :
    (machine : Machine) (cmd : ImapCommand) → Serves (handle_uid_copy machine cmd)
unfolding handle_uid_copy
handle_uid_copy-Serves machine cmd =
    when_selected-Serves cmd _ (copy_args-Serves (uid_copy_body machine cmd) cmd copied cmd.args)
  where
    copied :
        (set : Bytes) (folder_dest : Folder) → Serves (uid_copy_body machine cmd set folder_dest)
    copied set folder_dest = bind-Serves (sequence_set machine set _) _ (outcome-Serves _) (λ uids.
        bind-Serves (uid_copy_loop folder_dest uids) _ (uid_copy_loop-Serves folder_dest uids)
          (λ done. return-Serves _))
