-- ===== src/Imap/MailboxesServe.antt =====
-- imap-server/src/ImapCommandDispatcher.cpp: the handlers for the mailboxes of a user keep a server sound.
use ua_5308_smtp.Prelude.{
  ◌⊎◌, inl, inr, ℕ, Bool, ◌||◌, Option, none, some, List, [], ◌∷◌, Bytes, codes, equal, is_empty,
}
use ua_5308_smtp.Effects.{next, ◌>>=◌, return, value}
use ua_5308_smtp.Database.Rows.{Folder}
use ua_5308_smtp.Database.FolderDal
use ua_5308_smtp.Database.Operations.{
  folder_by_name-Keeps, create_folder-Keeps, delete_folder-Keeps, set_subscribed-Keeps,
  folders_by_user-Keeps,
}
use ua_5308_smtp.Database.Moving.{rename_folder-Keeps}
use ua_5308_smtp.Database.Repository.Folders
use ua_5308_smtp.Imap.Command.{ImapCommand}
use ua_5308_smtp.Imap.Session.{repo, user_id}
use ua_5308_smtp.Imap.Mailboxes.{
  parent_chain, follows, create_in, create_below, create_parts, id_of, new_folder, subscribe_as,
  slash, split, has_empty,
}
use ua_5308_smtp.Imap.Mailboxes
use ua_5308_smtp.Imap.Response
use ua_5308_smtp.Imap.Guards.{
  Serves, return-Serves, value-Serves, repo-Serves, bind-Serves, if-Serves, user_id-Serves,
  answer-Serves, lookup-Serves,
}

folders-Serves :
    (cmd : ImapCommand) (line : List Folder → Bytes)
    → Serves (
        user_id >>= λ user. repo (Mailboxes.find_folders user) >>= λ folders. return (line folders))
folders-Serves cmd line = bind-Serves user_id _ user_id-Serves (λ user.
    bind-Serves (repo (Mailboxes.find_folders user)) _
      (repo-Serves _ (folders_by_user-Keeps user 50 0)) (λ folders. return-Serves _))

pub handle_list-Serves : (cmd : ImapCommand) → Serves (Mailboxes.handle_list cmd)
unfolding Mailboxes.handle_list
handle_list-Serves cmd = answered cmd.args
  where
    answered : (args : List Bytes) → Serves (Mailboxes.handle_list (record cmd { args = args }))
    answered [] = return-Serves _
    answered (name ∷ []) = return-Serves _
    answered (reference ∷ pattern ∷ []) =
        if-Serves (is_empty pattern) _ _ (return-Serves _) (folders-Serves cmd _)
    answered (a ∷ b ∷ c ∷ rest) = return-Serves _

pub handle_lsub-Serves : (cmd : ImapCommand) → Serves (Mailboxes.handle_lsub cmd)
unfolding Mailboxes.handle_lsub
handle_lsub-Serves cmd = answered cmd.args
  where
    answered : (args : List Bytes) → Serves (Mailboxes.handle_lsub (record cmd { args = args }))
    answered [] = return-Serves _
    answered (name ∷ []) = return-Serves _
    answered (reference ∷ pattern ∷ []) =
        if-Serves (is_empty pattern) _ _ (return-Serves _) (folders-Serves cmd _)
    answered (a ∷ b ∷ c ∷ rest) = return-Serves _

parent_chain-Serves :
    (user : ℕ) (prev : Option Folder) (names : List Bytes) → Serves (parent_chain user prev names)
unfolding parent_chain
parent_chain-Serves user prev [] = return-Serves _
parent_chain-Serves user prev (name ∷ []) = return-Serves _
parent_chain-Serves user prev (name ∷ next ∷ names) =
    bind-Serves (repo (FolderDal.find_by_name user name)) _
      (repo-Serves _ (folder_by_name-Keeps user name))
      (elim [
        | none ↦ return-Serves _
        | some f ↦
            if-Serves (follows prev f) _ _ (parent_chain-Serves user (some f) (next ∷ names))
              (return-Serves _)
      ])

create_in-Serves :
    (cmd : ImapCommand) (parent : Option ℕ) (name : Bytes) → Serves (create_in cmd parent name)
create_in-Serves cmd parent name = bind-Serves user_id _ user_id-Serves (λ user.
    bind-Serves (repo (Folders.create_folder (new_folder user parent name))) _
      (repo-Serves _ (create_folder-Keeps _)) (answer-Serves _ _))

create_below-Serves :
    (cmd : ImapCommand) (name : Bytes) (o : Option Folder ⊎ Bytes)
    → Serves (create_below cmd name o)
create_below-Serves cmd name (inr missing) = return-Serves _
create_below-Serves cmd name (inl prev) = below (id_of prev)
  where
    below :
        (o : Option ℕ)
        → Serves (elim o [
          | none ↦ return (Response.bad cmd.tag (codes "Parent folder doesn`t exist"))
          | some id ↦ create_in cmd (some id) name
        ])
    below none = return-Serves _
    below (some id) = create_in-Serves cmd (some id) name

create_parts-Serves :
    (cmd : ImapCommand) (name : Bytes) (parts : List Bytes) → Serves (create_parts cmd name parts)
create_parts-Serves cmd name [] = bind-Serves user_id _ user_id-Serves (λ user.
    bind-Serves (parent_chain user none []) _ (parent_chain-Serves user none [])
      (create_below-Serves cmd name))
create_parts-Serves cmd name (part ∷ []) = create_in-Serves cmd none name
create_parts-Serves cmd name (part ∷ next ∷ parts) = bind-Serves user_id _ user_id-Serves (λ user.
    bind-Serves (parent_chain user none (part ∷ next ∷ parts)) _
      (parent_chain-Serves user none (part ∷ next ∷ parts)) (create_below-Serves cmd name))

pub handle_create-Serves : (cmd : ImapCommand) → Serves (Mailboxes.handle_create cmd)
unfolding Mailboxes.handle_create
handle_create-Serves cmd = answered cmd.args
  where
    answered : (args : List Bytes) → Serves (Mailboxes.handle_create (record cmd { args = args }))
    answered [] = return-Serves _
    answered (name ∷ []) =
        if-Serves (is_empty name || has_empty (split slash name)) _ _ (return-Serves _)
          (create_parts-Serves cmd name (split slash name))
    answered (a ∷ b ∷ rest) = return-Serves _

pub handle_delete-Serves : (cmd : ImapCommand) → Serves (Mailboxes.handle_delete cmd)
unfolding Mailboxes.handle_delete
handle_delete-Serves cmd = answered cmd.args
  where
    answered : (args : List Bytes) → Serves (Mailboxes.handle_delete (record cmd { args = args }))
    answered [] = return-Serves _
    answered (a ∷ b ∷ rest) = return-Serves _
    answered (name ∷ []) = lookup-Serves name _ (elim [
      | none ↦ return-Serves _
      | some f ↦ if-Serves (equal f.name (codes "INBOX")) _ _ (return-Serves _) (
          bind-Serves (value f.id) _ (value-Serves f.id) (λ id.
            bind-Serves (repo (Folders.delete_folder id)) _ (repo-Serves _ (delete_folder-Keeps id))
              (answer-Serves _ _)))
    ])

pub handle_rename-Serves : (cmd : ImapCommand) → Serves (Mailboxes.handle_rename cmd)
unfolding Mailboxes.handle_rename
handle_rename-Serves cmd = answered cmd.args
  where
    answered : (args : List Bytes) → Serves (Mailboxes.handle_rename (record cmd { args = args }))
    answered [] = return-Serves _
    answered (a ∷ []) = return-Serves _
    answered (a ∷ b ∷ c ∷ rest) = return-Serves _
    answered (name ∷ new_name ∷ []) = lookup-Serves name _ (elim [
      | none ↦ return-Serves _
      | some f ↦ bind-Serves (value f.id) _ (value-Serves f.id) (λ id.
          bind-Serves (repo (Folders.rename_folder id new_name)) _
            (repo-Serves _ (rename_folder-Keeps id new_name)) (answer-Serves _ _))
    ])

pub subscribe_as-Serves :
    (subscribed : Bool) (done : Bytes) (cmd : ImapCommand)
    → Serves (subscribe_as subscribed done cmd)
subscribe_as-Serves subscribed done cmd = answered cmd.args
  where
    set : (o : Option ℕ) → Serves (Mailboxes.subscribe_found cmd subscribed done o)
    set none = return-Serves _
    set (some id) =
        bind-Serves (repo (Folders.set_subscribed id subscribed)) _
          (repo-Serves _ (set_subscribed-Keeps id subscribed)) (answer-Serves _ _)

    answered :
        (args : List Bytes) → Serves (subscribe_as subscribed done (record cmd { args = args }))
    answered [] = return-Serves _
    answered (a ∷ b ∷ rest) = return-Serves _
    answered (name ∷ []) = lookup-Serves name _ (λ found. set (id_of found))
