-- ===== src/Imap/Serving.antt =====
-- imap-server/src/ImapCommandDispatcher.cpp and ImapSession.cpp: the handlers of the session and of its
-- mailbox, `Dispatch` and `HandleCommand`, one command after the other.
use ua_5308_smtp.Prelude.{
  ℕ, Bool, true, false, ◌≡◌, refl, Option, none, some, List, [], ◌∷◌, Bytes, codes, reverse, ◌++◌,
  ◌&&◌,
}
use ua_5308_smtp.Effects.{◌>>◌, return, value, catching}
use ua_5308_smtp.Database.Rows.{Folder, Message}
use ua_5308_smtp.Database.Engine.{Db}
use ua_5308_smtp.Database.Keeping.{Kept}
use ua_5308_smtp.Database.Counters.{Counted}
use ua_5308_smtp.Database.Operations.{
  clear_recent_by_folder-Keeps, hard_delete_message-Keeps, messages_by_folder-Keeps,
}
use ua_5308_smtp.Database.Expunging.{expunge-Keeps}
use ua_5308_smtp.Database.Accounts.{authorize-Keeps, find_by_username-Keeps}
use ua_5308_smtp.Database.Repository.Messages
use ua_5308_smtp.Database.Repository.Users
use ua_5308_smtp.Imap.Command.{ImapCommand, ImapCommandType}
use ua_5308_smtp.Imap.Command
use ua_5308_smtp.Imap.Dispatch.{
  dispatch_to, dispatch, handle_parsed, is_unknown, is_non_authenticated, after_reply, read_command,
}
use ua_5308_smtp.Imap.Session.{
  new_dispatcher, Dispatcher, Server, Handler, repo, gets, modify, user_id, is_selected, enter,
  log_in, no_mailbox, authenticated, find_by_folder, numbered_deleted, requires_auth, expunge_loop,
  expunge_mailbox, when_selected, mailbox_id, leave, close_answer,
}
use ua_5308_smtp.Imap.Session
use ua_5308_smtp.Imap.Status
use ua_5308_smtp.Imap.Mailboxes.{
  parent_chain, follows, create_in, create_below, create_parts, id_of, new_folder, subscribe_as,
  slash, split, has_empty,
}
use ua_5308_smtp.Imap.Mailboxes
use ua_5308_smtp.Imap.Response
use ua_5308_smtp.Imap.MailboxesServe.{
  handle_list-Serves, handle_lsub-Serves, handle_create-Serves, handle_delete-Serves,
  handle_rename-Serves, subscribe_as-Serves,
}
use ua_5308_smtp.Imap.Items.{Outside}
use ua_5308_smtp.Imap.FetchServes.{handle_fetch-Serves, handle_uid_fetch-Serves}
use ua_5308_smtp.Imap.StoreServes.{
  handle_store-Serves, handle_uid_store-Serves, handle_copy-Serves, handle_uid_copy-Serves,
}
use ua_5308_smtp.Imap.Guards.{
  Sound, has_mailbox, Serves, return-Serves, value-Serves, repo-Serves, bind-Serves, modify-Serves,
  user_id-Serves, lookup-Serves, value_then-Serves, enter-Serves, when_selected-Serves,
  mailbox_id-Serves, gets-Serves, if-Serves, catching-Serves,
}

handle_login-Serves :
    (verify : Bytes → Bytes → Bool) (cmd : ImapCommand) → Serves (Session.handle_login verify cmd)
unfolding Session.handle_login
handle_login-Serves verify cmd = answered cmd.args
  where
    log :
        (username : Bytes) (id : Option ℕ)
        → Serves (
            modify (log_in username id)
            >> user_id
            >> return (Response.ok cmd.tag (codes "Login successful")))
    log username id =
        bind-Serves (modify (log_in username id) >> user_id) _
          (bind-Serves (modify (log_in username id)) _ (modify-Serves _ (λ d h. refl))
            (λ _. user_id-Serves))
          (λ _. return-Serves _)

    answered :
        (args : List Bytes) → Serves (Session.handle_login verify (record cmd { args = args }))
    answered [] = return-Serves _
    answered (username ∷ []) = return-Serves _
    answered (username ∷ password ∷ other ∷ rest) = return-Serves _
    answered (username ∷ password ∷ []) =
        bind-Serves (repo (Users.authorize verify username password)) _
          (repo-Serves _ (authorize-Keeps verify username password))
          (elim [
            | none ↦ return-Serves _
            | some _ ↦
                bind-Serves (repo (Users.find_by_username username)) _
                  (repo-Serves _ (find_by_username-Keeps username))
                  (elim [ none ↦ return-Serves _ | some u ↦ log username u.id ])
          ])

handle_select-Serves : (cmd : ImapCommand) → Serves (Session.handle_select cmd)
unfolding Session.handle_select
handle_select-Serves cmd = answered cmd.args
  where
    opened : (name : Bytes) (folder : Folder) → Serves (Session.open_folder cmd folder)
    opened name folder =
        value_then-Serves (modify (Session.named folder)) folder.id _ (modify-Serves _ (λ d h. h))
          (λ id e.
            bind-Serves (repo (find_by_folder id)) _
              (repo-Serves _ (messages_by_folder-Keeps id 50 0))
              (λ messages.
                bind-Serves _ _
                  (bind-Serves _ (λ _. enter folder.id)
                    (bind-Serves (modify (Session.counted messages)) _ (modify-Serves _ (λ d h. h))
                      (λ _. repo-Serves _ (clear_recent_by_folder-Keeps id)))
                    (λ _. enter-Serves folder.id id e))
                  (λ _. return-Serves _)))

    answered : (args : List Bytes) → Serves (Session.handle_select (record cmd { args = args }))
    answered [] = return-Serves _
    answered (name ∷ other ∷ rest) = return-Serves _
    answered (name ∷ []) =
        lookup-Serves name _ (elim [ none ↦ return-Serves _ | some folder ↦ opened name folder ])

close_answer-Serves : (cmd : ImapCommand) (o : Option (Unit {0})) → Serves (close_answer cmd o)
close_answer-Serves cmd none = return-Serves _
close_answer-Serves cmd (some _) =
    bind-Serves (modify leave) _ (modify-Serves leave (λ d h. refl))
      (λ _. return-Serves (Response.ok cmd.tag (codes "Close completed")))

handle_close-Serves : (cmd : ImapCommand) → Serves (Session.handle_close cmd)
unfolding Session.handle_close
handle_close-Serves cmd = when_selected-Serves cmd _ (
    bind-Serves mailbox_id _ mailbox_id-Serves (λ id.
      bind-Serves (repo (Messages.expunge id)) _ (repo-Serves _ (expunge-Keeps id))
        (close_answer-Serves cmd)))

expunge_loop-Serves :
    (ms : List (Message × ℕ)) (response : Bytes) → Serves (expunge_loop ms response)
unfolding expunge_loop
expunge_loop-Serves [] response = return-Serves _
expunge_loop-Serves ((m, n) ∷ rest) response = bind-Serves (value m.id) _ (value-Serves m.id) (λ id.
    bind-Serves (repo (Messages.hard_delete id)) _ (repo-Serves _ (hard_delete_message-Keeps id))
      (elim [ none ↦ expunge_loop-Serves rest response | some _ ↦ expunge_loop-Serves rest _ ]))

expunge_mailbox-Serves : (cmd : ImapCommand) (args : List Bytes) → Serves (expunge_mailbox cmd args)
expunge_mailbox-Serves cmd (arg ∷ args) = return-Serves _
expunge_mailbox-Serves cmd [] = bind-Serves mailbox_id _ mailbox_id-Serves (λ id.
    bind-Serves (repo (find_by_folder id)) _ (repo-Serves _ (messages_by_folder-Keeps id 50 0))
      (λ messages.
        bind-Serves (expunge_loop (reverse (numbered_deleted 1 messages)) []) _
          (expunge_loop-Serves _ []) (λ response. return-Serves _)))

handle_expunge-Serves : (cmd : ImapCommand) → Serves (Session.handle_expunge cmd)
unfolding Session.handle_expunge
handle_expunge-Serves cmd = when_selected-Serves cmd _ (expunge_mailbox-Serves cmd cmd.args)

handle_status-Serves : (cmd : ImapCommand) → Serves (Status.handle_status cmd)
unfolding Status.handle_status
handle_status-Serves cmd = answered cmd.args
  where
    shown : (name items : Bytes) (folder : Folder) → Serves (Status.show cmd name items folder)
    shown name items folder = bind-Serves (value folder.id) _ (value-Serves folder.id) (λ id.
        bind-Serves (repo (find_by_folder id)) _ (repo-Serves _ (messages_by_folder-Keeps id 50 0))
          (λ messages. return-Serves _))

    answered : (args : List Bytes) → Serves (Status.handle_status (record cmd { args = args }))
    answered [] = return-Serves _
    answered (a ∷ []) = return-Serves _
    answered (a ∷ b ∷ c ∷ rest) = return-Serves _
    answered (name ∷ items ∷ []) =
        lookup-Serves name _
          (elim [ none ↦ return-Serves _ | some folder ↦ shown name items folder ])

handle_starttls-Serves :
    (cmd : ImapCommand) (args : List Bytes)
    → Serves (Session.handle_starttls (record cmd { args = args }))
unfolding Session.handle_starttls
handle_starttls-Serves cmd [] = return-Serves _
handle_starttls-Serves cmd (arg ∷ args) = return-Serves _

handle_logout-Serves : (cmd : ImapCommand) → Serves (Session.handle_logout cmd)
unfolding Session.handle_logout
handle_logout-Serves cmd = return-Serves _

handle_capability-Serves : (cmd : ImapCommand) → Serves (Session.handle_capability cmd)
unfolding Session.handle_capability
handle_capability-Serves cmd = return-Serves _

handle_noop-Serves : (cmd : ImapCommand) → Serves (Session.handle_noop cmd)
unfolding Session.handle_noop
handle_noop-Serves cmd = return-Serves _

handle_check-Serves : (cmd : ImapCommand) → Serves (Session.handle_check cmd)
unfolding Session.handle_check
handle_check-Serves cmd =
    when_selected-Serves cmd _ (return-Serves (Response.ok cmd.tag (codes "Check completed")))

handle_subscribe-Serves : (cmd : ImapCommand) → Serves (Mailboxes.handle_subscribe cmd)
unfolding Mailboxes.handle_subscribe
handle_subscribe-Serves cmd = subscribe_as-Serves true _ cmd

handle_unsubscribe-Serves : (cmd : ImapCommand) → Serves (Mailboxes.handle_unsubscribe cmd)
unfolding Mailboxes.handle_unsubscribe
handle_unsubscribe-Serves cmd = subscribe_as-Serves false _ cmd

dispatch_to-Serves :
    (verify : Bytes → Bytes → Bool) (o : Outside) (type : ImapCommandType) (cmd : ImapCommand)
    → Serves (dispatch_to verify o type cmd)
unfolding dispatch_to
dispatch_to-Serves verify o Command.login cmd = handle_login-Serves verify cmd
dispatch_to-Serves verify o Command.logout cmd = handle_logout-Serves cmd
dispatch_to-Serves verify o Command.capability cmd = handle_capability-Serves cmd
dispatch_to-Serves verify o Command.noop cmd = handle_noop-Serves cmd
dispatch_to-Serves verify o Command.starttls cmd = handle_starttls-Serves cmd cmd.args
dispatch_to-Serves verify o Command.check cmd = handle_check-Serves cmd
dispatch_to-Serves verify o Command.select cmd = handle_select-Serves cmd
dispatch_to-Serves verify o Command.close cmd = handle_close-Serves cmd
dispatch_to-Serves verify o Command.expunge cmd = handle_expunge-Serves cmd
dispatch_to-Serves verify o Command.status cmd = handle_status-Serves cmd
dispatch_to-Serves verify o Command.list cmd = handle_list-Serves cmd
dispatch_to-Serves verify o Command.lsub cmd = handle_lsub-Serves cmd
dispatch_to-Serves verify o Command.create cmd = handle_create-Serves cmd
dispatch_to-Serves verify o Command.delete cmd = handle_delete-Serves cmd
dispatch_to-Serves verify o Command.rename cmd = handle_rename-Serves cmd
dispatch_to-Serves verify o Command.subscribe cmd = handle_subscribe-Serves cmd
dispatch_to-Serves verify o Command.unsubscribe cmd = handle_unsubscribe-Serves cmd
dispatch_to-Serves verify o Command.store cmd = handle_store-Serves o.machine cmd
dispatch_to-Serves verify o Command.copy cmd = handle_copy-Serves o.machine cmd
dispatch_to-Serves verify o Command.uid_store cmd = handle_uid_store-Serves o.machine cmd
dispatch_to-Serves verify o Command.uid_copy cmd = handle_uid_copy-Serves o.machine cmd
dispatch_to-Serves verify o Command.fetch cmd = handle_fetch-Serves o cmd
dispatch_to-Serves verify o Command.uid_fetch cmd = handle_uid_fetch-Serves o cmd
dispatch_to-Serves verify o Command.unknown cmd =
    return-Serves (Response.bad cmd.tag (codes "Command not implemented"))

handle_parsed-Serves :
    (verify : Bytes → Bytes → Bool) (o : Outside) (secure : Bool) (cmd : ImapCommand)
    → Serves (handle_parsed verify o secure cmd)
unfolding handle_parsed dispatch
handle_parsed-Serves verify o secure cmd =
    bind-Serves (gets (λ d. d.state)) _ (gets-Serves (λ d. d.state)) (λ state.
      if-Serves (is_unknown cmd.type) _ _
        (return-Serves (Response.bad cmd.tag (codes "Command not recognized"), read_command))
        (if-Serves (requires_auth cmd.type && is_non_authenticated state) _ _
          (return-Serves (Response.bad cmd.tag (codes "Not authenticated"), read_command))
          (bind-Serves
            (catching (dispatch_to verify o cmd.type cmd)
              (return (codes "BAD Internal server error" ++ Response.crlf)))
            (λ response. return (after_reply secure cmd.type cmd.tag response))
            (catching-Serves (dispatch_to verify o cmd.type cmd) _
              (dispatch_to-Serves verify o cmd.type cmd) (return-Serves _))
            (λ response. return-Serves _))))

-- Any commands, on any channel and with any files, and other connections at work in between.
pub data SessionRuns : Server → Server → Type 0 where
  start : {w : Server} → SessionRuns w w
  command :
      {w w' : Server} (verify : Bytes → Bytes → Bool) (o : Outside) (secure : Bool)
      (cmd : ImapCommand)
      → SessionRuns w w'
      → SessionRuns w (handle_parsed verify o secure cmd w').1
  elsewhere :
      {w w' : Server} (db : Db) → SessionRuns w w' → Kept db → SessionRuns w (record w' { db = db })

SessionRuns-Sound : (w w' : Server) → SessionRuns w w' → Sound w → Sound w'
SessionRuns-Sound w w' start h = h
SessionRuns-Sound w w' (command verify o secure cmd runs) h =
    (handle_parsed-Serves verify o secure cmd).serves _ (SessionRuns-Sound w _ runs h)
SessionRuns-Sound w w' (elsewhere db runs k) h = (k, (SessionRuns-Sound w _ runs h).1)

-- From a new session on, any commands that HandleCommand is given, with other connections at work in
-- between that keep this of the database, leave a selected mailbox with an id, no transaction open, and
-- every message in a folder whose counter is above its UID, whatever SQLite refuses and whichever
-- command throws.
pub runs-Sound :
    (db : Db) (w : Server)
    → SessionRuns (record { dispatcher = new_dispatcher; db = db }) w
    → db.saved ≡ none
    → Counted db.live
    → ((w.db.saved ≡ none) × Counted w.db.live) × (has_mailbox w.dispatcher ≡ true)
runs-Sound db w runs e c = SessionRuns-Sound _ w runs ((e, c), refl)
