-- ===== src/Imap/Session.antt =====
-- proto/ImapSessionTypes.hpp, and the handlers of imap-server/src/ImapCommandDispatcher.cpp for the
-- session and the selected mailbox. Log calls are left out. The world of a handler is the members of
-- the dispatcher and the database.
use ua_5308_smtp.Prelude.{
  ℕ, suc, Bool, true, false, not, Option, none, some, List, [], ◌∷◌, ◌++◌, Bytes, codes, to_string,
  length, reverse, if◌then◌else◌,
}
use ua_5308_smtp.Effects.{M, ◌>>=◌, ◌>>◌, return, value}
use ua_5308_smtp.Database.Rows.{Folder, Message}
use ua_5308_smtp.Database.Engine.{Db, Sql}
use ua_5308_smtp.Database.Queries.{rows_where}
use ua_5308_smtp.Database.FolderDal
use ua_5308_smtp.Database.MessageDal
use ua_5308_smtp.Database.Repository.Messages
use ua_5308_smtp.Database.Repository.Users
use ua_5308_smtp.Imap.Command.{
  ImapCommand, ImapCommandType, login, logout, capability, noop, starttls,
}
use ua_5308_smtp.Imap.Response

pub data SessionState : Type 0 where
  non_authenticated authenticated selected : SessionState

pub record MailboxState : Type 0 where
  pub name : Bytes
  pub exists : ℕ
  pub recent : ℕ
  pub unseen : ℕ
  pub flags : List Bytes
  pub id : Option ℕ
  pub read_only : Bool

abbrev pub no_mailbox : MailboxState
no_mailbox = record {
  name = [];
  exists = 0;
  recent = 0;
  unseen = 0;
  flags = [];
  id = none;
  read_only = false;
}

-- The members of `ImapCommandDispatcher` that are not references.
pub record Dispatcher : Type 0 where
  pub state : SessionState
  pub authenticated_username : Bytes
  pub authenticated_user_id : Option ℕ
  pub current_mailbox : MailboxState

abbrev pub new_dispatcher : Dispatcher
new_dispatcher = record {
  state = non_authenticated;
  authenticated_username = [];
  authenticated_user_id = none;
  current_mailbox = no_mailbox;
}

pub record Server : Type 0 where
  pub dispatcher : Dispatcher
  pub db : Db

abbrev pub Handler : Type 0
Handler = ImapCommand → M Server Bytes

-- A call of a repository.
abbrev pub repo : {A : Type 0} → Sql A → M Server A
repo m w = ((m w.db).0, record w { db = (m w.db).1 })

abbrev pub gets : {A : Type 0} → (Dispatcher → A) → M Server A
gets f w = return (f w.dispatcher) w

abbrev pub modify : (Dispatcher → Dispatcher) → M Server (Unit {0})
modify f w = return tt (record w { dispatcher = f w.dispatcher })

-- `m_messRepo.getLastError()`
abbrev pub last_error : M Server Bytes
last_error w = return w.db.last_error w

-- `m_authenticatedUserID.value()`
abbrev pub user_id : M Server ℕ
user_id = gets (λ d. d.authenticated_user_id) >>= value

abbrev pub is_selected : SessionState → Bool
is_selected selected = true
is_selected _ = false

unfoldable pub requires_auth : ImapCommandType → Bool
requires_auth login = false
requires_auth logout = false
requires_auth capability = false
requires_auth noop = false
requires_auth starttls = false
requires_auth _ = true

abbrev pub log_in : Bytes → Option ℕ → Dispatcher → Dispatcher
log_in username id d = record d {
  authenticated_username = username;
  authenticated_user_id = id;
  state = authenticated;
}

-- `verify` is `crypto_pwhash_str_verify`. The log line after the state is set reads the user's id.
unfoldable pub handle_login : (Bytes → Bytes → Bool) → Handler
handle_login verify cmd = elim cmd.args [
  | username ∷ password ∷ [] ↦ repo (Users.authorize verify username password) >>= λ ok. elim ok [
    | none ↦ return (Response.no cmd.tag (codes "Login failed"))
    | some _ ↦ repo (Users.find_by_username username) >>= λ user. elim user [
      | none ↦ return (Response.no cmd.tag (codes "Login failed"))
      | some u ↦
          modify (log_in username u.id)
          >> user_id
          >> return (Response.ok cmd.tag (codes "Login successful"))
    ]
  ]
  | _ ↦ return (Response.bad cmd.tag (codes "Missing arguments"))
]

unfoldable pub handle_logout : Handler
handle_logout cmd =
    return
      (Response.untagged (codes "BYE Logout") ++ Response.ok cmd.tag (codes "Logout completed"))

unfoldable pub handle_capability : Handler
handle_capability cmd =
    return (Response.capability ++ Response.ok cmd.tag (codes "Capability completed"))

unfoldable pub handle_noop : Handler
handle_noop cmd = return (Response.ok cmd.tag (codes "Noop completed"))

unfoldable pub handle_starttls : Handler
handle_starttls cmd = elim cmd.args [
  | [] ↦ return (cmd.tag ++ (codes " OK Begin TLS negotiation now" ++ Response.crlf))
  | _ ∷ _ ↦ return (Response.bad cmd.tag (codes "STARTTLS takes no arguments"))
]

-- The test of the handlers that need a selected mailbox.
abbrev pub when_selected : ImapCommand → M Server Bytes → M Server Bytes
when_selected cmd m w =
    if is_selected w.dispatcher.state
    then m w
    else return (Response.bad cmd.tag (codes "No mailbox selected")) w

-- `m_currentMailbox.m_id.value()`
abbrev pub mailbox_id : M Server ℕ
mailbox_id w = value w.dispatcher.current_mailbox.id w

unfoldable pub handle_check : Handler
handle_check cmd = when_selected cmd (return (Response.ok cmd.tag (codes "Check completed")))

-- `findByFolder` and `findFoldersByUser` with the default limit and offset.
abbrev pub find_by_folder : ℕ → Sql (List Message)
find_by_folder folder_id = MessageDal.find_by_folder folder_id 50 0

abbrev bracketed : Bytes → Bytes → Bytes
bracketed word text = codes "* OK [" ++ (word ++ (text ++ (codes "]" ++ Response.crlf)))

-- The answer to SELECT.
unfoldable pub select_answer : Bytes → ℕ → ℕ → List Message → Bytes
select_answer tag id next_uid messages =
    Response.flags
    ++ (bracketed (codes "UIDVALIDITY ") (to_string id)
        ++ (bracketed (codes "PERMANENTFLAGS ")
              (codes "(\\Seen \\Answered \\Flagged \\Draft \\Deleted \\*)")
            ++ (bracketed (codes "UNSEEN ")
                  (to_string (length (rows_where (λ (m : Message). not m.is_seen) messages)))
                ++ (Response.exists (length messages)
                    ++ (bracketed (codes "UIDNEXT ") (to_string next_uid)
                        ++ (Response.recent
                              (length (rows_where (λ (m : Message). m.is_recent) messages))
                            ++ Response.ok tag (codes "[READ-WRITE] Select completed")))))))

-- The last two assignments of SELECT.
abbrev pub enter : Option ℕ → M Server (Unit {0})
enter id =
    modify (λ d. record d { current_mailbox = record d.current_mailbox { id = id } })
    >> modify (λ d. record d { state = selected })

abbrev pub named : Folder → Dispatcher → Dispatcher
named folder d = record d { current_mailbox = record d.current_mailbox { name = folder.name } }

abbrev pub counted : List Message → Dispatcher → Dispatcher
counted messages d = record d {
  current_mailbox = record d.current_mailbox {
    exists = length messages;
    recent = length (rows_where (λ (m : Message). m.is_recent) messages);
  };
}

abbrev pub open_folder : ImapCommand → Folder → M Server Bytes
open_folder cmd folder = modify (named folder) >> value folder.id >>= λ id.
    repo (find_by_folder id) >>= λ messages.
    modify (counted messages)
    >> repo (Messages.clear_recent_by_folder id)
    >> enter folder.id
    >> return (select_answer cmd.tag id folder.next_uid messages)

unfoldable pub handle_select : Handler
handle_select cmd = elim cmd.args [
  | name ∷ [] ↦ user_id >>= λ user. repo (FolderDal.find_by_name user name) >>= λ found.
      elim found [
        | none ↦ return (Response.bad cmd.tag (codes "Mailbox not found"))
        | some folder ↦ open_folder cmd folder
      ]
  | _ ↦ return (Response.bad cmd.tag (codes "Invalid arguments number"))
]

abbrev pub leave : Dispatcher → Dispatcher
leave d = record d { state = authenticated; current_mailbox = no_mailbox }

abbrev pub close_answer : ImapCommand → Option (Unit {0}) → M Server Bytes
close_answer cmd none = return (Response.no cmd.tag (codes "Close failed"))
close_answer cmd (some _) = modify leave >> return (Response.ok cmd.tag (codes "Close completed"))

unfoldable pub handle_close : Handler
handle_close cmd =
    when_selected cmd (mailbox_id >>= λ id. repo (Messages.expunge id) >>= close_answer cmd)

-- The messages marked as deleted with their sequence numbers, from the last on.
abbrev pub numbered_deleted : ℕ → List Message → List (Message × ℕ)
numbered_deleted n [] = []
numbered_deleted n (m ∷ ms) =
    let rest = numbered_deleted (suc n) ms in if m.is_deleted then (m, n) ∷ rest else rest

-- A message that cannot be deleted is passed over.
unfoldable pub expunge_loop : List (Message × ℕ) → Bytes → M Server Bytes
expunge_loop [] response = return response
expunge_loop ((m, n) ∷ rest) response = value m.id >>= λ id.
    repo (Messages.hard_delete id) >>= λ deleted. elim deleted [
      | none ↦ expunge_loop rest response
      | some _ ↦ expunge_loop rest (response ++ Response.untagged (to_string n ++ codes " EXPUNGE"))
    ]

abbrev pub expunge_mailbox : ImapCommand → List Bytes → M Server Bytes
expunge_mailbox cmd (_ ∷ _) = return (Response.bad cmd.tag (codes "Invalid arguments"))
expunge_mailbox cmd [] = mailbox_id >>= λ id. repo (find_by_folder id) >>= λ messages.
    expunge_loop (reverse (numbered_deleted 1 messages)) [] >>= λ response.
    return (response ++ Response.ok cmd.tag (codes "Expunge completed"))

unfoldable pub handle_expunge : Handler
unfolding expunge_loop
handle_expunge cmd = when_selected cmd (expunge_mailbox cmd cmd.args)
