-- ===== src/Imap/Dispatch.antt =====
-- imap-server/src/ImapCommandDispatcher.cpp: `Dispatch` with its table of handlers, and
-- imap-server/src/ImapSession.cpp: `HandleCommand`. The thread pool and the strand run its parts one
-- after the other.
use ua_5308_smtp.Prelude.{
  ℕ, Bool, true, false, ◌&&◌, Option, none, some, Bytes, codes, ◌++◌, if◌then◌else◌,
}
use ua_5308_smtp.Effects.{M, ◌>>=◌, return, catching}
use ua_5308_smtp.Imap.Command.{ImapCommand, ImapCommandType}
use ua_5308_smtp.Imap.Command
use ua_5308_smtp.Imap.Parser.{parse}
use ua_5308_smtp.Imap.Session.{Server, SessionState, gets, requires_auth}
use ua_5308_smtp.Imap.Session
use ua_5308_smtp.Imap.Status
use ua_5308_smtp.Imap.Mailboxes
use ua_5308_smtp.Imap.Store
use ua_5308_smtp.Imap.Copy
use ua_5308_smtp.Imap.Fetch
use ua_5308_smtp.Imap.Items.{Outside}
use ua_5308_smtp.Imap.Response

-- What the session does behind the reply: read a command, shake hands, or nothing.
pub data After : Type 0 where
  read_command upgrade_to_tls ends : After

abbrev pub after_reply : Bool → ImapCommandType → Bytes → Bytes → Bytes × After
after_reply secure Command.starttls tag response =
    if secure
    then (Response.bad tag (codes "TLS already active"), read_command)
    else (response, upgrade_to_tls)
after_reply secure Command.logout tag response = (response, ends)
after_reply secure _ tag response = (response, read_command)

abbrev pub is_unknown : ImapCommandType → Bool
is_unknown Command.unknown = true
is_unknown _ = false

abbrev pub is_non_authenticated : SessionState → Bool
is_non_authenticated Session.non_authenticated = true
is_non_authenticated _ = false

module _ (verify : Bytes → Bytes → Bool) (o : Outside) where
  -- The handler in `m_handlers`, on a command of its type. `verify` is `crypto_pwhash_str_verify`.
  unfoldable pub dispatch_to : ImapCommandType → ImapCommand → M Server Bytes
  dispatch_to Command.login cmd = Session.handle_login verify cmd
  dispatch_to Command.logout cmd = Session.handle_logout cmd
  dispatch_to Command.capability cmd = Session.handle_capability cmd
  dispatch_to Command.noop cmd = Session.handle_noop cmd
  dispatch_to Command.select cmd = Session.handle_select cmd
  dispatch_to Command.list cmd = Mailboxes.handle_list cmd
  dispatch_to Command.lsub cmd = Mailboxes.handle_lsub cmd
  dispatch_to Command.status cmd = Status.handle_status cmd
  dispatch_to Command.fetch cmd = Fetch.handle_fetch o cmd
  dispatch_to Command.store cmd = Store.handle_store o.machine cmd
  dispatch_to Command.create cmd = Mailboxes.handle_create cmd
  dispatch_to Command.delete cmd = Mailboxes.handle_delete cmd
  dispatch_to Command.rename cmd = Mailboxes.handle_rename cmd
  dispatch_to Command.copy cmd = Copy.handle_copy o.machine cmd
  dispatch_to Command.expunge cmd = Session.handle_expunge cmd
  dispatch_to Command.uid_fetch cmd = Fetch.handle_uid_fetch o cmd
  dispatch_to Command.uid_store cmd = Store.handle_uid_store o.machine cmd
  dispatch_to Command.uid_copy cmd = Copy.handle_uid_copy o.machine cmd
  dispatch_to Command.subscribe cmd = Mailboxes.handle_subscribe cmd
  dispatch_to Command.unsubscribe cmd = Mailboxes.handle_unsubscribe cmd
  dispatch_to Command.close cmd = Session.handle_close cmd
  dispatch_to Command.check cmd = Session.handle_check cmd
  dispatch_to Command.starttls cmd = Session.handle_starttls cmd
  dispatch_to Command.unknown cmd = return (Response.bad cmd.tag (codes "Command not implemented"))

  -- `Dispatch`
  unfoldable pub dispatch : ImapCommand → M Server Bytes
  unfolding dispatch_to
  dispatch cmd = dispatch_to cmd.type cmd

  -- `HandleCommand` behind the parser, where the channel may be secure.
  unfoldable pub handle_parsed : Bool → ImapCommand → M Server (Bytes × After)
  unfolding dispatch requires_auth
  handle_parsed secure cmd = gets (λ d. d.state) >>= λ state.
      if is_unknown cmd.type
      then return (Response.bad cmd.tag (codes "Command not recognized"), read_command)
      else if requires_auth cmd.type && is_non_authenticated state
      then return (Response.bad cmd.tag (codes "Not authenticated"), read_command)
      else (catching (dispatch cmd) (return (codes "BAD Internal server error" ++ Response.crlf))
          >>= λ response. return (after_reply secure cmd.type cmd.tag response))

  -- `HandleCommand`; `none` is a line whose arguments the parser does not end on with the fuel.
  unfoldable pub handle_command : ℕ → Bool → Bytes → Option (M Server (Bytes × After))
  unfolding handle_parsed parse
  handle_command fuel secure line = elim (parse fuel line) [
    | none ↦ none
    | some cmd ↦ some (handle_parsed secure cmd)
  ]
