-- ===== src/Imap/Unauthenticated.antt =====
-- imap-server/src/ImapSession.cpp: what a client can do before LOGIN.
use ua_5308_smtp.Prelude.{
  Bool, true, false, ◌≡◌, refl, List, [], ◌∷◌, Bytes, All, Bool-cases, inl, inr,
}
use ua_5308_smtp.Effects.{returned}
use ua_5308_smtp.Imap.Command.{ImapCommand, ImapCommandType}
use ua_5308_smtp.Imap.Command
use ua_5308_smtp.Imap.Session.{Server, non_authenticated, requires_auth}
use ua_5308_smtp.Imap.Session
use ua_5308_smtp.Imap.Items.{Outside}
use ua_5308_smtp.Imap.Dispatch.{dispatch_to, dispatch, handle_parsed, is_unknown}

abbrev pub is_login : ImapCommandType → Bool
is_login Command.login = true
is_login _ = false

-- The server behind commands, each on a channel that may be secure.
abbrev pub after_commands :
    (Bytes → Bytes → Bool) → Outside → List (Bool × ImapCommand) → Server → Server
after_commands verify o [] w = w
after_commands verify o ((secure, cmd) ∷ cmds) w =
    after_commands verify o cmds (handle_parsed verify o secure cmd w).1

module _ (verify : Bytes → Bytes → Bool) (o : Outside) (w : Server) where
  starttls-answers :
      (cmd : ImapCommand) (args : List Bytes)
      → (response : Bytes) × (Session.handle_starttls (record cmd { args = args }) w
          ≡ (returned response, w))
  unfolding Session.handle_starttls
  starttls-answers cmd [] = (_, refl)
  starttls-answers cmd (arg ∷ args) = (_, refl)

  open-answers :
      (type : ImapCommandType) (cmd : ImapCommand)
      → requires_auth type ≡ false
      → is_login type ≡ false
      → (response : Bytes) × (dispatch_to verify o type cmd w ≡ (returned response, w))
  unfolding dispatch_to requires_auth Session.handle_logout Session.handle_capability
      Session.handle_noop
  open-answers Command.login cmd a l = cc
  open-answers Command.logout cmd a l = (_, refl)
  open-answers Command.capability cmd a l = (_, refl)
  open-answers Command.noop cmd a l = (_, refl)
  open-answers Command.starttls cmd a l = starttls-answers cmd cmd.args
  open-answers Command.select cmd a l = cc
  open-answers Command.list cmd a l = cc
  open-answers Command.lsub cmd a l = cc
  open-answers Command.status cmd a l = cc
  open-answers Command.fetch cmd a l = cc
  open-answers Command.store cmd a l = cc
  open-answers Command.create cmd a l = cc
  open-answers Command.delete cmd a l = cc
  open-answers Command.rename cmd a l = cc
  open-answers Command.copy cmd a l = cc
  open-answers Command.expunge cmd a l = cc
  open-answers Command.uid_fetch cmd a l = cc
  open-answers Command.uid_store cmd a l = cc
  open-answers Command.uid_copy cmd a l = cc
  open-answers Command.subscribe cmd a l = cc
  open-answers Command.unsubscribe cmd a l = cc
  open-answers Command.close cmd a l = cc
  open-answers Command.check cmd a l = cc
  open-answers Command.unknown cmd a l = cc

  handle_parsed-unchanged :
      (secure : Bool) (cmd : ImapCommand)
      → w.dispatcher.state ≡ non_authenticated
      → is_login cmd.type ≡ false
      → (handle_parsed verify o secure cmd w).1 ≡ w
  unfolding handle_parsed dispatch
  handle_parsed-unchanged secure cmd s l = elim (Bool-cases (is_unknown cmd.type)) [
    | inl unknown ↦ rw (unknown, handle_parsed) refl
    | inr known ↦ elim (Bool-cases (requires_auth cmd.type)) [
      | inl shut ↦ rw (known, shut, s, handle_parsed) refl
      | inr opened ↦
          let (response, answered) = open-answers cmd.type cmd opened l in
          rw (known, opened, answered, handle_parsed) refl
    ]
  ]

-- In a session that is not authenticated, any commands but LOGIN leave the session and the database as
-- they are.
pub after_commands-unchanged :
    (verify : Bytes → Bytes → Bool) (o : Outside) (cmds : List (Bool × ImapCommand)) (w : Server)
    → w.dispatcher.state ≡ non_authenticated
    → All (λ c. is_login c.1.type ≡ false) cmds
    → after_commands verify o cmds w ≡ w
after_commands-unchanged verify o [] w s h = refl
after_commands-unchanged verify o ((secure, cmd) ∷ cmds) w s h =
    rw (handle_parsed-unchanged verify o w secure cmd s h.0)
      (after_commands-unchanged verify o cmds w s h.1)
