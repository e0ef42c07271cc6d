-- ===== src/Imap/Command.antt =====
-- proto/ImapCommand.hpp, and the tables of command names in imap-server/src/ImapUtils.cpp.
use ua_5308_smtp.Prelude.{List, [], ◌∷◌, Bytes, codes, equal, to_upper, if◌then◌else◌}

pub data ImapCommandType : Type 0 where
  login logout capability noop select list lsub status fetch store create delete : ImapCommandType
  rename copy expunge uid_fetch uid_store uid_copy subscribe unsubscribe : ImapCommandType
  close check unknown starttls : ImapCommandType

pub record ImapCommand : Type 0 where
  pub tag : Bytes
  pub type : ImapCommandType
  pub args : List Bytes

-- `commandMap` of `StringToCommandType`
abbrev command_map : List (Bytes × ImapCommandType)
command_map =
    (codes "LOGIN", login)
    ∷ (codes "LOGOUT", logout)
    ∷ (codes "CAPABILITY", capability)
    ∷ (codes "NOOP", noop)
    ∷ (codes "SELECT", select)
    ∷ (codes "LIST", list)
    ∷ (codes "LSUB", lsub)
    ∷ (codes "STATUS", status)
    ∷ (codes "FETCH", fetch)
    ∷ (codes "STORE", store)
    ∷ (codes "CREATE", create)
    ∷ (codes "DELETE", delete)
    ∷ (codes "RENAME", rename)
    ∷ (codes "COPY", copy)
    ∷ (codes "EXPUNGE", expunge)
    ∷ (codes "UID", uid_fetch)
    ∷ (codes "SUBSCRIBE", subscribe)
    ∷ (codes "UNSUBSCRIBE", unsubscribe)
    ∷ (codes "CLOSE", close)
    ∷ (codes "CHECK", check)
    ∷ (codes "STARTTLS", starttls)
    ∷ []

abbrev find_command : Bytes → List (Bytes × ImapCommandType) → ImapCommandType
find_command name [] = unknown
find_command name ((key, type) ∷ entries) =
    let rest = find_command name entries in if equal name key then type else rest

-- `StringToCommandType`
unfoldable pub string_to_command_type : Bytes → ImapCommandType
string_to_command_type cmd = find_command (to_upper cmd) command_map

-- `CommandTypeToString`
unfoldable pub command_type_to_string : ImapCommandType → Bytes
command_type_to_string login = codes "LOGIN"
command_type_to_string logout = codes "LOGOUT"
command_type_to_string capability = codes "CAPABILITY"
command_type_to_string noop = codes "NOOP"
command_type_to_string select = codes "SELECT"
command_type_to_string list = codes "LIST"
command_type_to_string lsub = codes "LSUB"
command_type_to_string status = codes "STATUS"
command_type_to_string fetch = codes "FETCH"
command_type_to_string store = codes "STORE"
command_type_to_string create = codes "CREATE"
command_type_to_string delete = codes "DELETE"
command_type_to_string rename = codes "RENAME"
command_type_to_string copy = codes "COPY"
command_type_to_string expunge = codes "EXPUNGE"
command_type_to_string uid_fetch = codes "UID FETCH"
command_type_to_string uid_store = codes "UID STORE"
command_type_to_string uid_copy = codes "UID COPY"
command_type_to_string subscribe = codes "SUBSCRIBE"
command_type_to_string unsubscribe = codes "UNSUBSCRIBE"
command_type_to_string close = codes "CLOSE"
command_type_to_string check = codes "CHECK"
command_type_to_string starttls = codes "STARTTLS"
command_type_to_string unknown = codes "UNKNOWN"
