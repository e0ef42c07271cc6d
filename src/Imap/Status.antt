-- ===== src/Imap/Status.antt =====
-- imap-server/src/ImapCommandDispatcher.cpp: the handler of STATUS, with `SplitArgs` and
-- `TrimParentheses` of imap-server/src/ImapUtils.cpp.
use ua_5308_smtp.Prelude.{
  ℕ, Bool, false, not, ◌&&◌, ◌||◌, Option, none, some, List, [], ◌∷◌, ◌++◌, ◌==◌, leb, Bytes, codes,
  equal, length, back_is, pop_back, to_string, if◌then◌else◌,
}
use ua_5308_smtp.Effects.{M, ◌>>=◌, return, value}
use ua_5308_smtp.Database.Rows.{Folder, Message}
use ua_5308_smtp.Database.Queries.{rows_where}
use ua_5308_smtp.Database.FolderDal
use ua_5308_smtp.Imap.Command.{ImapCommand}
use ua_5308_smtp.Imap.Session.{Server, Handler, repo, user_id, find_by_folder}
use ua_5308_smtp.Imap.Mailboxes.{join_front}
use ua_5308_smtp.Imap.Response

-- `isspace` of the C locale
abbrev pub is_space : ℕ → Bool
is_space c = c == 32 || (leb 9 c && leb c 13)

-- '(' and ')'
unfoldable pub trim_parentheses : Bytes → Bytes
trim_parentheses [] = []
trim_parentheses (c ∷ s) = if c == 40 && back_is 41 s then pop_back s else c ∷ s

abbrev starts_word : Bytes → Bool
starts_word [] = false
starts_word (c ∷ str) = not (is_space c)

-- `SplitArgs`: the words of a text.
unfoldable pub split_args : Bytes → List Bytes
split_args [] = []
split_args (c ∷ str) =
    let args = split_args str in
    if is_space c then args else if starts_word str then join_front c args else (c ∷ []) ∷ args

-- What a data item adds to the answer; `none` for one that is not known.
unfoldable pub status_item : ℕ → ℕ → List Message → Bytes → Option Bytes
status_item id next_uid messages req =
    if equal req (codes "MESSAGES")
    then some (codes "MESSAGES " ++ (to_string (length messages) ++ codes " "))
    else if equal req (codes "RECENT")
    then some (
        codes "RECENT "
        ++ (to_string (length (rows_where (λ (m : Message). m.is_recent) messages)) ++ codes " "))
    else if equal req (codes "UIDNEXT")
    then some (codes "UIDNEXT " ++ (to_string next_uid ++ codes " "))
    else if equal req (codes "UIDVALIDITY")
    then some (codes "UIDVALIDITY " ++ (to_string id ++ codes " "))
    else if equal req (codes "UNSEEN")
    then some (
        codes "UNSEEN "
        ++ (to_string (length (rows_where (λ (m : Message). not m.is_seen) messages)) ++ codes " "))
    else none

abbrev add_item : Option Bytes → Option Bytes → Option Bytes
add_item none rest = rest
add_item (some item) none = some item
add_item (some item) (some rest) = some (item ++ rest)

-- The loop over the items: `none` where none of them is known.
unfoldable pub status_items : ℕ → ℕ → List Message → List Bytes → Option Bytes
unfolding status_item
status_items id next_uid messages [] = none
status_items id next_uid messages (req ∷ reqs) =
    add_item (status_item id next_uid messages req) (status_items id next_uid messages reqs)

-- `pop_back` of the space behind the last item.
abbrev pop_space : Bytes → Bytes
pop_space s = if back_is 32 s then pop_back s else s

abbrev pub status_answer : ImapCommand → Bytes → Option Bytes → Bytes
status_answer cmd name none = Response.bad cmd.tag (codes "Invalid status data items")
status_answer cmd name (some items) =
    Response.status name (pop_space items) ++ Response.ok cmd.tag (codes "Status completed")

abbrev pub show : ImapCommand → Bytes → Bytes → Folder → M Server Bytes
show cmd name items folder = value folder.id >>= λ id. repo (find_by_folder id) >>= λ messages.
    return (
      status_answer cmd name
        (status_items id folder.next_uid messages (split_args (trim_parentheses items))))

unfoldable pub handle_status : Handler
handle_status cmd = elim cmd.args [
  | name ∷ items ∷ [] ↦ user_id >>= λ user. repo (FolderDal.find_by_name user name) >>= λ found.
      elim found [
        | none ↦ return (Response.bad cmd.tag (codes "Mailbox not found"))
        | some folder ↦ show cmd name items folder
      ]
  | _ ↦ return (Response.bad cmd.tag (codes "Invalid arguments number"))
]
