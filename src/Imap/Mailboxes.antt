-- ===== src/Imap/Mailboxes.antt =====
-- imap-server/src/ImapCommandDispatcher.cpp: the handlers for the mailboxes of a user, and `Split` of
-- imap-server/src/ImapUtils.cpp.
use ua_5308_smtp.Prelude.{
  ℕ, Bool, true, false, not, ◌&&◌, ◌||◌, ◌⊎◌, inl, inr, Option, none, some, List, [], ◌∷◌, ◌++◌,
  ◌==◌, Bytes, codes, equal, is_empty, if◌then◌else◌,
}
use ua_5308_smtp.Effects.{M, ◌>>=◌, return, value}
use ua_5308_smtp.Database.Rows.{Folder}
use ua_5308_smtp.Database.Engine.{Sql}
use ua_5308_smtp.Database.Queries.{rows_where}
use ua_5308_smtp.Database.FolderDal
use ua_5308_smtp.Database.Repository.Folders
use ua_5308_smtp.Imap.Command.{ImapCommand}
use ua_5308_smtp.Imap.Session.{Server, Handler, repo, last_error, user_id}
use ua_5308_smtp.Imap.Response

-- `Split`: `getline` gives no token behind the last delimiter.
abbrev pub join_front : ℕ → List Bytes → List Bytes
join_front c [] = (c ∷ []) ∷ []
join_front c (token ∷ tokens) = (c ∷ token) ∷ tokens

unfoldable pub split : ℕ → Bytes → List Bytes
split delim [] = []
split delim (c ∷ str) =
    let tokens = split delim str in if c == delim then [] ∷ tokens else join_front c tokens

-- '/'
abbrev pub slash : ℕ
slash = 47

-- The folders of the default page, and a line for each.
abbrev pub find_folders : ℕ → Sql (List Folder)
find_folders user = FolderDal.find_by_user user 50 0

abbrev pub lines_of : (Bytes → Bytes) → List Folder → Bytes
lines_of line [] = []
lines_of line (f ∷ fs) = line f.name ++ lines_of line fs

unfoldable pub handle_list : Handler
handle_list cmd = elim cmd.args [
  | reference ∷ pattern ∷ [] ↦
      if is_empty pattern
      then return (
          Response.list slash [] (codes "Noselect") ++ Response.ok cmd.tag (codes "List completed"))
      else user_id >>= λ user. repo (find_folders user) >>= λ folders. return (
          lines_of (λ name. Response.list slash name (codes "HasNoChildren")) folders
          ++ Response.ok cmd.tag (codes "List completed"))
  | _ ↦ return (Response.bad cmd.tag (codes "Invalid arguments number"))
]

unfoldable pub handle_lsub : Handler
handle_lsub cmd = elim cmd.args [
  | reference ∷ pattern ∷ [] ↦
      if is_empty pattern
      then return (
          Response.lsub slash [] (codes "Noselect") ++ Response.ok cmd.tag (codes "Lsub completed"))
      else user_id >>= λ user. repo (find_folders user) >>= λ folders. return (
          lines_of (λ name. Response.lsub slash name (codes "HasNoChildren"))
            (rows_where (λ (f : Folder). f.is_subscribed) folders)
          ++ Response.ok cmd.tag (codes "Lsub completed"))
  | _ ↦ return (Response.bad cmd.tag (codes "Invalid arguments number"))
]

-- The answer to an operation of the repository: its error behind `failed` otherwise.
abbrev pub answer : {A : Type 0} → Bytes → (Bytes → Bytes) → Option A → M Server Bytes
answer done failed none = last_error >>= λ text. return (failed text)
answer done failed (some a) = return done

abbrev same_number : Option ℕ → Option ℕ → Bool
same_number none none = true
same_number (some i) (some j) = i == j
same_number _ _ = false

abbrev same_bool : Bool → Bool → Bool
same_bool true b = b
same_bool false b = not b

-- `Folder::operator==`
unfoldable pub same_folder : Folder → Folder → Bool
same_folder f g =
    same_number f.id g.id
    && (f.user_id == g.user_id
        && (same_number f.parent_id g.parent_id
            && (equal f.name g.name
                && (f.next_uid == g.next_uid && same_bool f.is_subscribed g.is_subscribed))))

abbrev pub follows : Option Folder → Folder → Bool
follows none f = true
follows (some prev) f = same_folder f prev

-- The loop over the names but the last: the last folder that was found, or the name that breaks the
-- chain. `prev` is `none` before the first round.
unfoldable pub parent_chain : ℕ → Option Folder → List Bytes → M Server (Option Folder ⊎ Bytes)
unfolding same_folder
parent_chain user prev [] = return (inl prev)
parent_chain user prev (name ∷ []) = return (inl prev)
parent_chain user prev (name ∷ next ∷ names) = repo (FolderDal.find_by_name user name) >>= λ found.
    elim found [
      | none ↦ return (inr name)
      | some f ↦
          if follows prev f then parent_chain user (some f) (next ∷ names) else return (inr name)
    ]

abbrev pub new_folder : ℕ → Option ℕ → Bytes → Folder
new_folder user parent name = record {
  id = none;
  user_id = user;
  parent_id = parent;
  name = name;
  next_uid = 1;
  is_subscribed = false;
}

abbrev pub create_in : ImapCommand → Option ℕ → Bytes → M Server Bytes
create_in cmd parent name = user_id >>= λ user.
    repo (Folders.create_folder (new_folder user parent name))
    >>= answer (Response.ok cmd.tag (codes "Create completed"))
        (λ text. Response.no cmd.tag (codes "Create failed: " ++ text))

abbrev pub has_empty : List Bytes → Bool
has_empty [] = false
has_empty (part ∷ parts) = is_empty part || has_empty parts

abbrev pub id_of : Option Folder → Option ℕ
id_of none = none
id_of (some f) = f.id

abbrev pub create_below : ImapCommand → Bytes → Option Folder ⊎ Bytes → M Server Bytes
create_below cmd name (inr missing) =
    return (Response.bad cmd.tag (codes "Parent folder doesn`t exist: " ++ missing))
create_below cmd name (inl prev) = elim (id_of prev) [
  | none ↦ return (Response.bad cmd.tag (codes "Parent folder doesn`t exist"))
  | some id ↦ create_in cmd (some id) name
]

abbrev pub create_parts : ImapCommand → Bytes → List Bytes → M Server Bytes
create_parts cmd name (part ∷ []) = create_in cmd none name
create_parts cmd name parts =
    user_id >>= λ user. parent_chain user none parts >>= create_below cmd name

unfoldable pub handle_create : Handler
unfolding split parent_chain
handle_create cmd = elim cmd.args [
  | name ∷ [] ↦
      if is_empty name || has_empty (split slash name)
      then return (Response.no cmd.tag (codes "Create failed: invalid mailbox name"))
      else create_parts cmd name (split slash name)
  | _ ↦ return (Response.bad cmd.tag (codes "Invalid parameters number"))
]

unfoldable pub handle_delete : Handler
handle_delete cmd = elim cmd.args [
  | name ∷ [] ↦ user_id >>= λ user. repo (FolderDal.find_by_name user name) >>= λ found.
      elim found [
        | none ↦ return (Response.bad cmd.tag (codes "No such folder"))
        | some f ↦
            if equal f.name (codes "INBOX")
            then return (Response.no cmd.tag (codes "Can`t delete INBOX folder"))
            else value f.id >>= λ id.
                repo (Folders.delete_folder id)
                >>= answer (Response.ok cmd.tag (codes "Delete completed"))
                    (λ text. Response.bad cmd.tag (codes "Delete failed: " ++ text))
      ]
  | _ ↦ return (Response.bad cmd.tag (codes "Invalid parameters number"))
]

unfoldable pub handle_rename : Handler
handle_rename cmd = elim cmd.args [
  | name ∷ new_name ∷ [] ↦ user_id >>= λ user. repo (FolderDal.find_by_name user name) >>= λ found.
      elim found [
        | none ↦ return (Response.no cmd.tag (codes "No mailbox with specified name"))
        | some f ↦ value f.id >>= λ id.
            repo (Folders.rename_folder id new_name)
            >>= answer (Response.ok cmd.tag (codes "Rename completed"))
                (λ text. Response.bad cmd.tag (codes "Rename failed: " ++ text))
      ]
  | _ ↦ return (Response.bad cmd.tag (codes "Invalid arguments number"))
]

abbrev pub subscribe_found : ImapCommand → Bool → Bytes → Option ℕ → M Server Bytes
subscribe_found cmd subscribed done none =
    return (Response.bad cmd.tag (codes "Mailbox does not exist"))
subscribe_found cmd subscribed done (some id) =
    repo (Folders.set_subscribed id subscribed)
    >>= answer (Response.ok cmd.tag done) (λ text. Response.no cmd.tag text)

-- `HandleSubscribe` and `HandleUnsubscribe`
abbrev pub subscribe_as : Bool → Bytes → Handler
subscribe_as subscribed done cmd = elim cmd.args [
  | name ∷ [] ↦ user_id >>= λ user. repo (FolderDal.find_by_name user name) >>= λ found.
      subscribe_found cmd subscribed done (id_of found)
  | _ ↦ return (Response.bad cmd.tag (codes "Invalid arguments number"))
]

unfoldable pub handle_subscribe : Handler
handle_subscribe = subscribe_as true (codes "SUBSCRIBE completed")

unfoldable pub handle_unsubscribe : Handler
handle_unsubscribe = subscribe_as false (codes "UNSUBSCRIBE completed")
