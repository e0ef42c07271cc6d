-- ===== src/Database/FolderDal.antt =====
-- database/DAL/FolderDAL.cpp.
use ua_5308_smtp.Prelude.{
  ℕ, zero, suc, ◌+◌, Bool, true, false, not, ◌&&◌, Option, none, some, List, [], ◌∷◌, ◌++◌, ◌==◌,
  Bytes, equal, if◌then◌else◌, length,
}
use ua_5308_smtp.Effects.{return}
use ua_5308_smtp.Database.Rows.{User, Folder, Message}
use ua_5308_smtp.Database.Engine.{Tables, Sql, select, statement}
use ua_5308_smtp.Database.Queries.{
  find_row, rows_where, has_row, delete_where, update_where, order_by, page, text_before, is_id,
  c_str,
}

unfoldable pub find_by_id : ℕ → Sql (Option Folder)
unfolding select
find_by_id id = select none (λ t. find_row (λ (f : Folder). is_id id f.id) t.folders)

abbrev by_name : List Folder → List Folder
by_name = order_by (λ f g. text_before f.name g.name)

unfoldable pub find_by_user : ℕ → ℕ → ℕ → Sql (List Folder)
unfolding select order_by
find_by_user user_id limit offset =
    select [] (λ t. page limit offset (by_name (rows_where (λ f. f.user_id == user_id) t.folders)))

unfoldable pub find_by_name : ℕ → Bytes → Sql (Option Folder)
unfolding select
find_by_name user_id name =
    select none
      (λ t. find_row (λ (f : Folder). f.user_id == user_id && equal f.name (c_str name)) t.folders)

unfoldable pub find_by_parent : ℕ → ℕ → ℕ → Sql (List Folder)
unfolding select order_by
find_by_parent parent_id limit offset =
    select []
      (λ t. page limit offset (by_name (rows_where (λ f. is_id parent_id f.parent_id) t.folders)))

-- The foreign keys of a folder.
abbrev pub has_user : Tables → ℕ → Bool
has_user t user_id = has_row (λ (u : User). is_id user_id u.id) t.users

abbrev pub has_folder : Tables → ℕ → Bool
has_folder t folder_id = has_row (λ (f : Folder). is_id folder_id f.id) t.folders

abbrev pub refers : Tables → Folder → Bool
refers t f =
    has_user t f.user_id && elim f.parent_id [ none ↦ true | some parent ↦ has_folder t parent ]

-- The row that is written.
abbrev pub stored : Folder → Folder
stored f = record f { name = c_str f.name }

-- The new id.
unfoldable pub insert : Folder → Sql (Option ℕ)
unfolding statement
insert folder = statement (λ t.
    if refers t folder
    then some (
      suc t.last_folder,
      record t {
        folders = t.folders ++ record (stored folder) { id = some (suc t.last_folder) } ∷ [];
        last_folder = suc t.last_folder;
      },
    )
    else none)

abbrev pub set_folders : Tables → List Folder → Option (Unit {0} × Tables)
set_folders t folders = some (tt, record t { folders = folders })

unfoldable pub update : Folder → Sql (Option (Unit {0}))
unfolding statement
update folder = elim folder.id [
  | none ↦ return none
  | some id ↦ statement (λ t.
      if has_folder t id && not (refers t folder)
      then none
      else set_folders t
          (update_where (λ (f : Folder). is_id id f.id) (λ f. stored folder) t.folders))
]

unfoldable pub increment_next_uid : ℕ → Sql (Option (Unit {0}))
unfolding statement
increment_next_uid id = statement (λ t. set_folders t (
    update_where (λ (f : Folder). is_id id f.id) (λ f. record f { next_uid = f.next_uid + 1 })
      t.folders))

unfoldable pub set_subscribed : ℕ → Bool → Sql (Option (Unit {0}))
unfolding statement
set_subscribed id subscribed = statement (λ t. set_folders t (
    update_where (λ (f : Folder). is_id id f.id) (λ f. record f { is_subscribed = subscribed })
      t.folders))

-- ON DELETE CASCADE: the folders below those of a list, a generation at a time.
abbrev pub is_gone : List Folder → Option ℕ → Bool
is_gone gone none = false
is_gone gone (some id) = has_row (λ (f : Folder). is_id id f.id) gone

unfoldable pub cascade : ℕ → List Folder → List Folder → List Folder × List Folder
cascade zero gone folders = (gone, folders)
cascade (suc fuel) gone folders =
    cascade fuel (gone ++ rows_where (λ f. is_gone gone f.parent_id) folders)
      (delete_where (λ f. is_gone gone f.parent_id) folders)

abbrev pub delete_messages : (Message → Bool) → Tables → Tables
delete_messages p t = record t {
  messages = delete_where p t.messages;
  recipients =
      delete_where (λ r. has_row (λ m. p m && is_id r.message_id m.id) t.messages) t.recipients;
}

-- DELETE: the folders below it go with it, and the messages of all of them. Each generation but the
-- last takes a folder, so that the number of folders is enough fuel.
unfoldable pub hard_delete : ℕ → Sql (Option (Unit {0}))
unfolding statement cascade
hard_delete id = statement (λ t.
    let gone =
      cascade (length t.folders) (rows_where (λ f. is_id id f.id) t.folders)
        (delete_where (λ f. is_id id f.id) t.folders) in
    some (
      tt,
      delete_messages (λ m. is_gone gone.0 (some m.folder_id)) (record t { folders = gone.1 }),
    ))
