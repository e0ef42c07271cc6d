-- ===== src/Database/UserDal.antt =====
-- database/DAL/UserDAL.cpp.
use ua_5308_smtp.Prelude.{
  ℕ, suc, Bool, false, ◌&&◌, ◌||◌, Option, none, some, List, [], ◌∷◌, ◌++◌, ◌==◌, Bytes, equal,
  if◌then◌else◌, map, length,
}
use ua_5308_smtp.Prelude.Int.{ℤ, pos, negsuc}
use ua_5308_smtp.Effects.{return}
use ua_5308_smtp.Database.Rows.{User}
use ua_5308_smtp.Database.Engine.{Tables, Sql, select, statement}
use ua_5308_smtp.Database.Queries.{
  find_row, rows_where, has_row, delete_where, update_where, order_by, page, text_before, is_id,
  c_str, c_str?,
}
use ua_5308_smtp.Database.FolderDal.{delete_messages, is_gone, cascade}

unfoldable pub find_by_id : ℕ → Sql (Option User)
unfolding select
find_by_id id = select none (λ t. find_row (λ (u : User). is_id id u.id) t.users)

-- `USER_SELECT_NO_AVATAR`
abbrev without_avatar : User → User
without_avatar u = record u { avatar_b64 = none }

abbrev first_without_avatar : Option User → Option User
first_without_avatar none = none
first_without_avatar (some u) = some (without_avatar u)

unfoldable pub find_by_username : Bytes → Sql (Option User)
unfolding select
find_by_username username =
    select none (λ t.
      first_without_avatar (find_row (λ (u : User). equal u.username (c_str username)) t.users))

unfoldable pub find_all : ℕ → ℕ → Sql (List User)
unfolding select order_by
find_all limit offset = select [] (λ t.
    page limit offset
      (order_by (λ u v. text_before u.username v.username) (map without_avatar t.users)))

abbrev pub has_username : Bytes → List User → Bool
has_username username = has_row (λ (u : User). equal u.username (c_str username))

unfoldable pub exists_by_username : Bytes → Sql Bool
unfolding select
exists_by_username username = select false (λ t. has_username username t.users)

unfoldable pub count : Sql ℤ
unfolding select
count = select (negsuc 0) (λ t. pos (length t.users))

unfoldable pub get_avatar : ℕ → Sql (Option Bytes)
unfolding select
get_avatar id = select none (λ t. elim (find_row (λ (u : User). is_id id u.id) t.users) [
  | none ↦ none
  | some u ↦ u.avatar_b64
])

-- The row that is written.
abbrev pub stored : User → User
stored u = record u {
  username = c_str u.username;
  password_hash = c_str u.password_hash;
  first_name = c_str? u.first_name;
  last_name = c_str? u.last_name;
  birthdate = c_str? u.birthdate;
  avatar_b64 = c_str? u.avatar_b64;
}

-- The new id. A user name stands in the table once.
unfoldable pub insert : User → Sql (Option ℕ)
unfolding statement
insert user = statement (λ t.
    if has_username user.username t.users
    then none
    else some (
      suc t.last_user,
      record t {
        users = t.users ++ record (stored user) { id = some (suc t.last_user) } ∷ [];
        last_user = suc t.last_user;
      },
    ))

abbrev pub set_users : Tables → List User → Option (Unit {0} × Tables)
set_users t users = some (tt, record t { users = users })

unfoldable pub update : User → Sql (Option (Unit {0}))
unfolding statement
update user = elim user.id [
  | none ↦ return none
  | some id ↦ statement (λ t.
      if has_row (λ (u : User). is_id id u.id) t.users
        && has_username user.username (delete_where (λ (u : User). is_id id u.id) t.users)
      then none
      else set_users t (update_where (λ (u : User). is_id id u.id) (λ u. stored user) t.users))
]

-- An UPDATE by id of columns that no constraint is about.
unfoldable pub update_by_id : ℕ → (User → User) → Sql (Option (Unit {0}))
unfolding statement
update_by_id id change =
    statement (λ t. set_users t (update_where (λ (u : User). is_id id u.id) change t.users))

unfoldable pub update_password : ℕ → Bytes → Sql (Option (Unit {0}))
unfolding update_by_id
update_password id new_password_hash =
    update_by_id id (λ u. record u { password_hash = c_str new_password_hash })

unfoldable pub update_profile :
    ℕ → Option Bytes → Option Bytes → Option Bytes → Sql (Option (Unit {0}))
unfolding update_by_id
update_profile id first_name last_name birthdate = update_by_id id (λ u. record u {
  first_name = c_str? first_name;
  last_name = c_str? last_name;
  birthdate = c_str? birthdate;
})

unfoldable pub update_avatar : ℕ → Option Bytes → Sql (Option (Unit {0}))
unfolding update_by_id
update_avatar id avatar_b64 = update_by_id id (λ u. record u { avatar_b64 = c_str? avatar_b64 })

-- DELETE: the folders and the messages of the user go with it, the folders below those, whoever has
-- them, and the messages in all these folders.
unfoldable pub hard_delete : ℕ → Sql (Option (Unit {0}))
unfolding statement cascade
hard_delete id = statement (λ t.
    let gone =
      cascade (length t.folders) (rows_where (λ f. f.user_id == id) t.folders)
        (delete_where (λ f. f.user_id == id) t.folders) in
    some (
      tt,
      delete_messages (λ m. m.user_id == id || is_gone gone.0 (some m.folder_id))
          (record t { users = delete_where (λ u. is_id id u.id) t.users; folders = gone.1 }),
    ))
