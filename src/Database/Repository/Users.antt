-- ===== src/Database/Repository/Users.antt =====
-- database/Repository/UserRepository.cpp. `crypto_pwhash_str` of libsodium, which draws a salt, is
-- `pwhash`: `none` where it fails. `crypto_pwhash_str_verify` is `verify`, true where it answers 0.
use ua_5308_smtp.Prelude.{
  ℕ, Bool, true, Option, none, some, List, [], ◌∷◌, Bytes, codes, is_empty, if◌then◌else◌,
}
use ua_5308_smtp.Effects.{returned, ◌>>=◌, return}
use ua_5308_smtp.Database.Rows.{User, Folder}
use ua_5308_smtp.Database.Engine.{Sql, needs, tries, set_error}
use ua_5308_smtp.Database.FolderDal
use ua_5308_smtp.Database.UserDal

-- The error of the data access is kept for a user that is not found.
abbrev pub or_errmsg : {A : Type 0} → Sql (Option A) → Sql (Option A)
or_errmsg m = tries m (λ a. return (some a))

unfoldable pub find_by_id : ℕ → Sql (Option User)
find_by_id id = or_errmsg (UserDal.find_by_id id)

unfoldable pub find_by_username : Bytes → Sql (Option User)
find_by_username username = or_errmsg (UserDal.find_by_username username)

unfoldable pub find_all : ℕ → ℕ → Sql (List User)
find_all limit offset = UserDal.find_all limit offset >>= λ users.
    λ db. (returned users, record db { last_error = db.errmsg })

abbrev pub default_folder : ℕ → Bytes → Folder
default_folder user_id name = record {
  id = none;
  user_id = user_id;
  parent_id = none;
  name = name;
  next_uid = 1;
  is_subscribed = true;
}

unfoldable pub insert_folders : ℕ → List Bytes → Sql (Option (Unit {0}))
insert_folders user_id [] = return (some tt)
insert_folders user_id (name ∷ names) =
    tries (FolderDal.insert (default_folder user_id name)) (λ _. insert_folders user_id names)

abbrev pub default_names : List Bytes
default_names = codes "INBOX" ∷ codes "Sent" ∷ codes "Drafts" ∷ codes "Trash" ∷ codes "Spam" ∷ []

module _ (pwhash : Bytes → Option Bytes) where
  unfoldable pub hash_password : Bytes → Bytes
  hash_password password = elim (pwhash password) [ none ↦ [] | some hash ↦ hash ]

  -- The new id.
  unfoldable pub register_user : User → Bytes → Sql (Option ℕ)
  unfolding hash_password insert_folders
  register_user user password = UserDal.find_by_username user.username >>= λ existing.
      elim existing [
        | some _ ↦ set_error (codes "registerUser: username already exists")
        | none ↦
            if is_empty (hash_password password)
            then set_error (codes "registerUser: password hashing failed")
            else tries (UserDal.insert (record user { password_hash = hash_password password }))
                (λ id. insert_folders id default_names >>= λ all. elim all [
                  | none ↦ return none
                  | some _ ↦ return (some id)
                ])
      ]

  unfoldable pub change_password : ℕ → Bytes → Sql (Option (Unit {0}))
  unfolding hash_password
  change_password id new_password =
      needs (codes "changePassword: user not found") (UserDal.find_by_id id)
        (λ _. or_errmsg (UserDal.update_password id (hash_password new_password)))

module _ (verify : Bytes → Bytes → Bool) where
  unfoldable pub authorize : Bytes → Bytes → Sql (Option (Unit {0}))
  authorize username password =
      needs (codes "authorize: user not found") (UserDal.find_by_username username) (λ user.
        if verify user.password_hash password
        then return (some tt)
        else set_error (codes "authorize: invalid credentials"))

unfoldable pub update : User → Sql (Option (Unit {0}))
update user = or_errmsg (UserDal.update user)

unfoldable pub hard_delete : ℕ → Sql (Option (Unit {0}))
hard_delete id =
    needs (codes "hardDelete: user not found") (UserDal.find_by_id id)
      (λ _. or_errmsg (UserDal.hard_delete id))

unfoldable pub update_profile :
    ℕ → Option Bytes → Option Bytes → Option Bytes → Sql (Option (Unit {0}))
update_profile id first_name last_name birthdate =
    or_errmsg (UserDal.update_profile id first_name last_name birthdate)

unfoldable pub update_avatar : ℕ → Option Bytes → Sql (Option (Unit {0}))
update_avatar id avatar_b64 = or_errmsg (UserDal.update_avatar id avatar_b64)

unfoldable pub get_avatar : ℕ → Sql (Option Bytes)
get_avatar = UserDal.get_avatar
