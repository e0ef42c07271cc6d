-- ===== src/Database/Accounts.antt =====
-- The operations of database/Repository/UserRepository.cpp that keep the counters above the UIDs.
use ua_5308_smtp.Prelude.{
  ℕ, suc, Bool, ◌&&◌, refl, Option, none, some, List, [], ◌∷◌, ◌++◌, if◌then◌else◌, Bytes, is_empty,
}
use ua_5308_smtp.Effects.{return}
use ua_5308_smtp.Database.Rows.{User}
use ua_5308_smtp.Database.Engine.{Sql, statement}
use ua_5308_smtp.Database.Queries.{has_row, update_where, delete_where, is_id, c_str, c_str?}
use ua_5308_smtp.Database.UserDal.{has_username}
use ua_5308_smtp.Database.UserDal
use ua_5308_smtp.Database.Operations.{folder_insert-Keeps}
use ua_5308_smtp.Database.Cascade.{hard_delete-Keeps-users}
use ua_5308_smtp.Database.Keeping.{
  Keeps, return-Keeps, set_error-Keeps, change-Keeps, refused-Keeps, >>=-Keeps, if-Keeps,
  needs-Keeps, tries-Keeps, same-Counted,
}
use ua_5308_smtp.Database.Repository.Users

user_by_id-Keeps : (id : ℕ) → Keeps (UserDal.find_by_id id)
unfolding UserDal.find_by_id
user_by_id-Keeps id = record { keeps = λ db k. k }

user_by_name-Keeps : (username : Bytes) → Keeps (UserDal.find_by_username username)
unfolding UserDal.find_by_username
user_by_name-Keeps username = record { keeps = λ db k. k }

user_insert-Keeps : (user : User) → Keeps (UserDal.insert user)
unfolding UserDal.insert
user_insert-Keeps user =
    refused-Keeps (λ t. has_username user.username t.users)
      (λ t. (
        suc t.last_user,
        record t {
          users = t.users ++ record (UserDal.stored user) { id = some (suc t.last_user) } ∷ [];
          last_user = suc t.last_user;
        },
      ))
      (λ t k. same-Counted t _ k refl refl)

user_update-Keeps : (user : User) → Keeps (UserDal.update user)
unfolding UserDal.update
user_update-Keeps user = written user.id
  where
    write : Option ℕ → Sql (Option (Unit {0}))
    write o = elim o [
      | none ↦ return none
      | some id ↦ statement (λ t.
          if has_row (λ (u : User). is_id id u.id) t.users
            && has_username user.username (delete_where (λ (u : User). is_id id u.id) t.users)
          then none
          else UserDal.set_users t
              (update_where (λ (u : User). is_id id u.id) (λ u. UserDal.stored user) t.users))
    ]

    written : (o : Option ℕ) → Keeps (write o)
    written none = return-Keeps none
    written (some id) =
        refused-Keeps
          (λ t.
            has_row (λ (u : User). is_id id u.id) t.users
            && has_username user.username (delete_where (λ (u : User). is_id id u.id) t.users))
          (λ t. (
            tt,
            record t {
              users = update_where (λ (u : User). is_id id u.id) (λ u. UserDal.stored user) t.users;
            },
          ))
          (λ t k. same-Counted t _ k refl refl)

user_change-Keeps : (id : ℕ) (f : User → User) → Keeps (UserDal.update_by_id id f)
unfolding UserDal.update_by_id
user_change-Keeps id f =
    change-Keeps tt (λ t. record t { users = update_where (λ (u : User). is_id id u.id) f t.users })
      (λ t k. same-Counted t _ k refl refl)

or_errmsg-Keeps : {A : Type 0} (m : Sql (Option A)) → Keeps m → Keeps (Users.or_errmsg m)
or_errmsg-Keeps m h = tries-Keeps m _ h (λ a. return-Keeps (some a))

insert_folders-Keeps :
    (user_id : ℕ) (names : List Bytes) → Keeps (Users.insert_folders user_id names)
unfolding Users.insert_folders
insert_folders-Keeps user_id [] = return-Keeps (some tt)
insert_folders-Keeps user_id (name ∷ names) =
    tries-Keeps _ _ (folder_insert-Keeps (Users.default_folder user_id name))
      (λ _. insert_folders-Keeps user_id names)

module _ (pwhash : Bytes → Option Bytes) where
  pub register_user-Keeps :
      (user : User) (password : Bytes) → Keeps (Users.register_user pwhash user password)
  unfolding Users.register_user
  register_user-Keeps user password =
      >>=-Keeps (UserDal.find_by_username user.username) _ (user_by_name-Keeps user.username)
        (elim [
          | some _ ↦ set_error-Keeps _
          | none ↦
              if-Keeps (is_empty (Users.hash_password pwhash password)) _ _ (set_error-Keeps _) (
                tries-Keeps _ _
                  (user_insert-Keeps
                    (record user { password_hash = Users.hash_password pwhash password }))
                  (λ id.
                    >>=-Keeps (Users.insert_folders id Users.default_names) _
                      (insert_folders-Keeps id Users.default_names)
                      (elim [ none ↦ return-Keeps none | some _ ↦ return-Keeps (some id) ])))
        ])

  pub change_password-Keeps :
      (id : ℕ) (new_password : Bytes) → Keeps (Users.change_password pwhash id new_password)
  unfolding Users.change_password UserDal.update_password
  change_password-Keeps id new_password = needs-Keeps _ _ _ (user_by_id-Keeps id) (λ _.
      or_errmsg-Keeps _ (
        user_change-Keeps id
          (λ u. record u { password_hash = c_str (Users.hash_password pwhash new_password) })))

pub authorize-Keeps :
    (verify : Bytes → Bytes → Bool) (username password : Bytes)
    → Keeps (Users.authorize verify username password)
unfolding Users.authorize
authorize-Keeps verify username password = needs-Keeps _ _ _ (user_by_name-Keeps username) (λ user.
    if-Keeps (verify user.password_hash password) _ _ (return-Keeps (some tt)) (set_error-Keeps _))

pub update-Keeps : (user : User) → Keeps (Users.update user)
unfolding Users.update
update-Keeps user = or_errmsg-Keeps _ (user_update-Keeps user)

pub user_hard_delete-Keeps : (id : ℕ) → Keeps (Users.hard_delete id)
unfolding Users.hard_delete
user_hard_delete-Keeps id =
    needs-Keeps _ _ _ (user_by_id-Keeps id) (λ _. or_errmsg-Keeps _ (hard_delete-Keeps-users id))

pub update_profile-Keeps :
    (id : ℕ) (first_name last_name birthdate : Option Bytes)
    → Keeps (Users.update_profile id first_name last_name birthdate)
unfolding Users.update_profile UserDal.update_profile
update_profile-Keeps id first_name last_name birthdate = or_errmsg-Keeps _ (
    user_change-Keeps id (λ u. record u {
      first_name = c_str? first_name;
      last_name = c_str? last_name;
      birthdate = c_str? birthdate;
    }))

pub update_avatar-Keeps :
    (id : ℕ) (avatar_b64 : Option Bytes) → Keeps (Users.update_avatar id avatar_b64)
unfolding Users.update_avatar UserDal.update_avatar
update_avatar-Keeps id avatar_b64 =
    or_errmsg-Keeps _ (user_change-Keeps id (λ u. record u { avatar_b64 = c_str? avatar_b64 }))

pub find_by_username-Keeps : (username : Bytes) → Keeps (Users.find_by_username username)
unfolding Users.find_by_username
find_by_username-Keeps username = or_errmsg-Keeps _ (user_by_name-Keeps username)
