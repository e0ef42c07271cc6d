-- ===== src/Imap/Access.antt =====
-- imap-server/src/ImapCommandDispatcher.cpp: who gets in, and what stays.
use ua_5308_smtp.Prelude.{
  ◌⊎◌, inl, inr, ◌≢◌, ℕ, Bool, true, ◌&&◌, ◌≡◌, refl, subst, none, some, List, [], ◌∷◌, Bytes,
  codes, equal, Bool-cases, Option-cases, arith, ◌==◌,
}
use ua_5308_smtp.Effects.{returned}
use ua_5308_smtp.Database.Rows.{User, Folder}
use ua_5308_smtp.Database.Engine.{Tables, Db, committed, is_fault, select}
use ua_5308_smtp.Database.Queries.{find_row, c_str}
use ua_5308_smtp.Database.Selection.{find_row-holds}
use ua_5308_smtp.Database.Rules.{committed-closed}
use ua_5308_smtp.Database.UserDal
use ua_5308_smtp.Database.FolderDal
use ua_5308_smtp.Database.Repository.Users
use ua_5308_smtp.Imap.Command.{ImapCommand}
use ua_5308_smtp.Imap.Session.{non_authenticated, Server, handle_login}
use ua_5308_smtp.Imap.Mailboxes.{handle_delete}

-- The password is that of the first user whose name is the given one up to its first NUL.
unfoldable pub Verified : (Bytes → Bytes → Bool) → Bytes → Bytes → Tables → Type 0
Verified verify username password t =
    (user : User) × ((find_row (λ (u : User). equal u.username (c_str username)) t.users
        ≡ some user)
      × (verify user.password_hash password ≡ true))

authorize-cases :
    (verify : Bytes → Bytes → Bool) (username password : Bytes) (db : Db)
    → ((Users.authorize verify username password db).0 ≡ returned none)
      ⊎ Verified verify username password (committed db)
unfolding Users.authorize UserDal.find_by_username select Verified
authorize-cases verify username password db = elim (Bool-cases (is_fault db.faults)) [
  | inl f ↦ inl (rw f refl)
  | inr f ↦
      elim (Option-cases
        (find_row (λ (u : User). equal u.username (c_str username)) (committed db).users)) [
          | inl n ↦ inl (rw (f, n) refl)
          | inr (user, n) ↦ elim (Bool-cases (verify user.password_hash password)) [
            | inl v ↦ inr (user, (n, v))
            | inr v ↦ inl (rw (f, n, v) refl)
          ]
        ]
]

-- The command gives a user name and a password that are verified.
abbrev pub IsLogin : (Bytes → Bytes → Bool) → List Bytes → Tables → Type 0
IsLogin verify args t =
    (username : Bytes) × (password : Bytes) × ((args ≡ username ∷ password ∷ [])
      × Verified verify username password t)

-- LOGIN leaves the state NonAuthenticated only with two arguments: a user name that is, up to its first
-- NUL, in the table, and a password that libsodium verifies against the hash of that user.
pub handle_login-Verified :
    (verify : Bytes → Bytes → Bool) (cmd : ImapCommand) (w : Server)
    → w.db.saved ≡ none
    → w.dispatcher.state ≡ non_authenticated
    → (handle_login verify cmd w).1.dispatcher.state ≢ non_authenticated
    → IsLogin verify cmd.args w.db.live
unfolding handle_login
handle_login-Verified verify cmd w s e h = given cmd.args refl
  where
    given : (args : List Bytes) → cmd.args ≡ args → IsLogin verify args w.db.live
    given [] a = absurd (h (rw a e))
    given (x ∷ []) a = absurd (h (rw a e))
    given (x ∷ y ∷ z ∷ args) a = absurd (h (rw a e))
    given (username ∷ password ∷ []) a = elim (authorize-cases verify username password w.db) [
      | inr v ↦ (
        username,
        password,
        (refl, subst (Verified verify username password) (committed-closed w.db s) v),
      )
      | inl n ↦ absurd (h (rw (a, n) e))
    ]

-- DELETE of INBOX leaves the tables as they are.
handle_delete-inbox :
    (cmd : ImapCommand) (w : Server)
    → cmd.args ≡ codes "INBOX" ∷ []
    → (handle_delete cmd w).1.db.live ≡ w.db.live
unfolding handle_delete FolderDal.find_by_name select
handle_delete-inbox cmd w a = elim (Option-cases w.dispatcher.authenticated_user_id) [
  | inl n ↦ rw (a, n) refl
  | inr (user, n) ↦ elim (Bool-cases (is_fault w.db.faults)) [
    | inl f ↦ rw (a, n, f) refl
    | inr f ↦ elim (Option-cases (find_row (named user) (committed w.db).folders)) [
      | inl g ↦ rw (a, n, f, g) refl
      | inr (folder, g) ↦
          rw
            (
              a,
              n,
              f,
              g,
              last_holds (folder.user_id == user) _ (find_row-holds (named user) _ folder g),
            )
            refl
    ]
  ]
]
  where
    named : ℕ → Folder → Bool
    named user f = f.user_id == user && equal f.name (codes "INBOX")

    last_holds : (a b : Bool) → (a && b) ≡ true → b ≡ true
    last_holds a b h = ground arith
