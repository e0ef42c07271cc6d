-- ===== src/Database/Engine.antt =====
-- SQLite as database/ uses it: the tables of database/scheme/001_init_scheme.sql, statements that may
-- fail, and transactions (database/Transaction.h). `faults` says of the calls to come whether SQLite
-- refuses them, for a lock, a full disk and the like; no call is refused past its end. Reads run on
-- connections of their own (database/ConnectionPool.h) and see what is committed.
use ua_5308_smtp.Prelude.{
  ℕ, Bool, true, false, ◌||◌, Option, none, some, List, [], ◌∷◌, Bytes, if◌then◌else◌,
}
use ua_5308_smtp.Effects.{M, Outcome, returned, thrown, ◌>>=◌}
use ua_5308_smtp.Database.Rows.{User, Folder, Message, Recipient}

-- The rows in the order of their ids, and the last id that each table has given out.
pub record Tables : Type 0 where
  pub users : List User
  pub folders : List Folder
  pub messages : List Message
  pub recipients : List Recipient
  pub last_user : ℕ
  pub last_folder : ℕ
  pub last_message : ℕ
  pub last_recipient : ℕ

-- `live` is what the write connection sees, and `saved` what is committed while a transaction is open.
-- `last_error` is `m_last_error` of the repository, and `errmsg` what SQLite says of a failure.
pub record Db : Type 0 where
  pub live : Tables
  pub saved : Option Tables
  pub faults : List Bool
  pub last_error : Bytes
  pub errmsg : Bytes

abbrev pub Sql : Type 0 → Type 0
Sql = M Db

abbrev pub committed : Db → Tables
committed db = elim db.saved [ none ↦ db.live | some tables ↦ tables ]

abbrev pub is_fault : List Bool → Bool
is_fault [] = false
is_fault (b ∷ bs) = b

abbrev pub tail : List Bool → List Bool
tail [] = []
tail (b ∷ bs) = bs

abbrev pub spend : Db → Db
spend db = record db { faults = tail db.faults }

-- A SELECT: `missing` where it is refused.
unfoldable pub select : {A : Type 0} → A → (Tables → A) → Sql A
select missing read db =
    (returned (if is_fault db.faults then missing else read (committed db)), spend db)

-- An INSERT, UPDATE or DELETE: `none` where it is refused or a constraint of the schema is violated.
unfoldable pub statement : {A : Type 0} → (Tables → Option (A × Tables)) → Sql (Option A)
statement change db =
    if is_fault db.faults then (returned none, spend db) else elim (change db.live) [
      | none ↦ (returned none, spend db)
      | some (a, tables) ↦ (returned (some a), record (spend db) { live = tables })
    ]

abbrev pub is_open : Db → Bool
is_open db = elim db.saved [ none ↦ false | some tables ↦ true ]

-- ROLLBACK
abbrev pub rollback : Db → Db
rollback db = elim db.saved [ none ↦ db | some tables ↦ record db { live = tables; saved = none } ]

-- `setError`
abbrev pub set_error : {A : Type 0} → Bytes → Sql (Option A)
set_error text db = (returned none, record db { last_error = text })

-- `setError(dal.getLastError())`, behind a statement that failed.
abbrev pub set_errmsg : {A : Type 0} → Sql (Option A)
set_errmsg db = (returned none, record db { last_error = db.errmsg })

-- The end of a transaction: COMMIT by `commit()`, and the destructor, which rolls back what is not committed.
unfoldable pub end_transaction :
    {A : Type 0} → Bytes → Outcome (Option A) × Db → Outcome (Option A) × Db
end_transaction refused (thrown e, db) = (thrown e, rollback db)
end_transaction refused (returned none, db) = (returned none, rollback db)
end_transaction refused (returned (some a), db) =
    if is_fault db.faults
    then (returned none, rollback (record (spend db) { last_error = refused }))
    else (returned (some a), record (spend db) { saved = none })

-- `Transaction tx(db)`, which is BEGIN IMMEDIATE, a body, and `tx.commit()`: `none` where any of them fails.
unfoldable pub transaction : {A : Type 0} → Bytes → Bytes → Sql (Option A) → Sql (Option A)
unfolding end_transaction
transaction no_begin refused body db =
    if is_fault db.faults || is_open db
    then (returned none, record (spend db) { last_error = no_begin })
    else end_transaction refused (body (record (spend db) { saved = some db.live }))

-- `if (!x.has_value()) return setError(text);`
abbrev needs_else : {A B : Type 0} → Bytes → (A → Sql (Option B)) → Option A → Sql (Option B)
needs_else text k none = set_error text
needs_else text k (some a) = k a

abbrev pub needs : {A B : Type 0} → Bytes → Sql (Option A) → (A → Sql (Option B)) → Sql (Option B)
needs text m k = m >>= needs_else text k

-- `if (!dal.f(…)) return setError(dal.getLastError());`
abbrev tries_else : {A B : Type 0} → (A → Sql (Option B)) → Option A → Sql (Option B)
tries_else k none = set_errmsg
tries_else k (some a) = k a

abbrev pub tries : {A B : Type 0} → Sql (Option A) → (A → Sql (Option B)) → Sql (Option B)
tries m k = m >>= tries_else k
