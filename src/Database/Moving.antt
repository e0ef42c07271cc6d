-- ===== src/Database/Moving.antt =====
-- The operations of database/Repository that write what they read before: renaming a folder, and
-- moving, copying and expunging messages.
use ua_5308_smtp.Prelude.{
  inl, inr, ℕ, ◌≤◌, Bool, true, not, ◌&&◌, ◌≡◌, refl, sym, subst, ap, ◌∙◌, Option, none, some, ◌++◌,
  if◌then◌else◌, Bytes, codes, is_empty, Bool-cases, arith, ◌==◌,
}
use ua_5308_smtp.Effects.{returned, ◌>>=◌}
use ua_5308_smtp.Effects.Ensures.{Ensures}
use ua_5308_smtp.Database.Rows.{Folder, Message}
use ua_5308_smtp.Database.Engine.{Tables, Db, Sql, spend, set_error, needs}
use ua_5308_smtp.Database.Queries.{has_row, update_where, is_id}
use ua_5308_smtp.Database.Selection.{find_row-holds, All-update_where}
use ua_5308_smtp.Database.Counters.{
  row_of, Counted, is_id-some, Grows, Held-Grows, Grows-update_where, row_of-update_where,
}
use ua_5308_smtp.Database.Rules.{
  Working, Done, Back, refused-cases, transaction-rule, committed-closed,
}
use ua_5308_smtp.Database.FolderDal.{has_folder, refers, set_folders}
use ua_5308_smtp.Database.FolderDal
use ua_5308_smtp.Database.MessageDal.{others, has_uid}
use ua_5308_smtp.Database.MessageDal
use ua_5308_smtp.Database.Storing.{find_by_id-cases, increment-cases, counted_up}
use ua_5308_smtp.Database.Keeping.{
  Kept, Keeps, set_error-Keeps, if-Keeps, Done-Kept, folders-Counted,
}
use ua_5308_smtp.Database.Repository.Messages
use ua_5308_smtp.Database.Repository.Folders

-- A search in the table leaves the tables as they are.
find_by_name-runs :
    (user_id : ℕ) (name : Bytes) (db : Db)
    → (o : Option Folder) × (FolderDal.find_by_name user_id name db ≡ (returned o, spend db))
unfolding FolderDal.find_by_name
find_by_name-runs user_id name db = (_, refl)

-- A row is written back with a counter that did not go back.
update-Counted :
    (folder old : Folder) (id : ℕ) (t : Tables)
    → folder.id ≡ some id
    → row_of id t.folders ≡ some old
    → old.next_uid ≤ folder.next_uid
    → Counted t
    → Counted (record t {
      folders = update_where (λ f. is_id id f.id) (λ f. FolderDal.stored folder) t.folders;
    })
update-Counted folder old id t i e l = folders-Counted t _ (
    Grows-update_where id (λ f. FolderDal.stored folder) t.folders (λ f b. ap (is_id id) i ∙ own id)
      (λ f e'. subst (λ n. n ≤ folder.next_uid) (ap next_uid_or_zero (sym e ∙ e')) l))
  where
    own : (n : ℕ) → (n == n) ≡ true
    own n = ground arith

    next_uid_or_zero : Option Folder → ℕ
    next_uid_or_zero none = 0
    next_uid_or_zero (some f) = f.next_uid

folder_update-Kept :
    (folder old : Folder) (id : ℕ) (db : Db)
    → folder.id ≡ some id
    → row_of id db.live.folders ≡ some old
    → old.next_uid ≤ folder.next_uid
    → Kept db
    → Kept (FolderDal.update folder db).1
unfolding FolderDal.update
folder_update-Kept folder old id db i e l k = elim (refused-cases violated changed db) [
  | inl r ↦ rw (FolderDal.update, i, r) k
  | inr (c, r) ↦ rw (FolderDal.update, i, r) (k.0, update-Counted folder old id db.live i e l k.1)
]
  where
    violated : Tables → Bool
    violated t = has_folder t id && not (refers t folder)

    changed : Tables → Unit {0} × Tables
    changed t = (
      tt,
      record t {
        folders = update_where (λ f. is_id id f.id) (λ f. FolderDal.stored folder) t.folders;
      },
    )

pub rename_folder-Keeps : (id : ℕ) (new_name : Bytes) → Keeps (Folders.rename_folder id new_name)
unfolding Folders.rename_folder
rename_folder-Keeps id new_name =
    if-Keeps (is_empty new_name) _ _ (set_error-Keeps _) (record { keeps = renamed })
  where
    text : Bytes
    text = codes "renameFolder: folder not found"

    write : Folder → Option Folder → Sql (Option (Unit {0}))
    write folder existing =
        if Folders.is_other folder existing
        then set_error (codes "renameFolder: folder '" ++ (new_name ++ codes "' already exists"))
        else FolderDal.update (record folder { name = new_name })

    written :
        (folder : Folder) (existing : Option Folder) (db : Db)
        → row_of id db.live.folders ≡ some folder
        → Kept db
        → Kept (write folder existing db).1
    written folder existing db e k = elim (Bool-cases (Folders.is_other folder existing)) [
      | inl b ↦ rw b k
      | inr b ↦ rw b (
          folder_update-Kept (record folder { name = new_name }) folder id db
            (is_id-some id folder.id (find_row-holds (λ f. is_id id f.id) db.live.folders folder e))
            e (omega arith) k)
    ]

    renamed :
        (db : Db)
        → Kept db
        → Kept
            (needs text
              (FolderDal.find_by_id id)
              (λ folder. FolderDal.find_by_name folder.user_id new_name >>= write folder)
              db).1
    renamed db k = elim (find_by_id-cases id db) [
      | inl n ↦ rw n k
      | inr (folder, (found, n)) ↦
          let (o, r) = find_by_name-runs folder.user_id new_name (spend db) in
          rw (n, r)
            (written folder o (spend (spend db))
              (subst (λ t. row_of id t.folders ≡ some folder) (committed-closed db k.0) found) k)
    ]

-- The tables that `moveToFolder` makes.
abbrev pub moved_to : ℕ → Folder → ℕ → Tables → Tables
moved_to folder_id folder id t = record t {
  messages =
      update_where (λ (m : Message). is_id id m.id)
        (λ m. record m { folder_id = folder_id; uid = folder.next_uid }) t.messages;
  folders = counted_up folder_id t.folders;
}

pub record Moved (id folder_id : ℕ) (before t : Tables) : Type 0 where
  pub folder : Folder
  pub found : row_of folder_id before.folders ≡ some folder
  pub tables : t ≡ moved_to folder_id folder id before

move_body-Moved :
    (id folder_id : ℕ) (folder : Folder) (db : Db)
    → row_of folder_id db.live.folders ≡ some folder
    → db.saved ≡ some db.live
    → Ensures
        (Working (λ _. Moved id folder_id db.live) db.live)
        (λ db'. db'.saved ≡ some db.live)
        (Messages.move_body id folder_id folder.next_uid db)
unfolding Messages.move_body MessageDal.move_to_folder
move_body-Moved id folder_id folder db found e = elim (refused-cases violated changed db) [
  | inl r ↦ rw r e
  | inr (c, r) ↦
      elim (increment-cases folder_id (record (spend db) { live = (changed db.live).1 })) [
        | inl r' ↦ rw (r, r') e
        | inr r' ↦ rw (r, r') (e, record { folder = folder; found = found; tables = refl })
      ]
]
  where
    violated : Tables → Bool
    violated t =
        has_row (λ (m : Message). is_id id m.id) t.messages
        && not (
            has_folder t folder_id
            && not (has_uid (others id t.messages) folder_id folder.next_uid))

    changed : Tables → Unit {0} × Tables
    changed t = (
      tt,
      record t {
        messages =
            update_where (λ (m : Message). is_id id m.id)
              (λ m. record m { folder_id = folder_id; uid = folder.next_uid }) t.messages;
      },
    )

-- Whatever SQLite refuses, `moveToFolder` either fails and leaves the tables as they were, or gives
-- the rows with the id the folder and the UID of its counter, and counts up.
pub move_to_folder-Moved :
    (id folder_id : ℕ) (db : Db)
    → db.saved ≡ none
    → Ensures
        (Done (λ _. Moved id folder_id db.live) db.live)
        (Back db.live)
        (Messages.move_to_folder id folder_id db)
unfolding Messages.move_to_folder
move_to_folder-Moved id folder_id db e = elim (find_by_id-cases folder_id db) [
  | inl n ↦ rw n (e, refl)
  | inr (folder, (found, n)) ↦ rw n (
      transaction-rule (λ _. Moved id folder_id db.live) _ _
        (Messages.move_body id folder_id folder.next_uid) (spend db) e
        (move_body-Moved id folder_id folder (record (spend (spend db)) { saved = some db.live })
          (subst (λ t. row_of folder_id t.folders ≡ some folder) (committed-closed db e) found)
          refl))
]

Moved-Counted :
    (id folder_id : ℕ) (before t : Tables)
    → Moved id folder_id before t
    → Counted before
    → Counted t
unfolding Counted
Moved-Counted id folder_id before t s h = rw s.tables (
    All-update_where (λ m. is_id id m.id) _ before.messages
      (λ m b k. (
        _,
        (row_of-update_where folder_id _ before.folders s.folder (λ f k. k) s.found, omega arith),
      ))
      (λ m. Held-Grows before.folders (counted_up folder_id before.folders) grows m) h)
  where
    grows : Grows before.folders (counted_up folder_id before.folders)
    grows = Grows-update_where folder_id _ before.folders (λ f k. k) (λ f k. omega arith)

pub move_to_folder-Keeps : (id folder_id : ℕ) → Keeps (Messages.move_to_folder id folder_id)
move_to_folder-Keeps id folder_id = record {
  keeps = λ db k.
      Done-Kept (λ _. Moved id folder_id db.live) db.live _
        (λ _ t s. Moved-Counted id folder_id db.live t s k.1) k.1
        (move_to_folder-Moved id folder_id db k.0);
}
