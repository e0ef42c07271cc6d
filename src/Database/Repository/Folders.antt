-- ===== src/Database/Repository/Folders.antt =====
-- database/Repository/MessageRepository.cpp: the folders of a user.
use ua_5308_smtp.Prelude.{
  ℕ, Bool, true, false, not, Option, none, some, ◌++◌, ◌==◌, Bytes, codes, is_empty, if◌then◌else◌,
}
use ua_5308_smtp.Effects.{◌>>=◌, return}
use ua_5308_smtp.Database.Rows.{Folder}
use ua_5308_smtp.Database.Engine.{Sql, needs, tries, set_error}
use ua_5308_smtp.Database.FolderDal

-- The new id. `findFolderByID`, `findFoldersByUser`, `findFolderByName` and `findFoldersByParent`
-- are those of the data access.
unfoldable pub create_folder : Folder → Sql (Option ℕ)
create_folder folder =
    if is_empty folder.name
    then set_error (codes "createFolder: folder name cannot be empty")
    else FolderDal.find_by_name folder.user_id folder.name >>= λ existing. elim existing [
      | some _ ↦
          set_error (codes "createFolder: folder '" ++ (folder.name ++ codes "' already exists"))
      | none ↦ FolderDal.insert folder
    ]

abbrev same_id : Option ℕ → Option ℕ → Bool
same_id none none = true
same_id (some i) (some j) = i == j
same_id _ _ = false

abbrev pub is_other : Folder → Option Folder → Bool
is_other folder none = false
is_other folder (some existing) = not (same_id existing.id folder.id)

unfoldable pub rename_folder : ℕ → Bytes → Sql (Option (Unit {0}))
rename_folder id new_name =
    if is_empty new_name
    then set_error (codes "renameFolder: new name cannot be empty")
    else needs (codes "renameFolder: folder not found") (FolderDal.find_by_id id) (λ folder.
      FolderDal.find_by_name folder.user_id new_name >>= λ existing.
      if is_other folder existing
      then set_error (codes "renameFolder: folder '" ++ (new_name ++ codes "' already exists"))
      else FolderDal.update (record folder { name = new_name }))

unfoldable pub delete_folder : ℕ → Sql (Option (Unit {0}))
delete_folder id =
    needs (codes "deleteFolder: folder not found") (FolderDal.find_by_id id)
      (λ _. FolderDal.hard_delete id)

unfoldable pub increment_next_uid : ℕ → Sql (Option (Unit {0}))
increment_next_uid folder_id =
    needs (codes "incrementNextUID: folder not found") (FolderDal.find_by_id folder_id)
      (λ _. tries (FolderDal.increment_next_uid folder_id) (λ _. return (some tt)))

unfoldable pub set_subscribed : ℕ → Bool → Sql (Option (Unit {0}))
set_subscribed folder_id subscribed =
    needs (codes "setSubscribed: folder not found") (FolderDal.find_by_id folder_id)
      (λ _. tries (FolderDal.set_subscribed folder_id subscribed) (λ _. return (some tt)))
