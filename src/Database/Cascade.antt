-- ===== src/Database/Cascade.antt =====
-- The DELETE of a folder or of a user, which takes rows of the other tables with it.
use ua_5308_smtp.Prelude.{
  ℕ, zero, suc, Bool, true, false, not, ◌||◌, ◌≡◌, refl, sym, ◌∙◌, some, List, ◌++◌, length, arith,
  ◌==◌,
}
use ua_5308_smtp.Database.Rows.{Folder, Message}
use ua_5308_smtp.Database.Engine.{Tables}
use ua_5308_smtp.Database.Queries.{rows_where, delete_where, is_id}
use ua_5308_smtp.Database.Selection.{find_row-delete_where, has_row-append, All-rows_where}
use ua_5308_smtp.Database.Counters.{row_of, Counted}
use ua_5308_smtp.Database.Keeping.{Keeps, change-Keeps}
use ua_5308_smtp.Database.FolderDal.{is_gone, cascade, delete_messages}
use ua_5308_smtp.Database.FolderDal
use ua_5308_smtp.Database.UserDal

left_false : (a b : Bool) → (a || b) ≡ false → (a ≡ false) × (b ≡ false)
left_false a b h = ground arith

cascade-gone :
    (id fuel : ℕ) (gone folders : List Folder)
    → is_gone (cascade fuel gone folders).0 (some id) ≡ false
    → is_gone gone (some id) ≡ false
unfolding cascade
cascade-gone id zero gone folders h = h
cascade-gone id (suc fuel) gone folders h =
    (left_false _ _ (sym (has_row-append _ gone _) ∙ cascade-gone id fuel (gone ++ _) _ h)).0

-- The folders that are left are found as before.
cascade-row_of :
    (id fuel : ℕ) (gone folders : List Folder)
    → is_gone (cascade fuel gone folders).0 (some id) ≡ false
    → row_of id (cascade fuel gone folders).1 ≡ row_of id folders
unfolding cascade
cascade-row_of id zero gone folders h = refl
cascade-row_of id (suc fuel) gone folders h =
    cascade-row_of id fuel _ _ h
    ∙ find_row-delete_where (λ f. is_id id f.id) (λ f. is_gone gone f.parent_id) folders
        (left_false _ _ (sym (has_row-append _ gone _) ∙ cascade-gone id fuel (gone ++ _) _ h)).1

not-false : (b : Bool) → not b ≡ true → b ≡ false
not-false b h = ground arith

-- A DELETE of messages and folders that leaves the folder of every message that it leaves.
removed-Counted :
    (t t' : Tables) (p : Message → Bool)
    → ((m : Message) → p m ≡ false → row_of m.folder_id t'.folders ≡ row_of m.folder_id t.folders)
    → t'.messages ≡ t.messages
    → Counted t
    → Counted (delete_messages p t')
unfolding Counted
removed-Counted t t' p h e k = rw e (
    All-rows_where (λ m. not (p m)) t.messages
      (λ m b (f, (found, l)). (f, (h m (not-false (p m) b) ∙ found, l))) k)

-- The folders that a test selects, with those below them, and the folders that are left.
abbrev removed : (Folder → Bool) → Tables → List Folder × List Folder
removed p t = cascade (length t.folders) (rows_where p t.folders) (delete_where p t.folders)

removed-kept :
    (p : Folder → Bool) (t : Tables) (id : ℕ)
    → is_gone (removed p t).0 (some id) ≡ false
    → row_of id (removed p t).1 ≡ row_of id t.folders
removed-kept p t id h =
    cascade-row_of id (length t.folders) _ _ h
    ∙ find_row-delete_where (λ f. is_id id f.id) p t.folders
        (cascade-gone id (length t.folders) _ _ h)

pub hard_delete-Keeps : (id : ℕ) → Keeps (FolderDal.hard_delete id)
unfolding FolderDal.hard_delete
hard_delete-Keeps id = change-Keeps tt _ (λ t k.
    removed-Counted t (record t { folders = (removed (λ f. is_id id f.id) t).1 }) _
      (λ m h. removed-kept (λ f. is_id id f.id) t m.folder_id h) refl k)

pub hard_delete-Keeps-users : (id : ℕ) → Keeps (UserDal.hard_delete id)
unfolding UserDal.hard_delete
hard_delete-Keeps-users id = change-Keeps tt _ (λ t k.
    removed-Counted t _ _
      (λ m h.
        removed-kept (λ f. f.user_id == id) t m.folder_id (left_false (m.user_id == id) _ h).1)
      refl k)
