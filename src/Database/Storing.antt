-- ===== src/Database/Storing.antt =====
-- database/Repository/MessageRepository.cpp: what `assignUID` leaves in the tables.
use ua_5308_smtp.Prelude.{
  ◌⊎◌, inl, inr, ℕ, suc, ◌+◌, Bool, true, not, ◌&&◌, ◌≡◌, refl, subst, none, some, List, [], ◌∷◌,
  ◌++◌, All-append, arith,
}
use ua_5308_smtp.Effects.{returned}
use ua_5308_smtp.Effects.Ensures.{Ensures}
use ua_5308_smtp.Database.Rows.{Folder, Message}
use ua_5308_smtp.Database.Engine.{Tables, Db, committed, spend}
use ua_5308_smtp.Database.Queries.{update_where, is_id}
use ua_5308_smtp.Database.FolderDal.{has_user, has_folder}
use ua_5308_smtp.Database.FolderDal
use ua_5308_smtp.Database.MessageDal.{has_uid}
use ua_5308_smtp.Database.MessageDal
use ua_5308_smtp.Database.Rules.{
  select-cases, always-cases, guarded-cases, Working, Done, Back, transaction-rule,
}
use ua_5308_smtp.Database.Counters.{
  row_of, Held, Counted, Grows, Held-Grows, Grows-update_where, row_of-update_where,
}
use ua_5308_smtp.Database.Selection.{All-imp}
use ua_5308_smtp.Database.Repository.Messages.{numbered, assign_body, assign_uid}

abbrev pub counted_up : ℕ → List Folder → List Folder
counted_up id = update_where (λ f. is_id id f.id) (λ f. record f { next_uid = f.next_uid + 1 })

-- The message with the id and the UID it was given, and the tables with its row at the end, of which each
-- text ends at its first NUL.
abbrev pub row_for : Message → ℕ → Folder → Tables → Message
row_for msg folder_id folder before = record (numbered msg folder_id folder.next_uid) {
  id = some (suc before.last_message);
}

abbrev pub with_row : Message → Tables → Tables
with_row m before = record before {
  messages = before.messages ++ MessageDal.stored m ∷ [];
  last_message = suc before.last_message;
  folders = counted_up m.folder_id before.folders;
}

-- The constraints on a new row.
abbrev pub insertable : Message → Tables → Bool
insertable msg t =
    has_user t msg.user_id
    && has_folder t msg.folder_id
    && not (has_uid t.messages msg.folder_id msg.uid)

-- What `assignUID` did, where it succeeded.
pub record Stored (msg : Message) (folder_id : ℕ) (before : Tables) (m : Message) (t : Tables)
    : Type 0 where
  pub folder : Folder
  pub found : row_of folder_id before.folders ≡ some folder
  pub accepted : insertable (numbered msg folder_id folder.next_uid) before ≡ true
  pub row : m ≡ row_for msg folder_id folder before
  pub tables : t ≡ with_row m before

pub find_by_id-cases :
    (id : ℕ) (db : Db)
    → (FolderDal.find_by_id id db ≡ (returned none, spend db))
      ⊎ ((f : Folder) × ((row_of id (committed db).folders ≡ some f)
            × (FolderDal.find_by_id id db ≡ (returned (some f), spend db))))
unfolding FolderDal.find_by_id
find_by_id-cases id db = select-cases (λ t. row_of id t.folders) db

pub increment-cases :
    (id : ℕ) (db : Db)
    → (FolderDal.increment_next_uid id db ≡ (returned none, spend db))
      ⊎ (FolderDal.increment_next_uid id db ≡ (
        returned (some tt),
        record (spend db) { live = record db.live { folders = counted_up id db.live.folders } },
      ))
unfolding FolderDal.increment_next_uid
increment-cases id db = always-cases tt (λ t. record t { folders = counted_up id t.folders }) db

abbrev pub inserted : Message → Tables → Tables
inserted msg t = record t {
  messages = t.messages ++ record (MessageDal.stored msg) { id = some (suc t.last_message) } ∷ [];
  last_message = suc t.last_message;
}

pub insert-cases :
    (msg : Message) (db : Db)
    → (MessageDal.insert msg db ≡ (returned none, spend db))
      ⊎ ((insertable msg db.live ≡ true)
          × (MessageDal.insert msg db ≡ (
            returned (some (suc db.live.last_message)),
            record (spend db) { live = inserted msg db.live },
          )))
unfolding MessageDal.insert
insert-cases msg db = guarded-cases (insertable msg) (λ t. (suc t.last_message, inserted msg t)) db

assign_body-Stored :
    (msg : Message) (folder_id : ℕ) (db : Db)
    → committed db ≡ db.live
    → db.saved ≡ some db.live
    → Ensures
        (Working (Stored msg folder_id db.live) db.live)
        (λ db'. db'.saved ≡ some db.live)
        (assign_body msg folder_id db)
unfolding assign_body
assign_body-Stored msg folder_id db c e = elim (find_by_id-cases folder_id db) [
  | inl n ↦ rw n e
  | inr (folder, (found, n)) ↦
      elim (insert-cases (numbered msg folder_id folder.next_uid) (spend db)) [
        | inl n' ↦ rw (n, n') e
        | inr (g, n') ↦
            elim (increment-cases folder_id (record (spend (spend db)) {
              live = inserted (numbered msg folder_id folder.next_uid) db.live;
            })) [
              | inl n'' ↦ rw (n, n', n'') e
              | inr n'' ↦
                  rw (n, n', n'')
                    (
                      e,
                      record {
                        folder = folder;
                        found = subst (λ t. row_of folder_id t.folders ≡ some folder) c found;
                        accepted = g;
                        row = refl;
                        tables = refl;
                      },
                    )
            ]
      ]
]

-- Whatever SQLite refuses, `assignUID` either fails and leaves the tables as they were, or stores the
-- row of the message, each text up to its first NUL, with the next id and the UID of the folder's counter, and counts up.
pub assign_uid-Stored :
    (msg : Message) (folder_id : ℕ) (db : Db)
    → db.saved ≡ none
    → Ensures
        (Done (Stored msg folder_id db.live) db.live)
        (Back db.live)
        (assign_uid msg folder_id db)
unfolding assign_uid
assign_uid-Stored msg folder_id db e =
    transaction-rule (Stored msg folder_id db.live) _ _ (assign_body msg folder_id) db e
      (assign_body-Stored msg folder_id (record (spend db) { saved = some db.live }) refl refl)

-- The counters stay above the UIDs.
pub Stored-Counted :
    (msg : Message) (folder_id : ℕ) (before : Tables) (m : Message) (t : Tables)
    → Stored msg folder_id before m t
    → Counted before
    → Counted t
unfolding Counted
Stored-Counted msg folder_id before m t s h =
    rw (s.tables, s.row)
      (All-append (Held folders) before.messages
        (MessageDal.stored (row_for msg folder_id s.folder before) ∷ [])
        (All-imp before.messages (λ x. Held-Grows before.folders folders grows x) h)
        (
          (
            _,
            (
              row_of-update_where folder_id _ before.folders s.folder (λ f k. k) s.found,
              omega arith,
            ),
          ),
          tt,
        ))
  where
    folders : List Folder
    folders = counted_up folder_id before.folders

    grows : Grows before.folders folders
    grows = Grows-update_where folder_id _ before.folders (λ f k. k) (λ f k. omega arith)
