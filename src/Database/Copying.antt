-- ===== src/Database/Copying.antt =====
-- database/Repository/MessageRepository.cpp: what `copy` leaves in the tables.
use ua_5308_smtp.Prelude.{
  ◌⊎◌, inl, inr, ℕ, suc, true, ◌≡◌, refl, sym, subst, ap, ◌∙◌, Option, none, some, List, [], ◌∷◌,
  ◌++◌, Bool-cases, ◌==◌,
}
use ua_5308_smtp.Effects.{returned, return}
use ua_5308_smtp.Effects.Ensures.{Ensures, Ensures-bind}
use ua_5308_smtp.Database.Rows.{Folder, Message, Recipient}
use ua_5308_smtp.Database.Engine.{Tables, Db, Sql, committed, spend, is_fault, select, tries}
use ua_5308_smtp.Database.Queries.{find_row, rows_where, is_id}
use ua_5308_smtp.Database.Rules.{
  Working, Done, Back, select-cases, guarded-cases, transaction-rule, committed-closed,
}
use ua_5308_smtp.Database.FolderDal
use ua_5308_smtp.Database.MessageDal
use ua_5308_smtp.Database.RecipientDal
use ua_5308_smtp.Database.Counters.{row_of, Counted}
use ua_5308_smtp.Database.Storing.{
  insertable, find_by_id-cases, insert-cases, increment-cases, inserted, counted_up, with_row,
  row_for, Stored, Stored-Counted,
}
use ua_5308_smtp.Database.Keeping.{Kept, Keeps, Done-Kept, same-Counted}
use ua_5308_smtp.Database.Repository.Messages.{numbered}
use ua_5308_smtp.Database.Repository.Messages

abbrev with_recipient : Recipient → Tables → Tables
with_recipient r t = record t {
  recipients =
      t.recipients ++ record (RecipientDal.stored r) { id = some (suc t.last_recipient) } ∷ [];
  last_recipient = suc t.last_recipient;
}

-- The rows of the recipients of a copy, one after the other.
abbrev pub with_recipients : ℕ → List Recipient → Tables → Tables
with_recipients message_id [] t = t
with_recipients message_id (r ∷ rs) t =
    with_recipients message_id rs
      (with_recipient (record r { id = none; message_id = message_id }) t)

recipient_insert-cases :
    (r : Recipient) (db : Db)
    → (RecipientDal.insert r db ≡ (returned none, spend db))
      ⊎ (RecipientDal.insert r db ≡ (
        returned (some (suc db.live.last_recipient)),
        record (spend db) { live = with_recipient r db.live },
      ))
unfolding RecipientDal.insert
recipient_insert-cases r db =
    elim (guarded-cases (λ t. RecipientDal.has_message t r.message_id)
      (λ t. (suc t.last_recipient, with_recipient r t)) db) [ inl e ↦ inl e | inr (b, e) ↦ inr e ]

insert_all-Working :
    (message_id : ℕ) (rs : List Recipient) (before : Tables) (db : Db)
    → db.saved ≡ some before
    → Ensures
        (Working (λ _ t. t ≡ with_recipients message_id rs db.live) before)
        (λ db'. db'.saved ≡ some before)
        (Messages.insert_all message_id rs db)
unfolding Messages.insert_all
insert_all-Working message_id [] before db e = (e, refl)
insert_all-Working message_id (r ∷ rs) before db e =
    elim (recipient_insert-cases (record r { id = none; message_id = message_id }) db) [
      | inl n ↦ rw n e
      | inr n ↦ rw n (
          insert_all-Working message_id rs before
            (record (spend db) {
              live = with_recipient (record r { id = none; message_id = message_id }) db.live;
            })
            e)
    ]

message_by_id-cases :
    (id : ℕ) (db : Db)
    → (MessageDal.find_by_id id db ≡ (returned none, spend db))
      ⊎ ((m : Message) × ((find_row (λ (x : Message). is_id id x.id) (committed db).messages
              ≡ some m)
            × (MessageDal.find_by_id id db ≡ (returned (some m), spend db))))
unfolding MessageDal.find_by_id
message_by_id-cases id db =
    select-cases (λ t. find_row (λ (x : Message). is_id id x.id) t.messages) db

-- The recipients that the copy is given: none where the SELECT was refused.
abbrev pub Read : ℕ → Tables → List Recipient → Type 0
Read id t rs = (rs ≡ []) ⊎ (rs ≡ rows_where (λ r. r.message_id == id) t.recipients)

recipients-cases :
    (id : ℕ) (db : Db)
    → (rs : List Recipient) × (Read id (committed db) rs
        × (RecipientDal.find_by_message id db ≡ (returned rs, spend db)))
unfolding RecipientDal.find_by_message select
recipients-cases id db = elim (Bool-cases (is_fault db.faults)) [
  | inl e ↦ ([], (inl refl, rw e refl))
  | inr e ↦ (_, (inr refl, rw e refl))
]

-- What `copy` did, where it succeeded: the row of the message that was found, as `assignUID` stores
-- it in the target folder, and rows of recipients.
pub record Copied (id target : ℕ) (before : Tables) (m : Message) (t : Tables) : Type 0 where
  pub source : Message
  pub found : find_row (λ (x : Message). is_id id x.id) before.messages ≡ some source
  pub recipients : List Recipient
  pub read : Read id before recipients
  pub middle : Tables
  pub stored : Stored source target before m middle
  pub tables : t ≡ with_recipients (suc before.last_message) recipients middle

-- The counter of the target and the recipients are in tables of their own.
with_recipients-folders :
    (message_id : ℕ) (rs : List Recipient) (t : Tables) (fs : List Folder)
    → record (with_recipients message_id rs t) { folders = fs }
      ≡ with_recipients message_id rs (record t { folders = fs })
with_recipients-folders message_id [] t fs = refl
with_recipients-folders message_id (r ∷ rs) t fs = with_recipients-folders message_id rs _ fs

with_recipients-same :
    (message_id : ℕ) (rs : List Recipient) (t : Tables)
    → ((with_recipients message_id rs t).folders ≡ t.folders)
      × ((with_recipients message_id rs t).messages ≡ t.messages)
with_recipients-same message_id [] t = (refl, refl)
with_recipients-same message_id (r ∷ rs) t = with_recipients-same message_id rs _

module _ (id target : ℕ) (source : Message) (folder : Folder) (rs : List Recipient) where
  -- The row of the copy.
  row : Message
  row = record (numbered source target folder.next_uid) { id = none }

  finish : ℕ → Option (Unit {0}) → Sql (Option Message)
  finish new none = return none
  finish new (some _) =
      tries (FolderDal.increment_next_uid target)
        (λ _. return (some (record row { id = some new })))

  copy_body-Copied :
      (db : Db)
      → db.saved ≡ some db.live
      → find_row (λ (x : Message). is_id id x.id) db.live.messages ≡ some source
      → row_of target db.live.folders ≡ some folder
      → Read id db.live rs
      → Ensures
          (Working (Copied id target db.live) db.live)
          (λ db'. db'.saved ≡ some db.live)
          (Messages.copy_body row rs db)
  unfolding Messages.copy_body row finish
  copy_body-Copied db e found f read = elim (insert-cases row db) [
    | inl n ↦ rw n e
    | inr (g, n) ↦ rw n (
        Ensures-bind Q E R (Messages.insert_all (suc db.live.last_message) rs)
          (finish (suc db.live.last_message)) (record (spend db) { live = inserted row db.live })
          (insert_all-Working (suc db.live.last_message) rs db.live
            (record (spend db) { live = inserted row db.live }) e)
          (elim [ none ↦ λ db' s. s | some _ ↦ λ db' (s, t). finished g db' s t ]))
  ]
    where
      Q : Option Message → Db → Type 0
      Q = Working (Copied id target db.live) db.live

      E : Db → Type 0
      E db' = db'.saved ≡ some db.live

      R : Option (Unit {0}) → Db → Type 0
      R =
          Working (λ _ t. t ≡ with_recipients (suc db.live.last_message) rs (inserted row db.live))
            db.live

      counted :
          (db' : Db)
          → db'.live ≡ with_recipients (suc db.live.last_message) rs (inserted row db.live)
          → record db'.live { folders = counted_up target db'.live.folders }
            ≡ with_recipients
                (suc db.live.last_message)
                rs
                (with_row (row_for source target folder db.live) db.live)
      counted db' t =
          ap {A = Tables} (λ u. record u { folders = counted_up target u.folders }) t
          ∙ ap {A = List Folder}
              (λ fs. record (with_recipients (suc db.live.last_message) rs (inserted row db.live)) {
                folders = counted_up target fs;
              })
              (with_recipients-same (suc db.live.last_message) rs (inserted row db.live)).0
          ∙ with_recipients-folders (suc db.live.last_message) rs (inserted row db.live) _

      finished :
          insertable row db.live ≡ true
          → (db' : Db) → db'.saved ≡ some db.live
          → db'.live ≡ with_recipients (suc db.live.last_message) rs (inserted row db.live)
          → Ensures Q E (finish (suc db.live.last_message) (some tt) db')
      finished g db' s t = elim (increment-cases target db') [
        | inl n ↦ rw n s
        | inr n ↦ rw n (
          s,
          record {
            source = source;
            found = found;
            recipients = rs;
            read = read;
            middle = with_row (row_for source target folder db.live) db.live;
            stored = record { folder = folder; found = f; accepted = g; row = refl; tables = refl };
            tables = counted db' t;
          },
        )
      ]

-- Whatever SQLite refuses, `copy` either fails and leaves the tables as they were, or adds a row of
-- the message that was found to the target folder, with the next id and UID, adds rows of recipients,
-- either none or those of the message, and counts up.
pub copy-Copied :
    (id target : ℕ) (db : Db)
    → db.saved ≡ none
    → Ensures (Done (Copied id target db.live) db.live) (Back db.live) (Messages.copy id target db)
unfolding Messages.copy row
copy-Copied id target db e = elim (message_by_id-cases id db) [
  | inl n ↦ rw n (e, refl)
  | inr (source, (found, n)) ↦ elim (find_by_id-cases target (spend db)) [
    | inl n' ↦ rw (n, n') (e, refl)
    | inr (folder, (f, n')) ↦
        let (rs, (read, n'')) = recipients-cases id (spend (spend db)) in
        rw (n, n', n'')
          (transaction-rule (Copied id target db.live) _ _
            (Messages.copy_body (record (numbered source target folder.next_uid) { id = none }) rs)
            (spend (spend (spend db))) e
            (copied source folder rs
              (subst (λ t. find_row (λ (x : Message). is_id id x.id) t.messages ≡ some source) same
                found)
              (subst (λ t. row_of target t.folders ≡ some folder) same f)
              (subst (λ t. Read id t rs) same read)))
  ]
]
  where
    same : committed db ≡ db.live
    same = committed-closed db e

    copied :
        (source : Message) (folder : Folder) (rs : List Recipient)
        → find_row (λ (x : Message). is_id id x.id) db.live.messages ≡ some source
        → row_of target db.live.folders ≡ some folder
        → Read id db.live rs
        → Ensures
            (Working (Copied id target db.live) db.live)
            (λ db'. db'.saved ≡ some db.live)
            (Messages.copy_body
              (record (numbered source target folder.next_uid) { id = none })
              rs
              (record (spend (spend (spend (spend db)))) { saved = some db.live }))
    copied source folder rs =
        copy_body-Copied id target source folder rs
          (record (spend (spend (spend (spend db)))) { saved = some db.live }) refl

pub copy-Keeps : (id target : ℕ) → Keeps (Messages.copy id target)
copy-Keeps id target = record {
  keeps = λ db k.
      Done-Kept (Copied id target db.live) db.live _ (counted db k) k.1
        (copy-Copied id target db k.0);
}
  where
    counted :
        (db : Db) → Kept db → (m : Message) (t : Tables) → Copied id target db.live m t → Counted t
    counted db k m t c = subst Counted (sym c.tables) (
        let same = with_recipients-same (suc db.live.last_message) c.recipients c.middle in
        same-Counted c.middle _ (Stored-Counted c.source target db.live m c.middle c.stored k.1)
          same.0 same.1)
