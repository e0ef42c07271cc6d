-- ===== src/Database/Expunging.antt =====
-- database/Repository/MessageRepository.cpp: what `expunge` and `closeFolder` leave in the tables.
use ua_5308_smtp.Prelude.{
  ◌⊎◌, inl, inr, ℕ, Bool, ◌&&◌, ◌≡◌, refl, sym, subst, ap, ◌∙◌, none, some, List, [], ◌∷◌, codes,
  ltb, Bool-cases, Option-cases, ◌==◌,
}
use ua_5308_smtp.Effects.{returned}
use ua_5308_smtp.Effects.Ensures.{Ensures}
use ua_5308_smtp.Database.Rows.{Message}
use ua_5308_smtp.Database.Engine.{Tables, Db, committed, spend, is_fault, select, transaction}
use ua_5308_smtp.Database.Queries.{rows_where, order_by, page, is_id}
use ua_5308_smtp.Database.Rules.{
  Working, Working-imp, Done, Back, always-cases, transaction-rule, committed-closed,
}
use ua_5308_smtp.Database.FolderDal.{delete_messages}
use ua_5308_smtp.Database.MessageDal
use ua_5308_smtp.Database.Counters.{Counted}
use ua_5308_smtp.Database.Keeping.{
  Keeps, return-Keeps, tries-Keeps, >>=-Keeps, Done-Kept, delete-Counted,
}
use ua_5308_smtp.Database.Operations.{clear_recent-Keeps}
use ua_5308_smtp.Database.Repository.Messages

-- The DELETEs of `expunge`, one after the other.
abbrev pub without : List Message → Tables → Tables
without [] t = t
without (m ∷ ms) t =
    without ms (elim m.id [ none ↦ t | some id ↦ delete_messages (λ x. is_id id x.id) t ])

hard_delete-cases :
    (id : ℕ) (db : Db)
    → (MessageDal.hard_delete id db ≡ (returned none, spend db))
      ⊎ (MessageDal.hard_delete id db ≡ (
        returned (some tt),
        record (spend db) { live = delete_messages (λ x. is_id id x.id) db.live },
      ))
unfolding MessageDal.hard_delete
hard_delete-cases id db = always-cases tt (delete_messages (λ x. is_id id x.id)) db

delete_all-Working :
    (ms : List Message) (before : Tables) (db : Db)
    → db.saved ≡ some before
    → Ensures
        (Working (λ _ t. t ≡ without ms db.live) before)
        (λ db'. db'.saved ≡ some before)
        (Messages.delete_all ms db)
unfolding Messages.delete_all
delete_all-Working [] before db e = (e, refl)
delete_all-Working (m ∷ ms) before db e = elim (Option-cases m.id) [
  | inl i ↦ rw i (delete_all-Working ms before db e)
  | inr (id, i) ↦ elim (hard_delete-cases id db) [
    | inl r ↦ rw (i, r) e
    | inr r ↦
        rw (i, r)
          (delete_all-Working ms before
            (record (spend db) { live = delete_messages (λ x. is_id id x.id) db.live }) e)
  ]
]

-- The messages that `expunge` reads, in the order in which it deletes them.
abbrev pub is_expunged : ℕ → Message → Bool
is_expunged folder_id m = m.folder_id == folder_id && m.is_deleted

unfoldable pub expunged_rows : ℕ → ℕ → Tables → List Message
expunged_rows limit folder_id t =
    page limit 0 (order_by (λ m n. ltb m.uid n.uid) (rows_where (is_expunged folder_id) t.messages))

find_deleted-cases :
    (folder_id : ℕ) (db : Db)
    → (MessageDal.find_deleted folder_id Messages.int_max 0 db ≡ (returned [], spend db))
      ⊎ (MessageDal.find_deleted folder_id Messages.int_max 0 db
          ≡ (returned (expunged_rows Messages.int_max folder_id (committed db)), spend db))
unfolding MessageDal.find_deleted select expunged_rows
find_deleted-cases folder_id db = elim (Bool-cases (is_fault db.faults)) [
  | inl e ↦ inl (rw e refl)
  | inr e ↦ inr (rw e refl)
]

-- The tables behind `expunge`: a SELECT that is refused gives it nothing to delete.
pub Expunged : ℕ → Tables → Tables → Type 0
Expunged folder_id before t =
    (t ≡ before) ⊎ (t ≡ without (expunged_rows Messages.int_max folder_id before) before)

-- Whatever SQLite refuses, `expunge` fails and leaves the tables as they were, or succeeds without
-- deleting, or deletes the rows that the SELECT gives.
pub expunge-Expunged :
    (folder_id : ℕ) (db : Db)
    → db.saved ≡ none
    → Ensures
        (Done (λ _. Expunged folder_id db.live) db.live)
        (Back db.live)
        (Messages.expunge folder_id db)
unfolding Messages.expunge Expunged
expunge-Expunged folder_id db e = elim (find_deleted-cases folder_id db) [
  | inl n ↦ rw n (deletes [] (λ t h. inl h))
  | inr n ↦ rw n (
      deletes (expunged_rows Messages.int_max folder_id (committed db)) (λ t h. inr (
        h
        ∙ ap (λ b. without (expunged_rows Messages.int_max folder_id b) db.live)
            (committed-closed db e))))
]
  where
    deletes :
        (ms : List Message)
        → ((t : Tables) → t ≡ without ms db.live → Expunged folder_id db.live t)
        → Ensures (Done (λ _. Expunged folder_id db.live) db.live) (Back db.live) (
            transaction
              (codes "expunge: failed to begin transaction")
              (codes "expunge: commit failed")
              (Messages.delete_all ms)
              (spend db))
    deletes ms h =
        transaction-rule (λ _. Expunged folder_id db.live) _ _ (Messages.delete_all ms) (spend db) e
          (Working-imp (λ _ t. t ≡ without ms db.live) (λ _. Expunged folder_id db.live) db.live
            (Messages.delete_all ms (record (spend (spend db)) { saved = some db.live })) (λ _. h)
            (delete_all-Working ms db.live (record (spend (spend db)) { saved = some db.live })
              refl))

without-Counted : (ms : List Message) (t : Tables) → Counted t → Counted (without ms t)
unfolding Counted
without-Counted [] t h = h
without-Counted (m ∷ ms) t h = without-Counted ms _ (elim (Option-cases m.id) [
  | inl i ↦ rw i h
  | inr (id, i) ↦ rw i (delete-Counted t (λ x. is_id id x.id) h)
])

pub expunge-Keeps : (folder_id : ℕ) → Keeps (Messages.expunge folder_id)
unfolding Expunged
expunge-Keeps folder_id = record {
  keeps = λ db k.
      Done-Kept (λ _. Expunged folder_id db.live) db.live _
        (λ _ t s. elim s [
          | inl e ↦ subst Counted (sym e) k.1
          | inr e ↦
              subst Counted (sym e)
                (without-Counted (expunged_rows Messages.int_max folder_id db.live) db.live k.1)
        ])
        k.1 (expunge-Expunged folder_id db k.0);
}

pub close_folder-Keeps : (folder_id : ℕ) → Keeps (Messages.close_folder folder_id)
unfolding Messages.close_folder
close_folder-Keeps folder_id =
    >>=-Keeps (Messages.expunge folder_id) _ (expunge-Keeps folder_id) (elim [
      | none ↦ return-Keeps none
      | some _ ↦ tries-Keeps _ _ (clear_recent-Keeps folder_id) (λ _. return-Keeps (some tt))
    ])
