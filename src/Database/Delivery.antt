-- ===== src/Database/Delivery.antt =====
-- database/Repository/MessageRepository.cpp: that `deliver` succeeds, and when it cannot.
use ua_5308_smtp.Prelude.{
  ◌≢◌, inl, inr, ℕ, ◌<◌, Bool, true, false, not, ◌&&◌, ◌≡◌, refl, sym, subst, ap, ◌∙◌, Option, none,
  some, List, [], ◌∷◌, codes, equal, All, Bool-cases, arith, ◌==◌, ==_iff,
}
use ua_5308_smtp.Effects.{Outcome, returned, thrown}
use ua_5308_smtp.Database.Rows.{Folder, Message}
use ua_5308_smtp.Database.Engine.{Db, select, statement, transaction, end_transaction}
use ua_5308_smtp.Database.Queries.{find_row, has_row}
use ua_5308_smtp.Database.FolderDal.{has_user, has_folder}
use ua_5308_smtp.Database.FolderDal
use ua_5308_smtp.Database.MessageDal.{has_uid}
use ua_5308_smtp.Database.MessageDal
use ua_5308_smtp.Database.Counters.{row_of, Held, Counted}
use ua_5308_smtp.Database.Storing.{insertable, row_for, with_row, Stored, assign_uid-Stored}
use ua_5308_smtp.Database.Rules.{Done, Back}
use ua_5308_smtp.Effects.Ensures.{Ensures}
use ua_5308_smtp.Database.Repository.Messages.{
  numbered, delivered, assign_uid, assign_body, deliver,
}

find_row-has_row :
    (p : Folder → Bool) (fs : List Folder) (f : Folder)
    → find_row p fs ≡ some f
    → has_row p fs ≡ true
find_row-has_row p [] f h = cc
find_row-has_row p (g ∷ fs) f h = elim (Bool-cases (p g)) [
  | inl e ↦ rw e refl
  | inr e ↦ rw e (find_row-has_row p fs f (rw e at h))
]

-- The counter of a folder is the UID of none of its messages.
counter-unused :
    (folder_id : ℕ) (folder : Folder) (fs : List Folder) (ms : List Message)
    → row_of folder_id fs ≡ some folder
    → All (Held fs) ms
    → has_uid ms folder_id folder.next_uid ≡ false
counter-unused folder_id folder fs [] e h = refl
counter-unused folder_id folder fs (m ∷ ms) e ((f, (found, l)), h) =
    elim (Bool-cases (m.folder_id == folder_id)) [
      | inl b ↦ rw (b, other b) (counter-unused folder_id folder fs ms e h)
      | inr b ↦ rw b (counter-unused folder_id folder fs ms e h)
    ]
  where
    counter_of : Option Folder → ℕ
    counter_of none = 0
    counter_of (some g) = g.next_uid

    same : (m.folder_id == folder_id) ≡ true → f.next_uid ≡ folder.next_uid
    same b =
        ap counter_of (sym found ∙ ap (λ i. row_of i fs) ((==_iff m.folder_id folder_id).0 b) ∙ e)

    other : (m.folder_id == folder_id) ≡ true → (m.uid == folder.next_uid) ≡ false
    other b = let s = same b in ground (arith, s, l)

assign_uid-succeeds :
    (msg : Message) (folder_id : ℕ) (folder : Folder) (db : Db)
    → db.saved ≡ none
    → db.faults ≡ []
    → insertable (numbered msg folder_id folder.next_uid) db.live ≡ true
    → row_of folder_id db.live.folders ≡ some folder
    → assign_uid msg folder_id db ≡ (
      returned (some (row_for msg folder_id folder db.live)),
      record db { live = with_row (row_for msg folder_id folder db.live) db.live },
    )
unfolding assign_uid assign_body transaction end_transaction FolderDal.find_by_id
    FolderDal.increment_next_uid MessageDal.insert select statement
assign_uid-succeeds msg folder_id folder db s f i e = rw (f, s, e, i) refl

-- Where nothing is refused, the counters are above the UIDs, the user is in the table and has an
-- INBOX, `deliver` to folder 0 returns the message with the next id and the UID that the counter of
-- the INBOX gives. The message is unread, recent and no draft, its row, each text up to its first NUL, is the only one that is
-- added, and the counter is counted up.
pub deliver-inbox :
    (msg : Message) (inbox folder : Folder) (id : ℕ) (db : Db)
    → db.saved ≡ none
    → db.faults ≡ []
    → Counted db.live
    → has_user db.live msg.user_id ≡ true
    → find_row
        (λ (f : Folder). f.user_id == msg.user_id && equal f.name (codes "INBOX"))
        db.live.folders
      ≡ some inbox
    → inbox.id ≡ some id
    → row_of id db.live.folders ≡ some folder
    → deliver msg 0 db ≡ (
      returned (some (row_for (delivered msg) id folder db.live)),
      record db { live = with_row (row_for (delivered msg) id folder db.live) db.live },
    )
unfolding deliver FolderDal.find_by_name select Counted
deliver-inbox msg inbox folder id db s f c u i n e =
    rw (f, s, i, n)
      (assign_uid-succeeds (delivered msg) id folder (record db { saved = none; faults = [] }) refl
        refl
        (rw
          (
            u,
            find_row-has_row _ db.live.folders folder e,
            counter-unused id folder db.live.folders db.live.messages e c,
          )
          refl)
        e)

last_true : (a b c : Bool) → (a && b && not c) ≡ true → c ≡ false
last_true a b c h = ground arith

nonzero : (n : ℕ) → 0 < n → (n == 0) ≡ false
nonzero n h = ground arith

-- Where a message has the UID that the counter of its folder gives next, no message is stored in the
-- folder and the tables stay as they are, whatever SQLite refuses.
pub deliver-used :
    (msg : Message) (folder_id : ℕ) (folder : Folder) (db : Db)
    → 0 < folder_id
    → db.saved ≡ none
    → row_of folder_id db.live.folders ≡ some folder
    → has_uid db.live.messages folder_id folder.next_uid ≡ true
    → ((deliver msg folder_id db).1.live ≡ db.live)
      × ((m : Message) → (deliver msg folder_id db).0 ≢ returned (some m))
unfolding deliver
deliver-used msg folder_id folder db z s e b = rw (nonzero folder_id z) (
    unstored (assign_uid (delivered msg) folder_id db)
      (assign_uid-Stored (delivered msg) folder_id db s))
  where
    next_of : Option Folder → ℕ
    next_of none = 0
    next_of (some g) = g.next_uid

    refused :
        (f : Folder)
        → row_of folder_id db.live.folders ≡ some f
        → insertable (numbered (delivered msg) folder_id f.next_uid) db.live ≡ true
        → ⊥
    refused f found accepted =
        let n = ap next_of (sym found ∙ e) in
        cc (
          b,
          last_true (has_user db.live msg.user_id) (has_folder db.live folder_id)
              (has_uid db.live.messages folder_id folder.next_uid)
              (subst (λ u. insertable (numbered (delivered msg) folder_id u) db.live ≡ true) n
                accepted),
        )

    unstored :
        (o : Outcome (Option Message) × Db)
        → Ensures (Done (Stored (delivered msg) folder_id db.live) db.live) (Back db.live) o
        → (o.1.live ≡ db.live) × ((m : Message) → o.0 ≢ returned (some m))
    unstored (returned none, db') h = (h.1, λ m. cc)
    unstored (thrown x, db') h = (h.1, λ m. cc)
    unstored (returned (some m), db') (_, st) = absurd (refused st.folder st.found st.accepted)
