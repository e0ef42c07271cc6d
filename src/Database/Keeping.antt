-- ===== src/Database/Keeping.antt =====
-- Code over the database that keeps the counters above the UIDs, construct by construct.
use ua_5308_smtp.Prelude.{
  inl, inr, Bool, true, false, not, ◌≡◌, sym, subst, Option, none, some, List, if◌then◌else◌, Bytes,
}
use ua_5308_smtp.Effects.{Outcome, returned, thrown, ◌>>=◌, next, return, value}
use ua_5308_smtp.Effects.Ensures.{Ensures}
use ua_5308_smtp.Database.Rows.{Folder, Message}
use ua_5308_smtp.Database.Engine.{
  Tables, Db, Sql, select, statement, needs, tries, set_error, set_errmsg,
}
use ua_5308_smtp.Database.Queries.{update_where, delete_where}
use ua_5308_smtp.Database.Selection.{All-imp, All-rows_where, All-update_where}
use ua_5308_smtp.Database.Counters.{Counted, Grows, Held-Grows}
use ua_5308_smtp.Database.Rules.{statement-cases, guarded-cases, refused-cases, Done, Back}

-- No transaction is open, and the counters are above the UIDs.
abbrev pub Kept : Db → Type 0
Kept db = (db.saved ≡ none) × Counted db.live

pub record Keeps {A : Type 0} (m : Sql A) : Type 0 where
  pub keeps : (db : Db) → Kept db → Kept (m db).1

module _ {A : Type 0} where
  pub return-Keeps : (a : A) → Keeps (return a)
  return-Keeps a = record { keeps = λ db k. k }

  pub set_error-Keeps : (text : Bytes) → Keeps {A = Option A} (set_error text)
  set_error-Keeps text = record { keeps = λ db k. k }

  pub set_errmsg-Keeps : Keeps {A = Option A} set_errmsg
  set_errmsg-Keeps = record { keeps = λ db k. k }

  pub value-Keeps : (o : Option A) → Keeps (value o)
  value-Keeps none = record { keeps = λ db k. k }
  value-Keeps (some a) = record { keeps = λ db k. k }

  pub select-Keeps : (missing : A) (read : Tables → A) → Keeps (select missing read)
  unfolding select
  select-Keeps missing read = record { keeps = λ db k. k }

  pub statement-Keeps :
      (change : Tables → Option (A × Tables))
      → ((t : Tables) (a : A) (t' : Tables) → change t ≡ some (a, t') → Counted t → Counted t')
      → Keeps (statement change)
  statement-Keeps change h = record {
    keeps = λ db k. elim (statement-cases change db) [
      | inl e ↦ rw e k
      | inr (a, (t, (c, e))) ↦ rw e (k.0, h db.live a t c k.1)
    ];
  }

  -- A statement that always changes the tables in the same way.
  pub change-Keeps :
      (a : A) (f : Tables → Tables)
      → ((t : Tables) → Counted t → Counted (f t))
      → Keeps (statement (λ t. some (a, f t)))
  unfolding statement
  change-Keeps a f h =
      statement-Keeps (λ t. some (a, f t)) (λ t b t' e k. subst Counted (cc e) (h t k))

  -- A statement behind a condition.
  pub guarded-Keeps :
      (guard : Tables → Bool) (f : Tables → A × Tables)
      → ((t : Tables) → Counted t → Counted (f t).1)
      → Keeps (statement (λ t. if guard t then some (f t) else none))
  guarded-Keeps guard f h = record {
    keeps = λ db k. elim (guarded-cases guard f db) [
      | inl e ↦ rw e k
      | inr (b, e) ↦ rw e (k.0, h db.live k.1)
    ];
  }

  pub refused-Keeps :
      (violated : Tables → Bool) (f : Tables → A × Tables)
      → ((t : Tables) → Counted t → Counted (f t).1)
      → Keeps (statement (λ t. if violated t then none else some (f t)))
  refused-Keeps violated f h = record {
    keeps = λ db k. elim (refused-cases violated f db) [
      | inl e ↦ rw e k
      | inr (b, e) ↦ rw e (k.0, h db.live k.1)
    ];
  }

  next-Keeps :
      {B : Type 0} (r : Outcome A × Db) (f : A → Sql B)
      → Kept r.1
      → ((a : A) → Keeps (f a))
      → Kept (next r f).1
  next-Keeps (returned a, db) f k h = (h a).keeps db k
  next-Keeps (thrown x, db) f k h = k

  pub >>=-Keeps :
      {B : Type 0} (m : Sql A) (f : A → Sql B) → Keeps m → ((a : A) → Keeps (f a)) → Keeps (m >>= f)
  >>=-Keeps m f h g = record { keeps = λ db k. next-Keeps (m db) f (h.keeps db k) g }

  pub if-Keeps : (b : Bool) (m n : Sql A) → Keeps m → Keeps n → Keeps (if b then m else n)
  if-Keeps true m n h g = h
  if-Keeps false m n h g = g

module _ {A B : Type 0} where
  pub needs-Keeps :
      (text : Bytes) (m : Sql (Option A)) (f : A → Sql (Option B))
      → Keeps m
      → ((a : A) → Keeps (f a))
      → Keeps (needs text m f)
  needs-Keeps text m f h g = >>=-Keeps m _ h (elim [ none ↦ set_error-Keeps text | some a ↦ g a ])

  pub tries-Keeps :
      (m : Sql (Option A)) (f : A → Sql (Option B))
      → Keeps m
      → ((a : A) → Keeps (f a))
      → Keeps (tries m f)
  tries-Keeps m f h g = >>=-Keeps m _ h (elim [ none ↦ set_errmsg-Keeps | some a ↦ g a ])

-- From the rule for a transaction.
pub Done-Kept :
    {A : Type 0} (Q : A → Tables → Type 0) (before : Tables) (o : Outcome (Option A) × Db)
    → ((a : A) (t : Tables) → Q a t → Counted t)
    → Counted before
    → Ensures (Done Q before) (Back before) o
    → Kept o.1
Done-Kept Q before (returned none, db) h c (s, l) = (s, subst Counted (sym l) c)
Done-Kept Q before (returned (some a), db) h c (s, q) = (s, h a db.live q)
Done-Kept Q before (thrown x, db) h c (s, l) = (s, subst Counted (sym l) c)

-- Changes of the tables that keep the counters above the UIDs.
pub folders-Counted :
    (t : Tables) (fs : List Folder)
    → Grows t.folders fs
    → Counted t
    → Counted (record t { folders = fs })
unfolding Counted
folders-Counted t fs g h = All-imp t.messages (λ m. Held-Grows t.folders fs g m) h

pub update-Counted :
    (t : Tables) (p : Message → Bool) (f : Message → Message)
    → ((m : Message) → ((f m).folder_id ≡ m.folder_id) × ((f m).uid ≡ m.uid))
    → Counted t
    → Counted (record t { messages = update_where p f t.messages })
unfolding Counted
update-Counted t p f h k =
    All-update_where p f t.messages (λ m b (g, (e, l)). (g, (rw (h m).0 e, rw (h m).1 l)))
      (λ m k. k) k

pub delete-Counted :
    (t : Tables) (p : Message → Bool)
    → Counted t
    → Counted (record t { messages = delete_where p t.messages })
unfolding Counted
delete-Counted t p k = All-rows_where (λ m. not (p m)) t.messages (λ m b k. k) k

-- Changes of the other columns and tables.
pub same-Counted :
    (t t' : Tables) → Counted t → t'.folders ≡ t.folders → t'.messages ≡ t.messages → Counted t'
unfolding Counted
same-Counted t t' k e e' = rw (e, e') k
