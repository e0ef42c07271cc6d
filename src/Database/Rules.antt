-- ===== src/Database/Rules.antt =====
-- Postconditions of the code over the database: a rule for each construct of the repositories.
use ua_5308_smtp.Prelude.{
  ◌⊎◌, inl, inr, Bool, true, false, ◌≡◌, refl, Option, none, some, Bytes, if◌then◌else◌, Bool-cases,
  Option-cases,
}
use ua_5308_smtp.Effects.{Outcome, returned, thrown}
use ua_5308_smtp.Effects.Ensures.{Ensures}
use ua_5308_smtp.Database.Engine.{
  Tables, Db, Sql, committed, spend, is_fault, select, statement, rollback, end_transaction,
  transaction,
}

-- What a SELECT and a statement come to. Where a statement is refused, nothing is known of `change`.
pub select-cases :
    {A : Type 0} (read : Tables → Option A) (db : Db)
    → (select none read db ≡ (returned none, spend db))
      ⊎ ((a : A) × ((read (committed db) ≡ some a)
            × (select none read db ≡ (returned (some a), spend db))))
unfolding select
select-cases read db = elim (Bool-cases (is_fault db.faults)) [
  | inl e ↦ inl (rw e refl)
  | inr e ↦ elim (Option-cases (read (committed db))) [
    | inl c ↦ inl (rw (e, c) refl)
    | inr (a, c) ↦ inr (a, (c, rw (e, c) refl))
  ]
]

pub statement-cases :
    {A : Type 0} (change : Tables → Option (A × Tables)) (db : Db)
    → (statement change db ≡ (returned none, spend db))
      ⊎ ((a : A) × ((t : Tables) × ((change db.live ≡ some (a, t))
              × (statement change db ≡ (returned (some a), record (spend db) { live = t })))))
unfolding statement
statement-cases change db = elim (Bool-cases (is_fault db.faults)) [
  | inl e ↦ inl (rw e refl)
  | inr e ↦ elim (Option-cases (change db.live)) [
    | inl c ↦ inl (rw (e, c) refl)
    | inr ((a, t), c) ↦ inr (a, (t, (c, rw (e, c) refl)))
  ]
]

-- A change that no constraint is about, and one that a condition guards.
pub always-cases :
    {A : Type 0} (a : A) (f : Tables → Tables) (db : Db)
    → (statement (λ t. some (a, f t)) db ≡ (returned none, spend db))
      ⊎ (statement (λ t. some (a, f t)) db
          ≡ (returned (some a), record (spend db) { live = f db.live }))
unfolding statement
always-cases a f db = elim (Bool-cases (is_fault db.faults)) [
  | inl e ↦ inl (rw e refl)
  | inr e ↦ inr (rw e refl)
]

pub guarded-cases :
    {A : Type 0} (guard : Tables → Bool) (change : Tables → A × Tables) (db : Db)
    → let run : Sql (Option A) = statement (λ t. if guard t then some (change t) else none) in
      (run db ≡ (returned none, spend db))
      ⊎ ((guard db.live ≡ true)
          × (run db ≡ (
            returned (some (change db.live).0),
            record (spend db) { live = (change db.live).1 },
          )))
unfolding statement
guarded-cases guard change db = elim (Bool-cases (is_fault db.faults)) [
  | inl e ↦ inl (rw e refl)
  | inr e ↦ elim (Bool-cases (guard db.live)) [
    | inl c ↦ inr (c, rw (e, c) refl)
    | inr c ↦ inl (rw (e, c) refl)
  ]
]

pub refused-cases :
    {A : Type 0} (violated : Tables → Bool) (change : Tables → A × Tables) (db : Db)
    → let run : Sql (Option A) = statement (λ t. if violated t then none else some (change t)) in
      (run db ≡ (returned none, spend db))
      ⊎ ((violated db.live ≡ false)
          × (run db ≡ (
            returned (some (change db.live).0),
            record (spend db) { live = (change db.live).1 },
          )))
unfolding statement
refused-cases violated change db = elim (Bool-cases (is_fault db.faults)) [
  | inl e ↦ inl (rw e refl)
  | inr e ↦ elim (Bool-cases (violated db.live)) [
    | inl c ↦ inl (rw (e, c) refl)
    | inr c ↦ inr (c, rw (e, c) refl)
  ]
]

-- In a transaction that began on the tables `before`, and behind it: what a result says of the tables.
abbrev pub Working : {A : Type 0} → (A → Tables → Type 0) → Tables → Option A → Db → Type 0
Working Q before none db = db.saved ≡ some before
Working Q before (some a) db = (db.saved ≡ some before) × Q a db.live

abbrev pub Done : {A : Type 0} → (A → Tables → Type 0) → Tables → Option A → Db → Type 0
Done Q before none db = (db.saved ≡ none) × (db.live ≡ before)
Done Q before (some a) db = (db.saved ≡ none) × Q a db.live

abbrev pub Back : Tables → Db → Type 0
Back before db = (db.saved ≡ none) × (db.live ≡ before)

pub committed-closed : (db : Db) → db.saved ≡ none → committed db ≡ db.live
committed-closed db e = rw e refl

rollback-Back : (before : Tables) (db : Db) → db.saved ≡ some before → Back before (rollback db)
rollback-Back before db e = rw e (refl, refl)

module _ {A : Type 0} (Q : A → Tables → Type 0) (refused : Bytes) (before : Tables) where
  end_transaction-Done :
      (o : Outcome (Option A) × Db)
      → Ensures (Working Q before) (λ db. db.saved ≡ some before) o
      → Ensures (Done Q before) (Back before) (end_transaction refused o)
  unfolding end_transaction
  end_transaction-Done (thrown x, db) h = rollback-Back before db h
  end_transaction-Done (returned none, db) h = rollback-Back before db h
  end_transaction-Done (returned (some a), db) (h, q) = elim (Bool-cases (is_fault db.faults)) [
    | inl e ↦ rw e (rollback-Back before (record (spend db) { last_error = refused }) h)
    | inr e ↦ rw e (refl, q)
  ]

module _ {A : Type 0} (Q : A → Tables → Type 0) (no_begin refused : Bytes) (body : Sql (Option A))
    (db : Db) where
  pub transaction-rule :
      db.saved ≡ none
      → Ensures
          (Working Q db.live)
          (λ db'. db'.saved ≡ some db.live)
          (body (record (spend db) { saved = some db.live }))
      → Ensures (Done Q db.live) (Back db.live) (transaction no_begin refused body db)
  unfolding transaction
  transaction-rule e h = elim (Bool-cases (is_fault db.faults)) [
    | inl f ↦ rw f (e, refl)
    | inr f ↦ rw (f, e) (end_transaction-Done Q refused db.live _ h)
  ]

pub Working-imp :
    {A : Type 0} (Q Q' : A → Tables → Type 0) (before : Tables) (o : Outcome (Option A) × Db)
    → ((a : A) (t : Tables) → Q a t → Q' a t)
    → Ensures (Working Q before) (λ db. db.saved ≡ some before) o
    → Ensures (Working Q' before) (λ db. db.saved ≡ some before) o
Working-imp Q Q' before (returned none, db) h k = k
Working-imp Q Q' before (returned (some a), db) h (s, q) = (s, h a db.live q)
Working-imp Q Q' before (thrown x, db) h k = k
