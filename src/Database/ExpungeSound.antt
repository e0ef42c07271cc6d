-- ===== src/Database/ExpungeSound.antt =====
-- database/Repository/MessageRepository.cpp: that `expunge` deletes the messages it is meant to, and
-- no others.
use ua_5308_smtp.Prelude.{
  inl, inr, ℕ, zero, suc, ◌≤◌, Bool, true, false, ◌||◌, ◌≡◌, refl, ap, ◌∙◌, Option, none, some,
  List, [], ◌∷◌, length, take, ltb, All, Bool-cases, Option-cases, arith, ◌==◌,
}
use ua_5308_smtp.Effects.{returned}
use ua_5308_smtp.Database.Rows.{Message}
use ua_5308_smtp.Database.Engine.{Tables, Db, select, statement, transaction, end_transaction}
use ua_5308_smtp.Database.Queries.{has_row, rows_where, delete_where, insert_by, order_by, is_id}
use ua_5308_smtp.Database.Selection.{All-imp}
use ua_5308_smtp.Database.FolderDal.{delete_messages}
use ua_5308_smtp.Database.MessageDal
use ua_5308_smtp.Database.Expunging.{without, is_expunged, expunged_rows}
use ua_5308_smtp.Database.Repository.Messages.{int_max, delete_all, expunge}

swap : (a b c : Bool) → (a || (b || c)) ≡ (b || (a || c))
swap a b c = ground arith

module _ {A : Type 0} where
  delete_where-ext :
      (p q : A → Bool) (xs : List A)
      → All (λ x. p x ≡ q x) xs
      → delete_where p xs ≡ delete_where q xs
  delete_where-ext p q [] h = refl
  delete_where-ext p q (x ∷ xs) (e, h) = rw (e, delete_where-ext p q xs h) refl

  delete_where-twice :
      (p q : A → Bool) (xs : List A)
      → delete_where q (delete_where p xs) ≡ delete_where (λ x. p x || q x) xs
  delete_where-twice p q [] = refl
  delete_where-twice p q (x ∷ xs) = elim (Bool-cases (p x)) [
    | inl e ↦ rw e (delete_where-twice p q xs)
    | inr e ↦ rw (e, delete_where-twice p q xs) refl
  ]

  All-both :
      (P Q R : A → Type 0) (xs : List A)
      → ((x : A) → P x → Q x → R x)
      → All P xs
      → All Q xs
      → All R xs
  All-both P Q R [] h k l = tt
  All-both P Q R (x ∷ xs) h k l = (h x k.0 l.0, All-both P Q R xs h k.1 l.1)

  has_row-insert_by :
      (p : A → Bool) (before : A → A → Bool) (r : A) (xs : List A)
      → has_row p (insert_by before r xs) ≡ (p r || has_row p xs)
  unfolding insert_by
  has_row-insert_by p before r [] = refl
  has_row-insert_by p before r (x ∷ xs) = elim (Bool-cases (before x r)) [
    | inl e ↦ rw (e, has_row-insert_by p before r xs) (swap (p x) (p r) (has_row p xs))
    | inr e ↦ rw e refl
  ]

  has_row-order_by :
      (p : A → Bool) (before : A → A → Bool) (xs : List A)
      → has_row p (order_by before xs) ≡ has_row p xs
  unfolding order_by
  has_row-order_by p before [] = refl
  has_row-order_by p before (x ∷ xs) =
      has_row-insert_by p before x (order_by before xs)
      ∙ ap (λ b. p x || b) (has_row-order_by p before xs)

  length-insert_by :
      (before : A → A → Bool) (r : A) (xs : List A)
      → length (insert_by before r xs) ≡ suc (length xs)
  unfolding insert_by
  length-insert_by before r [] = refl
  length-insert_by before r (x ∷ xs) = elim (Bool-cases (before x r)) [
    | inl e ↦ rw (e, length-insert_by before r xs) refl
    | inr e ↦ rw e refl
  ]

  length-order_by : (before : A → A → Bool) (xs : List A) → length (order_by before xs) ≡ length xs
  unfolding order_by
  length-order_by before [] = refl
  length-order_by before (x ∷ xs) =
      length-insert_by before x (order_by before xs) ∙ ap suc (length-order_by before xs)

  length-rows_where : (p : A → Bool) (xs : List A) → length (rows_where p xs) ≤ length xs
  length-rows_where p [] = omega arith
  length-rows_where p (x ∷ xs) = elim (Bool-cases (p x)) [
    | inl e ↦ rw e (omega (arith, length-rows_where p xs))
    | inr e ↦ rw e (omega (arith, length-rows_where p xs))
  ]

  take-all : (n : ℕ) (xs : List A) → length xs ≤ n → take n xs ≡ xs
  take-all zero [] h = refl
  take-all zero (x ∷ xs) h = absurd (omega arith)
  take-all (suc n) [] h = refl
  take-all (suc n) (x ∷ xs) h = ap (◌∷◌ x) (take-all n xs (omega arith))

-- Every row has an id of its own.
unfoldable pub Identified : List Message → Type 0
Identified [] = Unit
Identified (m ∷ ms) =
    (id : ℕ) × ((m.id ≡ some id) × (All (λ x. is_id id x.id ≡ false) ms × Identified ms))

abbrev same_row : Message → Message → Bool
same_row m d = elim d.id [ none ↦ false | some id ↦ is_id id m.id ]

without-messages :
    (ds : List Message) (t : Tables)
    → (without ds t).messages ≡ delete_where (λ m. has_row (same_row m) ds) t.messages
without-messages [] t = kept t.messages
  where
    kept : (ms : List Message) → ms ≡ delete_where (λ m. false) ms
    kept [] = refl
    kept (m ∷ ms) = ap (◌∷◌ m) (kept ms)
without-messages (d ∷ ds) t = elim (Option-cases d.id) [
  | inl e ↦ rw e (without-messages ds t)
  | inr (id, e) ↦ rw e (
      without-messages ds (delete_messages (λ x. is_id id x.id) t)
      ∙ delete_where-twice (λ m. is_id id m.id) (λ m. has_row (same_row m) ds) t.messages)
]

others-same :
    (id : ℕ) (m : Message) (p : Message → Bool) (ms : List Message)
    → m.id ≡ some id
    → All (λ x. is_id id x.id ≡ false) ms
    → has_row (same_row m) (rows_where p ms) ≡ false
others-same id m p [] e h = refl
others-same id m p (x ∷ ms) e (n, h) = elim (Bool-cases (p x)) [
  | inl b ↦ rw (b, other x.id n) (others-same id m p ms e h)
  | inr b ↦ rw b (others-same id m p ms e h)
]
  where
    other :
        (o : Option ℕ)
        → is_id id o ≡ false
        → (elim o [ none ↦ false | some i ↦ is_id i m.id ]) ≡ false
    other none k = refl
    other (some i) k = rw e (ground arith)

selected-same :
    (p : Message → Bool) (ms : List Message)
    → Identified ms
    → All (λ m. has_row (same_row m) (rows_where p ms) ≡ p m) ms
unfolding Identified
selected-same p [] h = tt
selected-same p (m ∷ ms) (id, (e, (n, h))) =
    (head, All-both _ _ _ ms later n (selected-same p ms h))
  where
    self : (i : ℕ) → (i == i) ≡ true
    self i = ground arith

    head : has_row (same_row m) (rows_where p (m ∷ ms)) ≡ p m
    head = elim (Bool-cases (p m)) [
      | inl b ↦ rw (b, e, self id) refl
      | inr b ↦ rw b (others-same id m p ms e n)
    ]

    later :
        (x : Message)
        → is_id id x.id ≡ false
        → has_row (same_row x) (rows_where p ms) ≡ p x
        → has_row (same_row x) (rows_where p (m ∷ ms)) ≡ p x
    later x k l = elim (Bool-cases (p m)) [ inl b ↦ rw (b, e, k) l | inr b ↦ rw b l ]

-- The rows that `expunge` reads are all that it is meant to delete.
expunged-same :
    (limit folder_id : ℕ) (t : Tables)
    → Identified t.messages
    → length t.messages ≤ limit
    → All
        (λ m. has_row (same_row m) (expunged_rows limit folder_id t) ≡ is_expunged folder_id m)
        t.messages
unfolding expunged_rows
expunged-same limit folder_id t h l =
    All-imp t.messages
      (λ m e. ap (has_row (same_row m)) whole ∙ has_row-order_by (same_row m) _ selected ∙ e)
      (selected-same (is_expunged folder_id) t.messages h)
  where
    selected : List Message
    selected = rows_where (is_expunged folder_id) t.messages

    whole :
        take limit (order_by (λ m n. ltb m.uid n.uid) selected)
        ≡ order_by (λ m n. ltb m.uid n.uid) selected
    whole = take-all limit _ (
        omega (
          arith,
          l,
          length-order_by (λ (m n : Message). ltb m.uid n.uid) selected,
          length-rows_where (is_expunged folder_id) t.messages,
        ))

delete_all-runs :
    (ms : List Message) (db : Db)
    → db.faults ≡ []
    → delete_all ms db ≡ (returned (some tt), record db { live = without ms db.live })
unfolding delete_all MessageDal.hard_delete statement
delete_all-runs [] db f = refl
delete_all-runs (m ∷ ms) db f = elim (Option-cases m.id) [
  | inl e ↦ rw e (delete_all-runs ms db f)
  | inr (id, e) ↦
      rw (e, f)
        (delete_all-runs ms
          (record db { live = delete_messages (λ x. is_id id x.id) db.live; faults = [] }) refl)
]

expunge-runs :
    (folder_id : ℕ) (db : Db)
    → db.saved ≡ none
    → db.faults ≡ []
    → expunge folder_id db ≡ (
      returned (some tt),
      record db { live = without (expunged_rows int_max folder_id db.live) db.live },
    )
unfolding expunge MessageDal.find_deleted select transaction end_transaction expunged_rows
expunge-runs folder_id db s f =
    rw
      (
        f,
        s,
        delete_all-runs (expunged_rows int_max folder_id db.live)
            (record db { saved = some db.live; faults = [] }) refl,
      )
      refl

-- Where nothing is refused, no transaction is open, every row has an id of its own and there are at
-- most INT_MAX messages, `expunge` succeeds and leaves exactly the messages that are in another
-- folder or not marked as deleted, in their order.
pub expunge-messages :
    (folder_id : ℕ) (db : Db)
    → db.saved ≡ none
    → db.faults ≡ []
    → Identified db.live.messages
    → length db.live.messages ≤ int_max
    → ((expunge folder_id db).0 ≡ returned (some tt))
      × ((expunge folder_id db).1.live.messages
          ≡ delete_where (is_expunged folder_id) db.live.messages)
expunge-messages folder_id db s f h l = rw (expunge-runs folder_id db s f) (
  refl,
  without-messages (expunged_rows int_max folder_id db.live) db.live
      ∙ delete_where-ext _ (is_expunged folder_id) db.live.messages
          (expunged-same int_max folder_id db.live h l),
)
