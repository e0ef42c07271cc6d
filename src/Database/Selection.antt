-- ===== src/Database/Selection.antt =====
-- What the clauses of the SQL statements do to the first row of a kind, and to what holds of all rows.
use ua_5308_smtp.Prelude.{
  inl, inr, Bool, true, false, ◌≡◌, refl, Option, none, some, List, [], ◌∷◌, ◌++◌, if◌then◌else◌,
  All, Bool-cases, ◌||◌,
}
use ua_5308_smtp.Database.Queries.{find_row, rows_where, has_row, delete_where, update_where}

module _ {ℓ} {A : Type ℓ} where
  abbrev pub option_map : (A → A) → Option A → Option A
  option_map f none = none
  option_map f (some x) = some (f x)

  -- An UPDATE that leaves the condition of a search as it is.
  pub find_row-update_where :
      (p q : A → Bool) (f : A → A) (xs : List A)
      → ((x : A) → q x ≡ true → p (f x) ≡ p x)
      → find_row p (update_where q f xs) ≡ option_map (λ x. if q x then f x else x) (find_row p xs)
  find_row-update_where p q f [] h = refl
  find_row-update_where p q f (x ∷ xs) h = elim (Bool-cases (q x)) [
    | inl e ↦ elim (Bool-cases (p x)) [
      | inl e' ↦ rw (e, h x e, e', e) refl
      | inr e' ↦ rw (e, h x e, e') (find_row-update_where p q f xs h)
    ]
    | inr e ↦ elim (Bool-cases (p x)) [
      | inl e' ↦ rw (e, e', e) refl
      | inr e' ↦ rw (e, e') (find_row-update_where p q f xs h)
    ]
  ]

  pub find_row-append :
      (p : A → Bool) (xs ys : List A) (x : A)
      → find_row p xs ≡ some x
      → find_row p (xs ++ ys) ≡ some x
  find_row-append p [] ys x h = cc
  find_row-append p (y ∷ xs) ys x h = elim (Bool-cases (p y)) [
    | inl e ↦ rw e (rw e at h)
    | inr e ↦ rw e (find_row-append p xs ys x (rw e at h))
  ]

  -- The row that is found satisfies the condition.
  pub find_row-holds : (p : A → Bool) (xs : List A) (x : A) → find_row p xs ≡ some x → p x ≡ true
  find_row-holds p [] x h = cc
  find_row-holds p (y ∷ xs) x h = elim (Bool-cases (p y)) [
    | inl e ↦ cc (e, rw e at h)
    | inr e ↦ find_row-holds p xs x (rw e at h)
  ]

  -- A DELETE that takes no row of the kind.
  pub find_row-delete_where :
      (p q : A → Bool) (xs : List A)
      → has_row p (rows_where q xs) ≡ false
      → find_row p (delete_where q xs) ≡ find_row p xs
  find_row-delete_where p q [] h = refl
  find_row-delete_where p q (x ∷ xs) h = elim (Bool-cases (q x)) [
    | inl e ↦ elim (Bool-cases (p x)) [
      | inl e' ↦ cc (rw (e, e') at h)
      | inr e' ↦ rw (e, e') (find_row-delete_where p q xs (rw (e, e') at h))
    ]
    | inr e ↦ elim (Bool-cases (p x)) [
      | inl e' ↦ rw (e, e') refl
      | inr e' ↦ rw (e, e') (find_row-delete_where p q xs (rw e at h))
    ]
  ]

  pub has_row-append :
      (p : A → Bool) (xs ys : List A) → has_row p (xs ++ ys) ≡ (has_row p xs || has_row p ys)
  has_row-append p [] ys = refl
  has_row-append p (x ∷ xs) ys = elim (Bool-cases (p x)) [
    | inl e ↦ rw e refl
    | inr e ↦ rw e (has_row-append p xs ys)
  ]

  module _ {κ} {P : A → Type κ} where
    -- What holds of all rows, of the rows that a DELETE or a SELECT leaves, and of the rows behind an UPDATE.
    pub All-imp : {Q : A → Type κ} (xs : List A) → ((x : A) → P x → Q x) → All P xs → All Q xs
    All-imp [] h k = tt
    All-imp (x ∷ xs) h k = (h x k.0, All-imp xs h k.1)

    pub All-rows_where :
        {Q : A → Type κ} (p : A → Bool) (xs : List A)
        → ((x : A) → p x ≡ true → P x → Q x)
        → All P xs
        → All Q (rows_where p xs)
    All-rows_where p [] h k = tt
    All-rows_where p (x ∷ xs) h k = elim (Bool-cases (p x)) [
      | inl e ↦ rw e (h x e k.0, All-rows_where p xs h k.1)
      | inr e ↦ rw e (All-rows_where p xs h k.1)
    ]

    pub All-update_where :
        {Q : A → Type κ} (p : A → Bool) (f : A → A) (xs : List A)
        → ((x : A) → p x ≡ true → P x → Q (f x))
        → ((x : A) → P x → Q x)
        → All P xs
        → All Q (update_where p f xs)
    All-update_where p f [] h g k = tt
    All-update_where p f (x ∷ xs) h g k = elim (Bool-cases (p x)) [
      | inl e ↦ rw e (h x e k.0, All-update_where p f xs h g k.1)
      | inr e ↦ rw e (g x k.0, All-update_where p f xs h g k.1)
    ]
