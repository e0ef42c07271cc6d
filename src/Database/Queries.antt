-- ===== src/Database/Queries.antt =====
-- The clauses of the SQL statements in database/DAL, on lists of rows.
use ua_5308_smtp.Prelude.{
  ℕ, Bool, true, false, not, ◌&&◌, ◌||◌, Option, none, some, List, [], ◌∷◌, ◌==◌, ltb, Bytes,
  if◌then◌else◌, map, take, drop,
}

-- `WHERE … LIMIT 1`, in the order of the rows.
abbrev pub find_row {ℓ} : {A : Type ℓ} → (A → Bool) → List A → Option A
find_row p [] = none
find_row p (r ∷ rs) = if p r then some r else find_row p rs

-- `WHERE`
abbrev pub rows_where {ℓ} : {A : Type ℓ} → (A → Bool) → List A → List A
rows_where p [] = []
rows_where p (r ∷ rs) = let rest = rows_where p rs in if p r then r ∷ rest else rest

abbrev pub has_row {ℓ} : {A : Type ℓ} → (A → Bool) → List A → Bool
has_row p [] = false
has_row p (r ∷ rs) = p r || has_row p rs

-- `DELETE … WHERE` and `UPDATE … WHERE`
abbrev pub delete_where {ℓ} : {A : Type ℓ} → (A → Bool) → List A → List A
delete_where p = rows_where (λ r. not (p r))

abbrev pub update_where {ℓ} : {A : Type ℓ} → (A → Bool) → (A → A) → List A → List A
update_where p f = map (λ r. if p r then f r else r)

-- `ORDER BY`, by insertion; rows with equal keys keep their order.
unfoldable pub insert_by {ℓ} : {A : Type ℓ} → (A → A → Bool) → A → List A → List A
insert_by before r [] = r ∷ []
insert_by before r (s ∷ rs) =
    let later = insert_by before r rs in if before s r then s ∷ later else r ∷ s ∷ rs

unfoldable pub order_by {ℓ} : {A : Type ℓ} → (A → A → Bool) → List A → List A
unfolding insert_by
order_by before [] = []
order_by before (r ∷ rs) = insert_by before r (order_by before rs)

-- `LIMIT ? OFFSET ?`
abbrev pub page {ℓ} : {A : Type ℓ} → ℕ → ℕ → List A → List A
page limit offset rows = take limit (drop offset rows)

-- The order of texts, byte by byte.
unfoldable pub text_before : Bytes → Bytes → Bool
text_before [] [] = false
text_before [] (d ∷ t) = true
text_before (c ∷ s) [] = false
text_before (c ∷ s) (d ∷ t) = ltb c d || (c == d && text_before s t)

-- A row id.
abbrev pub is_id : ℕ → Option ℕ → Bool
is_id n none = false
is_id n (some k) = k == n

-- The text that `sqlite3_bind_text` takes from `c_str()` with the length -1: the bytes in front of the
-- first NUL.
abbrev pub c_str : Bytes → Bytes
c_str [] = []
c_str (c ∷ s) = if c == 0 then [] else c ∷ c_str s

-- `bindOptText`
abbrev pub c_str? : Option Bytes → Option Bytes
c_str? none = none
c_str? (some s) = some (c_str s)
