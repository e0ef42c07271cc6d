-- ===== src/Database/Counters.antt =====
-- The UIDs of the messages and the counters of the folders.
use ua_5308_smtp.Prelude.{
  inl, inr, ℕ, ◌<◌, ◌≤◌, true, ◌≡◌, refl, sym, ap, subst, ◌∙◌, Option, none, some, List, ◌++◌,
  if◌then◌else◌, ==_iff, All, Bool-cases, arith,
}
use ua_5308_smtp.Database.Rows.{Folder, Message}
use ua_5308_smtp.Database.Engine.{Tables}
use ua_5308_smtp.Database.Queries.{find_row, update_where, is_id}
use ua_5308_smtp.Database.Selection.{
  option_map, find_row-update_where, find_row-append, find_row-holds,
}

abbrev pub row_of : ℕ → List Folder → Option Folder
row_of id = find_row (λ f. is_id id f.id)

-- A message lies in a folder of the table, and the counter of the folder is above its UID.
abbrev pub Held : List Folder → Message → Type 0
Held folders m = (f : Folder) × ((row_of m.folder_id folders ≡ some f) × (m.uid < f.next_uid))

unfoldable pub Counted : Tables → Type 0
Counted t = All (Held t.folders) t.messages

pub is_id-some : (i : ℕ) (o : Option ℕ) → is_id i o ≡ true → o ≡ some i
is_id-some i none h = cc
is_id-some i (some n) h = ap some ((==_iff n i).0 h)

pub is_id_unique : (i j : ℕ) (o : Option ℕ) → is_id i o ≡ true → is_id j o ≡ true → i ≡ j
is_id_unique i j none h k = cc
is_id_unique i j (some n) h k = ground arith

-- Every folder is there still, and no counter went back.
abbrev pub Grows : List Folder → List Folder → Type 0
Grows fs gs =
    (id : ℕ) (f : Folder)
    → row_of id fs ≡ some f
    → (g : Folder) × ((row_of id gs ≡ some g) × (f.next_uid ≤ g.next_uid))

pub Held-Grows : (fs gs : List Folder) → Grows fs gs → (m : Message) → Held fs m → Held gs m
Held-Grows fs gs h m (f, (e, k)) =
    let (g, (e', k')) = h m.folder_id f e in (g, (e', omega (arith, k, k')))

pub Grows-append : (fs gs : List Folder) → Grows fs (fs ++ gs)
Grows-append fs gs id f e = (f, (find_row-append (λ f. is_id id f.id) fs gs f e, omega arith))

pub Grows-update_where :
    (id : ℕ) (change : Folder → Folder) (fs : List Folder)
    → ((f : Folder) → is_id id f.id ≡ true → is_id id (change f).id ≡ true)
    → ((f : Folder) → row_of id fs ≡ some f → f.next_uid ≤ (change f).next_uid)
    → Grows fs (update_where (λ f. is_id id f.id) change fs)
Grows-update_where id change fs h g k f e = elim (Bool-cases (is_id id f.id)) [
  | inl b ↦ (
    change f,
    (
      found ∙ rw (e, b) refl,
      g f (subst (λ i. row_of i fs ≡ some f) (is_id_unique k id f.id at_k b) e),
    ),
  )
  | inr b ↦ (f, (found ∙ rw (e, b) refl, omega arith))
]
  where
    at_k : is_id k f.id ≡ true
    at_k = find_row-holds (λ f. is_id k f.id) fs f e

    keeps : (x : Folder) → is_id id x.id ≡ true → is_id k (change x).id ≡ is_id k x.id
    keeps x b = ap (is_id k) (is_id-some id (change x).id (h x b) ∙ sym (is_id-some id x.id b))

    found :
        row_of k (update_where (λ f. is_id id f.id) change fs)
        ≡ option_map (λ x. if is_id id x.id then change x else x) (row_of k fs)
    found = find_row-update_where (λ f. is_id k f.id) (λ f. is_id id f.id) change fs keeps

-- The row of the folder that is updated.
pub row_of-update_where :
    (id : ℕ) (change : Folder → Folder) (fs : List Folder) (f : Folder)
    → ((f : Folder) → is_id id f.id ≡ true → is_id id (change f).id ≡ true)
    → row_of id fs ≡ some f
    → row_of id (update_where (λ f. is_id id f.id) change fs) ≡ some (change f)
row_of-update_where id change fs f h e =
    find_row-update_where (λ f. is_id id f.id) (λ f. is_id id f.id) change fs (λ x b. h x b ∙ sym b)
    ∙ rw (e, find_row-holds (λ f. is_id id f.id) fs f e) refl
