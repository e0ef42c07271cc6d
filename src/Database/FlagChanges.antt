-- ===== src/Database/FlagChanges.antt =====
-- database/Repository/MessageRepository.cpp: what `setFlags` makes of the flags of a message.
use ua_5308_smtp.Prelude.{
  ◌⊎◌, inl, inr, ℕ, Bool, true, false, ◌&&◌, ◌||◌, ◌≡◌, refl, ap, ◌∙◌, Option, none, some, List, [],
  ◌∷◌, if◌then◌else◌, Bytes, codes, map, arith, ◌==◌, Bool-cases,
}
use ua_5308_smtp.Effects.{returned}
use ua_5308_smtp.Database.Rows.{Message}
use ua_5308_smtp.Database.Engine.{Db, select, statement}
use ua_5308_smtp.Database.Queries.{find_row, update_where, is_id}
use ua_5308_smtp.Database.MessageDal.{Flags, flags_of, with_flags}
use ua_5308_smtp.Database.MessageDal
use ua_5308_smtp.Database.Repository.Flagging.{
  no_flags, plus, minus, is_prefixed, has_prefix, flag_name, flag_value, set_flag, apply_flags,
  start_flags, write_back, set_flags,
}

-- A flag, its name, and whether it is set.
pub data Flag : Type 0 where
  seen deleted draft answered flagged recent : Flag

abbrev pub flag_text : Flag → Bytes
flag_text seen = codes "\\Seen"
flag_text deleted = codes "\\Deleted"
flag_text draft = codes "\\Draft"
flag_text answered = codes "\\Answered"
flag_text flagged = codes "\\Flagged"
flag_text recent = codes "\\Recent"

abbrev pub has : Flag → Flags → Bool
has seen f = f.seen
has deleted f = f.deleted
has draft f = f.draft
has answered f = f.answered
has flagged f = f.flagged
has recent f = f.recent

abbrev put : Flag → Bool → Flags → Flags
put seen b f = record f { seen = b }
put deleted b f = record f { deleted = b }
put draft b f = record f { draft = b }
put answered b f = record f { answered = b }
put flagged b f = record f { flagged = b }
put recent b f = record f { recent = b }

abbrev number : Flag → ℕ
number seen = 0
number deleted = 1
number draft = 2
number answered = 3
number flagged = 4
number recent = 5

abbrev pub same_flag : Flag → Flag → Bool
same_flag x y = number x == number y

has-put :
    (x y : Flag) (b : Bool) (f : Flags) → has y (put x b f) ≡ (if same_flag x y then b else has y f)
has-put x y b f = ground arith

set_flag-put : (x : Flag) (b : Bool) (f : Flags) → set_flag (flag_text x) b f ≡ some (put x b f)
unfolding set_flag
set_flag-put seen b f = refl
set_flag-put deleted b f = refl
set_flag-put draft b f = refl
set_flag-put answered b f = refl
set_flag-put flagged b f = refl
set_flag-put recent b f = refl

-- A change of a flag, as a client writes it: with a sign or without one.
pub data Change : Type 0 where
  add remove bare : Flag → Change

abbrev pub change_text : Change → Bytes
change_text (add x) = plus ∷ flag_text x
change_text (remove x) = minus ∷ flag_text x
change_text (bare x) = flag_text x

abbrev flag_of : Change → Flag
flag_of (add x) = x
flag_of (remove x) = x
flag_of (bare x) = x

abbrev is_set : Change → Bool
is_set (add x) = true
is_set (remove x) = false
is_set (bare x) = true

abbrev is_signed : Change → Bool
is_signed (bare x) = false
is_signed _ = true

abbrev pub any_signed : List Change → Bool
any_signed [] = false
any_signed (c ∷ cs) = is_signed c || any_signed cs

-- What the changes make of a flag: the last one that is about it counts.
abbrev pub final : Flag → List Change → Bool → Bool
final x [] b = b
final x (c ∷ cs) b = final x cs (if same_flag (flag_of c) x then is_set c else b)

bare-prefix : (x : Flag) → is_prefixed (flag_text x) ≡ false
bare-prefix seen = refl
bare-prefix deleted = refl
bare-prefix draft = refl
bare-prefix answered = refl
bare-prefix flagged = refl
bare-prefix recent = refl

has_prefix-map : (cs : List Change) → has_prefix (map change_text cs) ≡ any_signed cs
unfolding has_prefix
has_prefix-map [] = refl
has_prefix-map (add x ∷ cs) = refl
has_prefix-map (remove x ∷ cs) = refl
has_prefix-map (bare x ∷ cs) = rw (bare-prefix x) (has_prefix-map cs)

bare-name : (x : Flag) → (flag_name (flag_text x) ≡ flag_text x) × (flag_value (flag_text x) ≡ true)
unfolding flag_name flag_value
bare-name seen = (refl, refl)
bare-name deleted = (refl, refl)
bare-name draft = (refl, refl)
bare-name answered = (refl, refl)
bare-name flagged = (refl, refl)
bare-name recent = (refl, refl)

text-reads :
    (c : Change)
    → (flag_name (change_text c) ≡ flag_text (flag_of c)) × (flag_value (change_text c) ≡ is_set c)
unfolding flag_name flag_value
text-reads (add x) = (refl, refl)
text-reads (remove x) = (refl, refl)
text-reads (bare x) = bare-name x

change-puts :
    (c : Change) (f : Flags)
    → set_flag (flag_name (change_text c)) (flag_value (change_text c)) f
      ≡ some (put (flag_of c) (is_set c) f)
change-puts c f = rw ((text-reads c).0, (text-reads c).1) (set_flag-put (flag_of c) (is_set c) f)

apply_flags-nil : (f : Flags) → apply_flags [] f ≡ inl f
unfolding apply_flags
apply_flags-nil f = refl

apply_flags-cons :
    (text : Bytes) (texts : List Bytes) (f g : Flags)
    → set_flag (flag_name text) (flag_value text) f ≡ some g
    → apply_flags (text ∷ texts) f ≡ apply_flags texts g
unfolding apply_flags
apply_flags-cons text texts f g e =
    ap {A = Option Flags}
      (λ o. elim o as (λ _. Flags ⊎ Bytes) [
        | none ↦ inr (flag_name text)
        | some h ↦ apply_flags texts h
      ])
      e

apply_flags-final :
    (cs : List Change) (f : Flags)
    → (g : Flags) × ((apply_flags (map change_text cs) f ≡ inl g)
        × ((x : Flag) → has x g ≡ final x cs (has x f)))
apply_flags-final [] f = (f, (apply_flags-nil f, λ x. refl))
apply_flags-final (c ∷ cs) f =
    let (g, (e, h)) = apply_flags-final cs (put (flag_of c) (is_set c) f) in
    (
      g,
      (
        apply_flags-cons (change_text c) (map change_text cs) f _ (change-puts c f) ∙ e,
        λ x. h x ∙ ap (final x cs) (has-put (flag_of c) x (is_set c) f),
      ),
    )

has-start :
    (cs : List Change) (f : Flags) (x : Flag)
    → has x (start_flags (map change_text cs) f) ≡ (any_signed cs && has x f)
unfolding start_flags
has-start cs f x =
    rw (has_prefix-map cs)
      (elim (Bool-cases (any_signed cs)) [ inl e ↦ rw e refl | inr e ↦ rw e (has-none x) ])
  where
    has-none : (x : Flag) → has x no_flags ≡ false
    has-none x = ground arith

set_flags-applied :
    (id : ℕ) (msg : Message) (texts : List Bytes) (g : Flags) (db : Db)
    → db.saved ≡ none
    → db.faults ≡ []
    → find_row (λ (m : Message). is_id id m.id) db.live.messages ≡ some msg
    → apply_flags texts (start_flags texts (flags_of msg)) ≡ inl g
    → set_flags id texts db ≡ (
      returned (some tt),
      record db {
        live = record db.live {
          messages = update_where (λ (m : Message). is_id id m.id) (with_flags g) db.live.messages;
        };
      },
    )
unfolding set_flags MessageDal.find_by_id MessageDal.update_flags MessageDal.update_by_id select
    statement
set_flags-applied id msg texts g db s f e a =
    rw (f, s, e)
      (ap {A = Flags ⊎ Bytes} (λ o. write_back id o (record db { saved = none; faults = [] })) a)

-- `setFlags` with any changes of known flags, on a message of the table and where nothing is refused,
-- succeeds and writes flags to the row such that a flag is what the last change about it says.
-- Without a change about it, it is as before where some change has a sign, and clear where none has.
pub set_flags-final :
    (id : ℕ) (msg : Message) (cs : List Change) (db : Db)
    → db.saved ≡ none
    → db.faults ≡ []
    → find_row (λ (m : Message). is_id id m.id) db.live.messages ≡ some msg
    → (g : Flags) × ((set_flags id (map change_text cs) db ≡ (
      returned (some tt),
      record db {
        live = record db.live {
          messages = update_where (λ (m : Message). is_id id m.id) (with_flags g) db.live.messages;
        };
      },
    ))
        × ((x : Flag) → has x g ≡ final x cs (any_signed cs && has x (flags_of msg))))
set_flags-final id msg cs db s f e =
    let (g, (a, h)) = apply_flags-final cs (start_flags (map change_text cs) (flags_of msg)) in
    (
      g,
      (
        set_flags-applied id msg (map change_text cs) g db s f e a,
        λ x. h x ∙ ap (final x cs) (has-start cs (flags_of msg) x),
      ),
    )
