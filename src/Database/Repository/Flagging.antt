-- ===== src/Database/Repository/Flagging.antt =====
-- database/Repository/MessageRepository.cpp: the flags of a message.
use ua_5308_smtp.Prelude.{
  ℕ, ◌⊎◌, inl, inr, Bool, true, false, ◌||◌, Option, none, some, List, [], ◌∷◌, ◌++◌, ◌==◌, Bytes,
  codes, equal, if◌then◌else◌,
}
use ua_5308_smtp.Database.Engine.{Sql, needs, set_error}
use ua_5308_smtp.Database.MessageDal.{Flags, flags_of}
use ua_5308_smtp.Database.MessageDal

unfoldable pub mark_seen : ℕ → Bool → Sql (Option (Unit {0}))
mark_seen = MessageDal.update_seen

unfoldable pub mark_deleted : ℕ → Bool → Sql (Option (Unit {0}))
mark_deleted = MessageDal.update_deleted

-- The other flags are written back as they were read.
abbrev pub marked : Bytes → (Flags → Flags) → ℕ → Sql (Option (Unit {0}))
marked text change id =
    needs text (MessageDal.find_by_id id)
      (λ msg. MessageDal.update_flags id (change (flags_of msg)))

unfoldable pub mark_flagged : ℕ → Bool → Sql (Option (Unit {0}))
mark_flagged id flagged =
    marked (codes "markFlagged: message not found") (λ f. record f { flagged = flagged }) id

unfoldable pub mark_answered : ℕ → Bool → Sql (Option (Unit {0}))
mark_answered id answered =
    marked (codes "markAnswered: message not found") (λ f. record f { answered = answered }) id

unfoldable pub mark_draft : ℕ → Bool → Sql (Option (Unit {0}))
mark_draft id draft =
    marked (codes "markDraft: message not found") (λ f. record f { draft = draft }) id

unfoldable pub update_flags : ℕ → Flags → Sql (Option (Unit {0}))
update_flags = MessageDal.update_flags

-- '+' and '-'
abbrev pub plus : ℕ
plus = 43

abbrev pub minus : ℕ
minus = 45

abbrev pub is_prefixed : Bytes → Bool
is_prefixed [] = false
is_prefixed (c ∷ cs) = c == plus || c == minus

unfoldable pub has_prefix : List Bytes → Bool
has_prefix [] = false
has_prefix (flag ∷ flags) = is_prefixed flag || has_prefix flags

abbrev pub no_flags : Flags
no_flags = record {
  seen = false;
  deleted = false;
  draft = false;
  answered = false;
  flagged = false;
  recent = false;
}

-- The value that a flag of the list is set to, and its name.
unfoldable pub flag_value : Bytes → Bool
flag_value [] = true
flag_value (c ∷ cs) = if c == minus then false else true

unfoldable pub flag_name : Bytes → Bytes
flag_name [] = []
flag_name (c ∷ cs) = if c == minus then cs else if c == plus then cs else c ∷ cs

-- `none` for a name that is not known.
unfoldable pub set_flag : Bytes → Bool → Flags → Option Flags
set_flag name b f =
    if equal name (codes "\\Seen")
    then some (record f { seen = b })
    else if equal name (codes "\\Deleted")
    then some (record f { deleted = b })
    else if equal name (codes "\\Draft")
    then some (record f { draft = b })
    else if equal name (codes "\\Answered")
    then some (record f { answered = b })
    else if equal name (codes "\\Flagged")
    then some (record f { flagged = b })
    else if equal name (codes "\\Recent")
    then some (record f { recent = b })
    else none

-- The flags that the list makes of some flags, or the name that is not known.
unfoldable pub apply_flags : List Bytes → Flags → Flags ⊎ Bytes
unfolding flag_value flag_name set_flag
apply_flags [] f = inl f
apply_flags (flag ∷ flags) f = elim (set_flag (flag_name flag) (flag_value flag) f) [
  | none ↦ inr (flag_name flag)
  | some g ↦ apply_flags flags g
]

-- A list without a sign stands for all the flags that are set.
unfoldable pub start_flags : List Bytes → Flags → Flags
unfolding has_prefix
start_flags flags f = if has_prefix flags then f else no_flags

abbrev pub write_back : ℕ → Flags ⊎ Bytes → Sql (Option (Unit {0}))
write_back id (inl f) = MessageDal.update_flags id f
write_back id (inr name) = set_error (codes "setFlags: unknown flag '" ++ (name ++ codes "'"))

unfoldable pub set_flags : ℕ → List Bytes → Sql (Option (Unit {0}))
set_flags id flags =
    needs (codes "setFlags: message not found") (MessageDal.find_by_id id)
      (λ msg. write_back id (apply_flags flags (start_flags flags (flags_of msg))))
