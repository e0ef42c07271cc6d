-- ===== src/Database/RecipientDal.antt =====
-- database/DAL/RecipientDAL.cpp, and the names of the types in database/Entity/Recipient.cpp.
use ua_5308_smtp.Prelude.{
  ℕ, suc, Bool, not, ◌&&◌, Option, none, some, List, [], ◌∷◌, ◌++◌, ◌==◌, Bytes, codes, equal,
  if◌then◌else◌, ◌≡◌, refl,
}
use ua_5308_smtp.Database.Rows.{Message, Recipient, RecipientType, to, cc, bcc, reply_to}
use ua_5308_smtp.Effects.{return}
use ua_5308_smtp.Database.Engine.{Tables, Sql, select, statement}
use ua_5308_smtp.Database.Queries.{
  find_row, rows_where, has_row, delete_where, update_where, is_id, c_str,
}

unfoldable pub type_to_string : RecipientType → Bytes
type_to_string to = codes "to"
type_to_string cc = codes "cc"
type_to_string bcc = codes "bcc"
type_to_string reply_to = codes "reply-to"

unfoldable pub type_from_string : Bytes → RecipientType
type_from_string str =
    if equal str (codes "to")
    then to
    else if equal str (codes "cc")
    then cc
    else if equal str (codes "bcc")
    then bcc
    else if equal str (codes "reply-to")
    then reply_to
    else to

-- The text in the table stands for the type that was written.
pub type_from_string-type_to_string : (t : RecipientType) → type_from_string (type_to_string t) ≡ t
unfolding type_from_string type_to_string
type_from_string-type_to_string to = refl
type_from_string-type_to_string cc = refl
type_from_string-type_to_string bcc = refl
type_from_string-type_to_string reply_to = refl

unfoldable pub find_by_id : ℕ → Sql (Option Recipient)
unfolding select
find_by_id id = select none (λ t. find_row (λ (r : Recipient). is_id id r.id) t.recipients)

unfoldable pub find_by_message : ℕ → Sql (List Recipient)
unfolding select
find_by_message message_id =
    select [] (λ t. rows_where (λ r. r.message_id == message_id) t.recipients)

abbrev pub has_message : Tables → ℕ → Bool
has_message t id = has_row (λ (m : Message). is_id id m.id) t.messages

-- The row that is written.
abbrev pub stored : Recipient → Recipient
stored r = record r { address = c_str r.address }

-- The new id.
unfoldable pub insert : Recipient → Sql (Option ℕ)
unfolding statement
insert recipient = statement (λ t.
    if has_message t recipient.message_id
    then some (
      suc t.last_recipient,
      record t {
        recipients =
            t.recipients ++ record (stored recipient) { id = some (suc t.last_recipient) } ∷ [];
        last_recipient = suc t.last_recipient;
      },
    )
    else none)

unfoldable pub update : Recipient → Sql (Option (Unit {0}))
unfolding statement
update recipient = elim recipient.id [
  | none ↦ return none
  | some id ↦ statement (λ t.
      if has_row (λ (r : Recipient). is_id id r.id) t.recipients
        && not (has_message t recipient.message_id)
      then none
      else some (
        tt,
        record t {
          recipients =
              update_where (λ (r : Recipient). is_id id r.id) (λ r. stored recipient) t.recipients;
        },
      ))
]

unfoldable pub hard_delete : ℕ → Sql (Option (Unit {0}))
unfolding statement
hard_delete id =
    statement
      (λ t. some (tt, record t { recipients = delete_where (λ r. is_id id r.id) t.recipients }))
