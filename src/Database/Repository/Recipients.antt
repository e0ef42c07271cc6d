-- ===== src/Database/Repository/Recipients.antt =====
-- database/Repository/MessageRepository.cpp: the recipients of a message.
use ua_5308_smtp.Prelude.{ℕ, Option, codes, is_empty, if◌then◌else◌}
use ua_5308_smtp.Database.Rows.{Recipient}
use ua_5308_smtp.Database.Engine.{Sql, needs, set_error}
use ua_5308_smtp.Database.MessageDal
use ua_5308_smtp.Database.RecipientDal

-- The new id.
unfoldable pub add_recipient : Recipient → Sql (Option ℕ)
add_recipient recipient =
    needs (codes "addRecipient: message not found") (MessageDal.find_by_id recipient.message_id)
      (λ _.
        if is_empty recipient.address
        then set_error (codes "addRecipient: address cannot be empty")
        else RecipientDal.insert recipient)

unfoldable pub remove_recipient : ℕ → Sql (Option (Unit {0}))
remove_recipient id =
    needs (codes "removeRecipient: recipient not found") (RecipientDal.find_by_id id)
      (λ _. RecipientDal.hard_delete id)
