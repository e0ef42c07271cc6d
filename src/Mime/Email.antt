-- ===== src/Mime/Email.antt =====
-- mime/include/Email.h and mime/include/Attachment.h.
use ua_5308_smtp.Prelude.{
  ℕ, ◌+◌, ◌-◌, ◌*◌, ◌/◌, ◌%◌, ◌^◌, Bool, List, [], ◌∷◌, ◌++◌, ◌==◌, leb, if◌then◌else◌, length,
  get_or, back_is, Bytes, codes,
}

pub record Attachment : Type 0 where
  pub file_name : Bytes
  pub mime_type : Bytes
  pub base64_data : Bytes
  pub file_size : ℕ

abbrev one_if : Bool → ℕ
one_if b = if b then 1 else 0

-- The `=` among the last two characters.
abbrev padding_of : Bytes → ℕ
padding_of base64_data =
    if leb 2 (length base64_data)
    then one_if (back_is b'=' base64_data)
      + one_if (get_or base64_data (length base64_data - 2) 0 == b'=')
    else 0

-- The constructor: the size is a `size_t`.
unfoldable pub new_attachment : Bytes → Bytes → Bytes → Attachment
new_attachment name mime base64_data = record {
  file_name = name;
  mime_type = mime;
  base64_data = base64_data;
  file_size = (length base64_data * 3 / 4 + 2 ^ 64 - padding_of base64_data) % 2 ^ 64;
}

pub record Email : Type 0 where
  pub sender : Bytes
  pub to_list : List Bytes
  pub cc_list : List Bytes
  pub bcc_list : List Bytes
  pub subject : Bytes
  pub date : Bytes
  pub charset : Bytes
  pub message_id : Bytes
  pub in_reply_to : Bytes
  pub references : Bytes
  pub plain_text : Bytes
  pub html_text : Bytes
  pub plain_text_encoding : Bytes
  pub html_text_encoding : Bytes
  pub boundary_mixed : Bytes
  pub boundary_alternative : Bytes
  pub attachments : List Attachment

abbrev pub new_email : Email
new_email = record {
  sender = [];
  to_list = [];
  cc_list = [];
  bcc_list = [];
  subject = [];
  date = [];
  charset = codes "utf-8";
  message_id = [];
  in_reply_to = [];
  references = [];
  plain_text = [];
  html_text = [];
  plain_text_encoding = [];
  html_text_encoding = [];
  boundary_mixed = [];
  boundary_alternative = [];
  attachments = [];
}

-- `AddAttachment`
unfoldable pub add_attachment : Bytes → Bytes → Bytes → Email → Email
unfolding new_attachment
add_attachment name mime_type base64_data email = record email {
  attachments = email.attachments ++ new_attachment name mime_type base64_data ∷ [];
}
