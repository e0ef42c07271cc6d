-- ===== src/Imap/BodyStructure.antt =====
-- imap-server/src/ImapUtils.cpp: `BuildBodystructure` and `BuildBodystructureFromMimePart`. Numbers of
-- bytes and lines are natural numbers.
use ua_5308_smtp.Prelude.{
  Bool, true, false, Option, none, some, List, [], ◌∷◌, ◌++◌, if◌then◌else◌, Bytes, codes, equal,
  is_empty, length, to_string,
}
use ua_5308_smtp.Database.Rows.{Message}
use ua_5308_smtp.Mime.Email.{Email, Attachment}
use ua_5308_smtp.Mime.Structure.{Node, MimePart, MimeParts, part, no_parts, add_part, count_lines}
use ua_5308_smtp.Imap.Envelope.{in_quotes}

-- `BuildBodystructureFromMimePart`
abbrev leaf_text : Node → Bytes
leaf_text p =
    codes "("
    ++ (in_quotes p.part_type
        ++ (codes " "
            ++ (in_quotes p.subtype
                ++ (codes " (\"charset\" "
                    ++ (in_quotes p.charset
                        ++ (codes ") NIL NIL "
                            ++ (in_quotes p.encoding
                                ++ (codes " "
                                    ++ (to_string p.size
                                        ++ (codes " " ++ (to_string p.lines ++ codes ")")))))))))))

abbrev boundary_text : Bytes → Bytes
boundary_text boundary =
    if is_empty boundary
    then codes " NIL"
    else codes " (\"boundary\" " ++ (in_quotes boundary ++ codes ")")

unfoldable mutual
  pub structure_text : MimePart → Bytes
  structure_text (part p children) =
      if equal p.part_type (codes "multipart")
      then codes "("
        ++ (children_text children
            ++ (codes " "
                ++ (in_quotes p.subtype ++ (boundary_text p.boundary ++ codes " NIL NIL)"))))
      else leaf_text p

  pub children_text : MimeParts → Bytes
  children_text no_parts = []
  children_text (add_part child children) = structure_text child ++ children_text children

-- A text part of an email.
abbrev text_part : Bytes → Bytes → Bytes → Bytes → Bytes
text_part subtype charset encoding text =
    codes "(\"text\" "
    ++ (in_quotes subtype
        ++ (codes " (\"charset\" "
            ++ (in_quotes charset
                ++ (codes ") NIL NIL "
                    ++ (in_quotes encoding
                        ++ (codes " "
                            ++ (to_string (length text)
                                ++ (codes " " ++ (to_string (count_lines text) ++ codes ")")))))))))

abbrev boundary_or : Bytes → Bytes → Bytes
boundary_or boundary generated = if is_empty boundary then generated else boundary

abbrev text_block : Bytes → Email → Bytes
text_block generated email =
    let plain =
      text_part (codes "plain") email.charset email.plain_text_encoding email.plain_text in
    let html = text_part (codes "html") email.charset email.html_text_encoding email.html_text in
    if is_empty email.html_text
    then plain
    else codes "("
      ++ (plain
          ++ (html
              ++ (codes " \"alternative\" (\"boundary\" "
                  ++ (in_quotes (boundary_or email.boundary_alternative generated)
                      ++ codes ") NIL NIL)"))))

abbrev attachments_text : List Attachment → Bytes
attachments_text [] = []
attachments_text (att ∷ attachments) =
    codes " (\"application\" \"octet-stream\" (\"name\" "
    ++ (in_quotes att.file_name
        ++ (codes ") NIL NIL \"base64\" "
            ++ (to_string att.file_size ++ (codes ")" ++ attachments_text attachments))))

abbrev has_none : List Attachment → Bool
has_none [] = true
has_none (_ ∷ _) = false

-- `BuildBodystructure`; `generated` are the boundaries that `MimeBuilder::GenerateBoundary` gives.
unfoldable pub build_bodystructure :
    Bytes × Bytes → Message → Option Email → Option MimePart → Bytes
unfolding structure_text
build_bodystructure generated msg email_opt (some mime_part) = structure_text mime_part
build_bodystructure generated msg none none =
    codes "(\"text\" \"plain\" (\"charset\" \" utf-8 \") NIL NIL \"7bit\" "
    ++ (to_string msg.size_bytes ++ codes " 0)")
build_bodystructure generated msg (some email) none =
    if has_none email.attachments
    then text_block generated.0 email
    else codes "("
      ++ (text_block generated.0 email
          ++ (attachments_text email.attachments
              ++ (codes " \"mixed\" (\"boundary\" "
                  ++ (in_quotes (boundary_or email.boundary_mixed generated.1)
                      ++ codes ") NIL NIL)"))))
