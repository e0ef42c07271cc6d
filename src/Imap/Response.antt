-- ===== src/Imap/Response.antt =====
-- proto/ImapResponse.hpp.
use ua_5308_smtp.Prelude.{ℕ, [], ◌∷◌, ◌++◌, Bytes, codes, to_string}

abbrev pub crlf : Bytes
crlf = 13 ∷ 10 ∷ []

unfoldable pub ok : Bytes → Bytes → Bytes
ok tag message = tag ++ (codes " OK " ++ (message ++ crlf))

unfoldable pub no : Bytes → Bytes → Bytes
no tag message = tag ++ (codes " NO " ++ (message ++ crlf))

unfoldable pub bad : Bytes → Bytes → Bytes
bad tag message = tag ++ (codes " BAD " ++ (message ++ crlf))

unfoldable pub untagged : Bytes → Bytes
untagged message = codes "* " ++ (message ++ crlf)

unfoldable pub capability : Bytes
capability = codes "* CAPABILITY IMAP4rev1" ++ crlf

-- With the default list.
unfoldable pub flags : Bytes
flags = codes "* FLAGS (\\Seen \\Answered \\Flagged \\Draft \\Deleted \\Recent)" ++ crlf

unfoldable pub exists : ℕ → Bytes
exists count = codes "* " ++ (to_string count ++ (codes " EXISTS" ++ crlf))

unfoldable pub recent : ℕ → Bytes
recent count = codes "* " ++ (to_string count ++ (codes " RECENT" ++ crlf))

-- `List` and `Lsub`
abbrev mailbox_line : Bytes → ℕ → Bytes → Bytes → Bytes
mailbox_line word separator mailbox attributes =
    word
    ++ (attributes
        ++ (codes ") \"" ++ (separator ∷ codes "\" \"" ++ (mailbox ++ (codes "\"" ++ crlf)))))

unfoldable pub list : ℕ → Bytes → Bytes → Bytes
list = mailbox_line (codes "* LIST (\\")

unfoldable pub lsub : ℕ → Bytes → Bytes → Bytes
lsub = mailbox_line (codes "* LSUB (\\")

unfoldable pub status : Bytes → Bytes → Bytes
status mailbox status_data =
    codes "* STATUS " ++ (mailbox ++ (codes " (" ++ (status_data ++ (codes ")" ++ crlf))))

unfoldable pub fetch : ℕ → Bytes → Bytes
fetch msg_num body = codes "* " ++ (to_string msg_num ++ (codes " FETCH " ++ (body ++ crlf)))
