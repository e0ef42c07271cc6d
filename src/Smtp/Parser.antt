-- ===== src/Smtp/Parser.antt =====
-- server/SmtpParser.cpp.
use ua_5308_smtp.Prelude.{
  ◌+◌, ◌-◌, ◌≡◌, refl, ◌&&◌, not, none, some, [], ◌∷◌, ◌++◌, leb, if◌then◌else◌, Bytes, codes,
  equal, starts_with, find?, to_upper, front_is, back_is, pop_back, length, take, drop, substr,
  is_empty,
}
use ua_5308_smtp.StringUtils
use ua_5308_smtp.Smtp.Command.{
  Command, CommandType, helo, ehlo, mail, rcpt, data_cmd, rset, noop, quit, unknown, starttls, auth,
}

-- The parser's own copy of `Trim`, with the text of `StringUtils::Trim`.
unfoldable pub trim : Bytes → Bytes
unfolding StringUtils.trim
trim = StringUtils.trim

unfoldable pub strip_angle_brackets : Bytes → Bytes
strip_angle_brackets s =
    if leb 2 (length s) && front_is b'<' s && back_is b'>' s then substr s 1 (length s - 2) else s

-- The branch of `AUTH`: the mechanism is put in upper case, and what follows it is kept.
unfoldable pub auth_argument : Bytes → Bytes
auth_argument arg = elim (find? b' ' arg) [
  | none ↦ to_upper arg
  | some sp ↦ to_upper (take sp arg) ++ (b' ' ∷ drop (sp + 1) arg)
]

abbrev bare : CommandType → Command
bare t = record { type = t; argument = [] }

-- The ladder of tests, on the line without its `\r` and on its upper-case form.
unfoldable pub parse_clean : Bytes → Bytes → Command
unfolding trim strip_angle_brackets auth_argument
parse_clean clean upper =
    if starts_with upper (codes "HELO ")
    then record { type = helo; argument = trim (drop 5 clean) }
    else if starts_with upper (codes "EHLO ")
    then record { type = ehlo; argument = trim (drop 5 clean) }
    else if starts_with upper (codes "MAIL FROM:")
    then record { type = mail; argument = strip_angle_brackets (trim (drop 10 clean)) }
    else if starts_with upper (codes "RCPT TO:")
    then record { type = rcpt; argument = strip_angle_brackets (trim (drop 8 clean)) }
    else if equal upper (codes "DATA")
    then bare data_cmd
    else if equal upper (codes "RSET")
    then bare rset
    else if equal upper (codes "NOOP")
    then bare noop
    else if equal upper (codes "QUIT")
    then bare quit
    else if equal upper (codes "STARTTLS")
    then bare starttls
    else if starts_with upper (codes "AUTH ")
    then record { type = auth; argument = auth_argument (drop 5 clean) }
    else bare unknown

abbrev pub strip_cr : Bytes → Bytes
strip_cr line = if not (is_empty line) && back_is b'\r' line then pop_back line else line

-- `SmtpParser::Parse`
unfoldable pub parse : Bytes → Command
unfolding parse_clean
parse line = let clean = strip_cr line in parse_clean clean (to_upper clean)

parse_mail :
    parse (codes "mail from: <Bob@x.org>\r") ≡ record { type = mail; argument = codes "Bob@x.org" }
unfolding parse
parse_mail = refl

parse_auth : parse (codes "auth plain AbC=") ≡ record { type = auth; argument = codes "PLAIN AbC=" }
unfolding parse
parse_auth = refl
