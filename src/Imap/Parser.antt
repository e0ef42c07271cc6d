-- ===== src/Imap/Parser.antt =====
-- imap-server/src/ImapParser.cpp: `ImapParser::Parse`. The fuel is for the loop over the arguments;
-- `none` means that it ended.
use mathlib.Core.Option
use ua_5308_smtp.Prelude.{
  ℕ, ◌+◌, ◌≡◌, refl, Bool, true, false, Option, none, some, [], ◌∷◌, Bytes, codes, equal, to_upper,
  find?, take, drop, if◌then◌else◌,
}
use ua_5308_smtp.Imap.Command.{
  ImapCommandType, unknown, uid_fetch, uid_store, uid_copy, ImapCommand, string_to_command_type,
}
use ua_5308_smtp.Imap.Command
use ua_5308_smtp.Imap.Elements.{parse_args}

-- The text before the first space and the text behind it; the whole text where there is none.
abbrev pub split_space : Bytes → Bytes × Bytes
split_space s = elim (find? b' ' s) [ none ↦ (s, []) | some pos ↦ (take pos s, drop (pos + 1) s) ]

-- The commands that may follow UID.
unfoldable pub uid_command : Bytes → ImapCommandType
uid_command upper =
    if equal upper (codes "FETCH")
    then uid_fetch
    else if equal upper (codes "STORE")
    then uid_store
    else if equal upper (codes "COPY")
    then uid_copy
    else unknown

abbrev is_unknown : ImapCommandType → Bool
is_unknown unknown = true
is_unknown _ = false

-- The branch of UID.
unfoldable pub parse_uid : ℕ → Bytes → Bytes → Option ImapCommand
unfolding uid_command
parse_uid fuel tag args_str = elim (find? b' ' args_str) [
  | none ↦ some (record { tag = tag; type = unknown; args = [] })
  | some pos ↦
      let type = uid_command (to_upper (take pos args_str)) in
      if is_unknown type
      then some (record { tag = tag; type = type; args = [] })
      else Option.map (λ args. record { tag = tag; type = type; args = args })
          (parse_args fuel (drop (pos + 1) args_str))
]

unfoldable pub parse_command : ℕ → Bytes → Bytes × Bytes → Option ImapCommand
unfolding parse_uid
parse_command fuel tag (command_str, args_str) =
    if equal (to_upper command_str) (codes "UID")
    then parse_uid fuel tag args_str
    else Option.map
        (λ args. record { tag = tag; type = string_to_command_type command_str; args = args })
        (parse_args fuel args_str)

-- `ImapParser::Parse`
unfoldable pub parse : ℕ → Bytes → Option ImapCommand
unfolding parse_command
parse fuel line = elim (find? b' ' line) [
  | none ↦ some (record { tag = []; type = unknown; args = [] })
  | some pos ↦ parse_command fuel (take pos line) (split_space (drop (pos + 1) line))
]

parse_login :
    parse 5 (codes "a1 login bob \"p \\\" w\" (x [y) z] \"q\")")
    ≡ some (record {
      tag = codes "a1";
      type = Command.login;
      args = codes "bob" ∷ codes "p \" w" ∷ codes "(x [y) z] \"q\")" ∷ [];
    })
unfolding parse parse_args string_to_command_type
parse_login = refl
