-- ===== src/Imap/Tests.antt =====
-- The IMAP command parser at concrete inputs.
use ua_5308_smtp.Prelude.{
  ◌≡◌, refl, none, some, List, [], ◌∷◌, ◌++◌, Bytes, codes, length, arith, to_upper,
}
use ua_5308_smtp.Imap.Command.{login, command_type_to_string}
use ua_5308_smtp.Imap.Elements.{parse_args}
use ua_5308_smtp.Imap.Parser.{parse}
use ua_5308_smtp.Imap.Quoting.{quoted_args}
use ua_5308_smtp.Imap.Commands.{parse-quoted_args}
use ua_5308_smtp.Imap.Totality.{parse_args_total, parse_args_stuck}

abbrev two_args : List Bytes
two_args = codes "bob" ∷ codes "a \" b)" ∷ []

mixed_case : to_upper (codes "loGin") ≡ command_type_to_string login
unfolding command_type_to_string
mixed_case = refl

parse-quoted_args_example :
    parse 2 (codes "a1" ++ b' ' ∷ (codes "loGin" ++ b' ' ∷ quoted_args two_args))
    ≡ some (record { tag = codes "a1"; type = login; args = two_args })
parse-quoted_args_example =
    parse-quoted_args (codes "a1") (codes "loGin") login two_args 2 (ground arith) refl mixed_case
      (ground arith)

parse_args_total_example :
    (args : List Bytes) × (parse_args (length (codes "bob {5} x")) (codes "bob {5} x") ≡ some args)
parse_args_total_example = parse_args_total (codes "bob {5} x") (ground arith)

parse_args_stuck_example : parse_args 100 (codes "bob" ++ b')' ∷ []) ≡ none
parse_args_stuck_example = parse_args_stuck 100 (codes "bob") [] (ground arith)
