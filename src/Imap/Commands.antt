-- ===== src/Imap/Commands.antt =====
-- imap-server/src/ImapParser.cpp and ImapUtils.cpp: whole command lines and command names.
use ua_5308_smtp.Prelude.{
  ℕ, suc, ◌+◌, ◌≤◌, ◌≡◌, refl, sym, ◌∙◌, ap, Bool, true, false, some, List, [], ◌∷◌, ◌++◌, ◌==◌,
  Bytes, codes, equal, to_upper, drop, length, take-append, All, find_index?-append, if◌then◌else◌,
  arith,
}
use ua_5308_smtp.Imap.Command.{
  ImapCommandType, uid_fetch, uid_store, uid_copy, unknown, string_to_command_type,
  command_type_to_string,
}
use ua_5308_smtp.Imap.Parser.{parse, parse_command, split_space}
use ua_5308_smtp.Imap.Quoting.{quoted_args, parse_args-quoted_args}

abbrev pub is_uid : ImapCommandType → Bool
is_uid uid_fetch = true
is_uid uid_store = true
is_uid uid_copy = true
is_uid _ = false

-- The name of every command is read back as that command, but for the three commands that follow
-- UID, whose names of two words no entry of the table matches.
string_to_command_type-command_type_to_string :
    (t : ImapCommandType)
    → string_to_command_type (command_type_to_string t) ≡ (if is_uid t then unknown else t)
unfolding string_to_command_type command_type_to_string
string_to_command_type-command_type_to_string t = ground arith

-- A text without a space.
abbrev pub HasNoSpace : Bytes → Type 0
HasNoSpace = All (λ c. (c == b' ') ≡ false)

drop_past :
    (xs : Bytes) (c : ℕ) (rest : Bytes) (n : ℕ)
    → n ≡ suc (length xs)
    → drop n (xs ++ c ∷ rest) ≡ rest
drop_past [] c rest n e = rw e refl
drop_past (x ∷ xs) c rest n e = rw e (drop_past xs c rest (suc (length xs)) refl)

split_space-append :
    (xs rest : Bytes) → HasNoSpace xs → split_space (xs ++ b' ' ∷ rest) ≡ (xs, rest)
split_space-append xs rest h =
    rw (split_space, find_index?-append (λ c. c == b' ') xs b' ' rest h refl)
      (simp (take-append, drop_past xs b' ' rest (length xs + 1) (omega arith)))

parse-parse_command :
    (fuel : ℕ) (tag rest : Bytes)
    → HasNoSpace tag
    → parse fuel (tag ++ b' ' ∷ rest) ≡ parse_command fuel tag (split_space rest)
unfolding parse
parse-parse_command fuel tag rest h =
    rw (parse, find_index?-append (λ c. c == b' ') tag b' ' rest h refl)
      (simp (take-append, drop_past tag b' ' rest (length tag + 1) (omega arith)))

-- A round for each argument is enough.
parse-named_args :
    (tag name : Bytes) (args : List Bytes) (fuel : ℕ)
    → HasNoSpace tag
    → HasNoSpace name
    → equal (to_upper name) (codes "UID") ≡ false
    → length args ≤ fuel
    → parse fuel (tag ++ b' ' ∷ (name ++ b' ' ∷ quoted_args args))
      ≡ some (record { tag = tag; type = string_to_command_type name; args = args })
parse-named_args tag name args fuel ht hn other enough =
    parse-parse_command fuel tag (name ++ b' ' ∷ quoted_args args) ht
    ∙ ap (parse_command fuel tag) (split_space-append name (quoted_args args) hn)
    ∙ unfold parse_command in rw (other, parse_args-quoted_args args fuel enough)

-- Names are compared in upper case.
string_to_command_type-to_upper :
    (s t : Bytes) → to_upper s ≡ to_upper t → string_to_command_type s ≡ string_to_command_type t
unfolding string_to_command_type
string_to_command_type-to_upper s t e = rw e refl

to_upper-command_type_to_string :
    (t : ImapCommandType) → to_upper (command_type_to_string t) ≡ command_type_to_string t
unfolding command_type_to_string
to_upper-command_type_to_string t = ground arith

string_to_command_type-named :
    (t : ImapCommandType) (name : Bytes)
    → is_uid t ≡ false
    → to_upper name ≡ command_type_to_string t
    → string_to_command_type name ≡ t
string_to_command_type-named t name own e =
    string_to_command_type-to_upper name (command_type_to_string t)
      (e ∙ sym (to_upper-command_type_to_string t))
    ∙ string_to_command_type-command_type_to_string t
    ∙ rw own refl

command_type_to_string-no_uid :
    (t : ImapCommandType) → equal (command_type_to_string t) (codes "UID") ≡ false
unfolding command_type_to_string
command_type_to_string-no_uid t = ground arith

command_type_to_string-HasNoSpace :
    (t : ImapCommandType) → is_uid t ≡ false → HasNoSpace (command_type_to_string t)
unfolding command_type_to_string
command_type_to_string-HasNoSpace t own = ground arith

HasNoSpace-to_upper : (s : Bytes) → HasNoSpace (to_upper s) → HasNoSpace s
HasNoSpace-to_upper [] h = tt
HasNoSpace-to_upper (c ∷ s) h = (ground (arith, h.0), HasNoSpace-to_upper s h.1)

-- A line of a tag without a space, the name of a command other than the three of UID, in any case of
-- letters, and quoted arguments, whatever bytes these hold, is parsed as that command with those
-- arguments: a round for each is enough.
pub parse-quoted_args :
    (tag name : Bytes) (t : ImapCommandType) (args : List Bytes) (fuel : ℕ)
    → HasNoSpace tag
    → is_uid t ≡ false
    → to_upper name ≡ command_type_to_string t
    → length args ≤ fuel
    → parse fuel (tag ++ b' ' ∷ (name ++ b' ' ∷ quoted_args args))
      ≡ some (record { tag = tag; type = t; args = args })
parse-quoted_args tag name t args fuel ht own e enough =
    parse-named_args tag name args fuel ht
      (HasNoSpace-to_upper name (rw e (command_type_to_string-HasNoSpace t own)))
      (rw e (command_type_to_string-no_uid t)) enough
    ∙ ap (λ (type : ImapCommandType). some (record { tag = tag; type = type; args = args }))
        (string_to_command_type-named t name own e)
