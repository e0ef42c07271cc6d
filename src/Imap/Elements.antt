-- ===== src/Imap/Elements.antt =====
-- imap-server/src/ImapParser.cpp: `ElementParser`. The position is the list of the bytes from it on;
-- each operation returns what it read and the bytes that are left. The two loops that do not always
-- advance, or that call another loop, run on fuel and answer `none` where it ends.
use mathlib.Core.Option
use ua_5308_smtp.Prelude.{
  ℕ, zero, suc, Bool, true, false, not, ◌&&◌, ◌||◌, Option, none, some, List, [], ◌∷◌, ◌++◌, ◌==◌,
  ltb, if◌then◌else◌, Bytes, length, is_empty, drop_while,
}

infixl 5 ◌>>=◌
abbrev pub ◌>>=◌ {ℓ κ} : {A : Type ℓ} {B : Type κ} → Option A → (A → Option B) → Option B
none >>= f = none
some a >>= f = f a

-- What was read, and the rest.
abbrev pub Read : Type 0
Read = Bytes × Bytes

abbrev pub prepend : Bytes → Read → Read
prepend text r = (text ++ r.0, r.1)

-- `SkipWhitespace`
abbrev pub skip_whitespace : Bytes → Bytes
skip_whitespace = drop_while (λ c. c == b' ')

-- The loop of `ParseQuoted`; the flag tells that a backslash was passed that another byte follows.
unfoldable pub quoted_loop : Bool → Bytes → Read
quoted_loop escaped [] = ([], [])
quoted_loop true (c ∷ s) = prepend (c ∷ []) (quoted_loop false s)
quoted_loop false (c ∷ s) =
    let escape = c == b'\\' && not (is_empty s) in
    let later = quoted_loop escape s in
    if c == b'"' then ([], s) else if escape then later else prepend (c ∷ []) later

-- `ParseQuoted`
unfoldable pub parse_quoted : Bytes → Read
unfolding quoted_loop
parse_quoted [] = ([], [])
parse_quoted (c ∷ s) = if c == b'"' then quoted_loop false s else ([], c ∷ s)

-- The loop on the brackets inside a list, and on the parentheses inside a response: up to the end of
-- the text or the bracket that brings the depth to 0.
unfoldable pub nested_loop : ℕ → ℕ → ℕ → Bytes → Read
nested_loop opening closing zero s = ([], s)
nested_loop opening closing (suc depth) [] = ([], [])
nested_loop opening closing (suc depth) (c ∷ s) = prepend (c ∷ []) (
    nested_loop opening closing
      (if c == opening then suc (suc depth) else if c == closing then depth else suc depth) s)

-- The brackets of `ParseList` and of `ParseResponse`.
pub record Brackets : Type 0 where
  pub opening : ℕ
  pub closing : ℕ
  pub inner_opening : ℕ
  pub inner_closing : ℕ

abbrev pub list_brackets : Brackets
list_brackets = record {
  opening = b'(';
  closing = b')';
  inner_opening = b'[';
  inner_closing = b']';
}

abbrev pub response_brackets : Brackets
response_brackets = record {
  opening = b'[';
  closing = b']';
  inner_opening = b'(';
  inner_closing = b')';
}

-- A round of the loop at the byte `c`, in the depth `suc depth`: what it reads, and the new depth.
unfoldable pub group_round : Brackets → ℕ → ℕ → Bytes → Read × ℕ
unfolding parse_quoted nested_loop
group_round b depth c s =
    if c == b.opening
    then ((c ∷ [], s), suc (suc depth))
    else if c == b.closing
    then ((c ∷ [], s), depth)
    else if c == b.inner_opening
    then (prepend (c ∷ []) (nested_loop b.inner_opening b.inner_closing 1 s), suc depth)
    else if c == b'"'
    then (let (quoted, rest) = parse_quoted (c ∷ s) in
        ((b'"' ∷ (quoted ++ b'"' ∷ []), rest), suc depth))
    else ((c ∷ [], s), suc depth)

-- The loop of `ParseList` and of `ParseResponse`.
unfoldable pub group_loop : Brackets → ℕ → ℕ → Bytes → Option Read
unfolding group_round
group_loop b fuel zero s = some ([], s)
group_loop b fuel (suc depth) [] = some ([], [])
group_loop b zero (suc depth) (c ∷ s) = none
group_loop b (suc fuel) (suc depth) (c ∷ s) =
    let ((text, rest), depth') = group_round b depth c s in
    Option.map (prepend text) (group_loop b fuel depth' rest)

-- The body that `ParseList` and `ParseResponse` share.
unfoldable pub parse_group : Brackets → Bytes → Option Read
unfolding group_loop
parse_group b [] = some ([], [])
parse_group b (c ∷ s) =
    if c == b.opening
    then Option.map (prepend (c ∷ [])) (group_loop b (length s) 1 s)
    else some ([], c ∷ s)

-- `ParseList`
abbrev pub parse_list : Bytes → Option Read
parse_list = parse_group list_brackets

-- `ParseResponse`
abbrev pub parse_response : Bytes → Option Read
parse_response = parse_group response_brackets

-- `ParseLiteral`: up to the closing brace, which is read too.
unfoldable pub literal_loop : Bytes → Read
literal_loop [] = ([], [])
literal_loop (c ∷ s) =
    let later = literal_loop s in if c == b'}' then (c ∷ [], s) else prepend (c ∷ []) later

unfoldable pub parse_literal : Bytes → Read
unfolding literal_loop
parse_literal [] = ([], [])
parse_literal (c ∷ s) = if c == b'{' then prepend (c ∷ []) (literal_loop s) else ([], c ∷ s)

-- The bytes that end an atom.
abbrev pub ends_atom : ℕ → Bool
ends_atom c = c == b' ' || c == b'(' || c == b')' || c == b'"' || c == b'{'

-- `ParseAtom`
unfoldable pub parse_atom : Bytes → Read
parse_atom [] = ([], [])
parse_atom (c ∷ s) =
    let later = parse_atom s in if ends_atom c then ([], c ∷ s) else prepend (c ∷ []) later

-- `ParseElement`
unfoldable pub parse_element : Bytes → Option Read
unfolding parse_quoted parse_group parse_literal parse_atom
parse_element [] = some ([], [])
parse_element (c ∷ s) =
    if c == b'"'
    then some (parse_quoted (c ∷ s))
    else if c == b'('
    then parse_list (c ∷ s)
    else if c == b'{'
    then some (parse_literal (c ∷ s))
    else some (parse_atom (c ∷ s))

-- What a round of the loop of `ParseArgs` adds: an element that was not empty in the text.
abbrev pub add_element : Bytes → Read → List Bytes → List Bytes
add_element before (element, rest) args =
    if ltb (length rest) (length before) then element ∷ args else args

-- The loop of `ParseArgs`. The whitespace in front of an element is skipped by the round before.
unfoldable pub args_loop : ℕ → Bytes → Option (List Bytes)
unfolding parse_element
args_loop fuel [] = some []
args_loop zero (c ∷ s) = none
args_loop (suc fuel) (c ∷ s) = do
  read ← parse_element (c ∷ s)
  args ← args_loop fuel (skip_whitespace read.1)
  some (add_element (c ∷ s) read args)

-- `ParseArgs` and `ParseArguments`, on fuel.
unfoldable pub parse_args : ℕ → Bytes → Option (List Bytes)
unfolding args_loop
parse_args fuel s = args_loop fuel (skip_whitespace s)
