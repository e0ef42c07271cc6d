-- ===== src/StringUtils/Wrap.antt =====
-- common/utils/StringUtils.cpp: `FindUtf8SafeEnd` and `WrapText`. The position in the text is the list
-- of the bytes from it on. The loop runs on fuel and answers `none` where it ends.
use mathlib.Core.Option
use ua_5308_smtp.Prelude.{
  ℕ, zero, suc, ◌+◌, Bool, true, false, not, ◌&&◌, ◌||◌, Option, none, some, [], ◌∷◌, ◌++◌, ◌==◌,
  ltb, if◌then◌else◌, Bytes, length, min, is_empty, front_is, take, drop, get_or, find_index?,
  find_last_index?,
}

-- `(c & 0xC0) == 0x80` of a byte.
abbrev pub is_continuation : ℕ → Bool
is_continuation c = not (ltb c 128) && ltb c 192

-- The loop of `FindUtf8SafeEnd`, from the current `end_pos`.
unfoldable pub safe_end_loop : Bytes → ℕ → ℕ → ℕ
safe_end_loop text start zero = zero
safe_end_loop text start (suc end_pos) =
    let earlier = safe_end_loop text start end_pos in
    if ltb start (suc end_pos)
      && ltb (suc end_pos) (length text)
      && is_continuation (get_or text (suc end_pos) 0)
    then earlier
    else suc end_pos

-- `FindUtf8SafeEnd`
unfoldable pub find_utf8_safe_end : Bytes → ℕ → ℕ → ℕ
unfolding safe_end_loop
find_utf8_safe_end text start max_bytes =
    safe_end_loop text start (min (start + max_bytes) (length text))

abbrev pub is_newline : ℕ → Bool
is_newline c = c == b'\r' || c == b'\n'

abbrev pub is_gap : ℕ → Bool
is_gap c = c == b' ' || c == b'\t'

abbrev pub line_end : Bytes
line_end = b'\r' ∷ b'\n' ∷ []

-- The length of the part that has no space to break at: the whole of what fits, or what ends at a
-- character of UTF-8.
unfoldable pub hard_split : Bytes → ℕ → ℕ
unfolding find_utf8_safe_end
hard_split s limit =
    if limit == length s
    then limit
    else (let split_len = find_utf8_safe_end s 0 limit in
        if split_len == 0 && ltb 0 limit then limit else split_len)

-- `split_len` and `skip_char`
unfoldable pub split_of : Bytes → ℕ → ℕ × Bool
unfolding hard_split
split_of s limit = elim (find_last_index? is_gap (take limit s)) [
  | none ↦ (hard_split s limit, false)
  | some last_space ↦
      if ltb limit (length s) then (last_space, true) else (hard_split s limit, false)
]

-- The part of a round that breaks the line.
unfoldable pub break_line : Bytes → ℕ → Bytes × Bytes
unfolding split_of
break_line s limit =
    let (split_len, skip_char) = split_of s limit in
    let rest = drop split_len s in
    (take split_len s ++ line_end, if skip_char && not (is_empty rest) then drop 1 rest else rest)

-- A newline in front: it is written as a line end, and a line feed behind a carriage return is
-- passed with it.
unfoldable pub take_newline : ℕ → Bytes → Bytes × Bytes
take_newline c s = (line_end, if c == b'\r' && front_is b'\n' s then drop 1 s else s)

-- A text within the chunk up to a newline.
unfoldable pub take_chunk : ℕ → Bytes → Bytes × Bytes
unfolding break_line
take_chunk line_length s =
    let limit = if ltb (length s) line_length then length s else line_length in
    elim (find_index? is_newline s) [
      | none ↦ break_line s limit
      | some next ↦ if ltb next limit then (take next s, drop next s) else break_line s limit
    ]

-- A round of the loop: what it appends to the result, and the bytes that are left.
unfoldable pub wrap_round : ℕ → ℕ → Bytes → Bytes × Bytes
unfolding take_newline take_chunk
wrap_round line_length c s =
    if is_newline c then take_newline c s else take_chunk line_length (c ∷ s)

unfoldable pub wrap_loop : ℕ → ℕ → Bytes → Option Bytes
unfolding wrap_round
wrap_loop fuel line_length [] = some []
wrap_loop zero line_length (c ∷ s) = none
wrap_loop (suc fuel) line_length (c ∷ s) =
    let (out, rest) = wrap_round line_length c s in
    Option.map (λ more. out ++ more) (wrap_loop fuel line_length rest)

-- The bounds on the length of a line.
abbrev pub clamp : ℕ → ℕ
clamp line_length =
    let at_most = if ltb 998 line_length then 998 else line_length in
    if ltb at_most 1 then 1 else at_most

-- `WrapText`
unfoldable pub wrap_text : ℕ → Bytes → Option Bytes
unfolding wrap_loop
wrap_text line_length text = wrap_loop (length text) (clamp line_length) text
