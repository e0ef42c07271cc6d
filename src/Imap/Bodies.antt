-- ===== src/Imap/Bodies.antt =====
-- imap-server/src/ImapUtils.cpp: `GetBodySection` with `ExtractPartBySection`, and
-- `CombineSplitBodySections`. The content of a message's file is an argument.
use ua_5308_smtp.Prelude.{
  ℕ, zero, suc, ◌^◌, Bool, false, ◌&&◌, ◌||◌, Option, none, some, List, [], ◌∷◌, ◌++◌, ◌==◌, leb,
  if◌then◌else◌, Bytes, codes, equal, is_empty, starts_with, to_upper, back_is, pop_back, drop,
  length,
}
use ua_5308_smtp.Prelude.Int.{ℤ, pos, negsuc}
use ua_5308_smtp.Prelude.Search.{cut_at?, contains}
use ua_5308_smtp.Effects.{Outcome, returned, thrown, invalid_argument}
use ua_5308_smtp.Mime.Headers.{split_headers_and_body, get_header_value, extract_boundary}
use ua_5308_smtp.Mime.Parser.{skip_line_end}
use ua_5308_smtp.Imap.Sequence.{stoll, is_digit, and_then}

-- A part without the line end behind it.
abbrev pub drop_line_end : Bytes → Bytes
drop_line_end s =
    if back_is b'\n' s
    then (let s' = pop_back s in if back_is b'\r' s' then pop_back s' else s')
    else s

-- The loop of `ExtractPartBySection` behind a delimiter, with so many parts to pass.
unfoldable pub part_behind : ℕ → Bytes → Bytes → Bytes
unfolding cut_at?
part_behind zero delimiter after = drop_line_end (elim (cut_at? delimiter (skip_line_end after)) [
  | none ↦ skip_line_end after
  | some (content, _) ↦ content
])
part_behind (suc passed) delimiter after = elim (cut_at? delimiter (skip_line_end after)) [
  | none ↦ []
  | some (_, rest) ↦ part_behind passed delimiter rest
]

abbrev pub first_part : ℕ → Bytes → Bytes → Bytes
first_part passed delimiter raw_mime = elim (cut_at? delimiter raw_mime) [
  | none ↦ []
  | some (_, after) ↦ part_behind passed delimiter after
]

-- `ExtractPartBySection`
unfoldable pub extract_part_by_section : Bytes → Bytes → ℤ → Bytes
unfolding part_behind
extract_part_by_section raw_mime boundary (pos (suc passed)) =
    first_part passed (codes "--" ++ boundary) raw_mime
extract_part_by_section raw_mime boundary (pos zero) = []
extract_part_by_section raw_mime boundary (negsuc n) = []

abbrev is_upper_letter : ℕ → Bool
is_upper_letter c = leb b'A' c && leb c b'Z'

-- The path of numbers, and the suffix from the first period before a letter on. The section starts with
-- a digit, so that no period stands in front of the whole.
unfoldable pub split_suffix : Bytes → Bytes × Bytes
split_suffix [] = ([], [])
split_suffix (c ∷ []) = (c ∷ [], [])
split_suffix (c ∷ d ∷ section) =
    let rest = split_suffix (d ∷ section) in
    if c == b'.' && is_upper_letter d then ([], c ∷ d ∷ section) else (c ∷ rest.0, rest.1)

-- `std::stoi`
abbrev pub stoi : Bytes → Outcome ℤ
stoi s = elim (stoll (2 ^ 31) s) [
  | thrown (invalid_argument _) ↦ thrown (invalid_argument (codes "stoi"))
  | r ↦ r
]

-- The texts between the periods; none stands behind the last.
unfoldable pub split_path : Bytes → List Bytes
split_path [] = []
split_path (c ∷ path_str) =
    let rest = split_path path_str in
    if c == b'.'
    then [] ∷ rest
    else elim rest [ [] ↦ (c ∷ []) ∷ [] | num_str ∷ more ↦ (c ∷ num_str) ∷ more ]

unfoldable pub read_path : List Bytes → Outcome (List ℤ)
unfolding stoll
read_path [] = returned []
read_path (num_str ∷ more) =
    and_then (stoi num_str) (λ n. and_then (read_path more) (λ path. returned (n ∷ path)))

abbrev drop_line_ends : Bytes → Bytes
drop_line_ends [] = []
drop_line_ends (c ∷ s) = if c == b'\r' || c == b'\n' then drop_line_ends s else c ∷ s

-- The loop over the path: `none` is the return of an empty text.
unfoldable pub walk_path : List ℤ → Bytes → Bytes → Option (Bytes × Bytes)
unfolding get_header_value extract_boundary extract_part_by_section split_headers_and_body
walk_path [] headers body = some (headers, body)
walk_path (part_num ∷ path) headers body =
    let boundary = extract_boundary (get_header_value headers (codes "Content-Type:")) in
    let part_content = extract_part_by_section body boundary part_num in
    let parts = split_headers_and_body part_content in
    let further = walk_path path parts.0 (drop_line_ends parts.1) in
    if is_empty boundary
    then (if is_empty path then some (headers, body) else none)
    else if is_empty part_content
    then none
    else further

abbrev blank_end : Bytes
blank_end = b'\r' ∷ b'\n' ∷ b'\r' ∷ b'\n' ∷ []

-- The parts of a message that is no multipart: the first is the body.
abbrev pub single_section : List ℤ → Bytes → Bytes → Bytes → Bytes
single_section (pos (suc zero) ∷ []) suffix headers body =
    if equal suffix (codes ".HEADER") || equal suffix (codes ".MIME")
    then headers ++ blank_end
    else body
single_section _ suffix headers body = []

abbrev pub with_suffix : Bytes → Option (Bytes × Bytes) → Bytes
with_suffix suffix none = []
with_suffix suffix (some (headers, body)) =
    if equal suffix (codes ".HEADER") || equal suffix (codes ".MIME")
    then headers ++ blank_end
    else body

-- A section that starts with a digit.
unfoldable pub numbered_section : Bytes → Bytes → Bytes → Outcome Bytes
unfolding split_suffix split_path read_path walk_path contains get_header_value
numbered_section upper_section headers body =
    let (path_str, suffix) = split_suffix upper_section in
    let top_ct = get_header_value headers (codes "Content-Type:") in
    and_then (read_path (split_path path_str)) (λ path. returned (
      if contains (codes "multipart") top_ct
      then with_suffix suffix (walk_path path headers body)
      else single_section path suffix headers body))

abbrev starts_with_digit : Bytes → Bool
starts_with_digit [] = false
starts_with_digit (c ∷ s) = is_digit c

-- `GetBodySection`, of the content of the file.
unfoldable pub get_body_section : Bytes → Bytes → Outcome Bytes
unfolding numbered_section split_headers_and_body
get_body_section raw_mime section =
    let upper_section = to_upper section in
    let (headers, body) = split_headers_and_body raw_mime in
    if is_empty raw_mime
    then returned []
    else if equal upper_section (codes "TEXT")
    then returned body
    else if equal upper_section (codes "HEADER")
        || equal upper_section (codes "MIME")
        || starts_with upper_section (codes "HEADER.")
    then returned (headers ++ blank_end)
    else if starts_with_digit upper_section
    then numbered_section upper_section headers body
    else returned raw_mime

abbrev is_peek : Bytes → Bool
is_peek item = starts_with (to_upper item) (codes "BODY.PEEK[HEADER.FIELDS")

abbrev is_header_fields : Bytes → Bool
is_header_fields item = starts_with (to_upper item) (codes "BODY[HEADER.FIELDS") || is_peek item

abbrev prefix_of : Bool → Bytes
prefix_of peek = if peek then codes "BODY.PEEK[" else codes "BODY["

-- `CombineSplitBodySections`, with the section that is not closed yet.
unfoldable pub combine_sections : Option (Bool × Bytes) → List Bytes → List Bytes
combine_sections none [] = []
combine_sections (some (peek, content)) [] = (prefix_of peek ++ (content ++ codes "]")) ∷ []
combine_sections none (item ∷ items) =
    let peek = is_peek item in
    let content = drop (length (prefix_of peek)) item in
    let closed = combine_sections none items in
    let pending = combine_sections (some (peek, content)) items in
    if is_header_fields item
    then (if back_is b']' content then (prefix_of peek ++ content) ∷ closed else pending)
    else item ∷ closed
combine_sections (some (peek, content)) (item ∷ items) =
    let content' = content ++ b' ' ∷ item in
    let closed = combine_sections none items in
    let pending = combine_sections (some (peek, content')) items in
    if back_is b']' content' then (prefix_of peek ++ content') ∷ closed else pending
