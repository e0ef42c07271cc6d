-- ===== src/Mime/Headers.antt =====
-- mime/src/MimeParser.cpp: the helpers that read headers and their parameters, `SplitHeadersAndBody`
-- and `SplitAddresses`.
use ua_5308_smtp.Prelude.{
  ℕ, ◌+◌, ◌-◌, Bool, true, false, not, ◌&&◌, ◌||◌, Option, some, none, List, [], ◌∷◌, ◌++◌, ◌==◌,
  if◌then◌else◌, Bytes, codes, equal, is_empty, front_is, back_is, pop_back, take_until, drop,
  length,
}
use ua_5308_smtp.Prelude.Search.{cut_at?, to_lower}
use ua_5308_smtp.StringUtils.{trim}
use ua_5308_smtp.Mime.Decoder.{decode_encoded_word}

-- `IEquals`
abbrev pub i_equals : Bytes → Bytes → Bool
i_equals a b = equal (to_lower a) (to_lower b)

abbrev pub blank_line : Bytes
blank_line = b'\r' ∷ b'\n' ∷ b'\r' ∷ b'\n' ∷ []

abbrev pub bare_blank_line : Bytes
bare_blank_line = b'\n' ∷ b'\n' ∷ []

-- `SplitHeadersAndBody`
unfoldable pub split_headers_and_body : Bytes → Bytes × Bytes
unfolding cut_at?
split_headers_and_body raw_block = elim (cut_at? blank_line raw_block) [
  | some parts ↦ parts
  | none ↦ elim (cut_at? bare_blank_line raw_block) [ some parts ↦ parts | none ↦ ([], raw_block) ]
]

-- `std::getline` over a text: no line stands behind the last line feed.
abbrev pub join_line : ℕ → List Bytes → List Bytes
join_line c [] = (c ∷ []) ∷ []
join_line c (line ∷ lines) = (c ∷ line) ∷ lines

unfoldable pub header_lines : Bytes → List Bytes
header_lines [] = []
header_lines (c ∷ stream) =
    let lines = header_lines stream in if c == b'\n' then [] ∷ lines else join_line c lines

abbrev pub strip_cr : Bytes → Bytes
strip_cr line = if back_is b'\r' line then pop_back line else line

-- `result += " " + appended`, unless nothing is left of the line.
abbrev pub fold_line : Bytes → Bytes → Bytes
fold_line result line =
    let appended = trim line in if is_empty appended then result else result ++ b' ' ∷ appended

-- A line of the loop of `GetHeaderValue`, on `found` and `result`; `none` is the break.
unfoldable pub header_line : Bytes → Bool × Bytes → Bytes → Option (Bool × Bytes)
unfolding cut_at? trim
header_line lower_key (found, result) line =
    if is_empty line
    then some (found, result)
    else if found && (front_is b' ' line || front_is b'\t' line)
    then some (true, fold_line result line)
    else if found
    then none
    else elim (cut_at? (codes ":") line) [
      | none ↦ some (false, result)
      | some (current_key, header) ↦
          if i_equals current_key lower_key then some (true, trim header) else some (false, result)
    ]

unfoldable pub header_loop : Bytes → Bool × Bytes → List Bytes → Bytes
unfolding header_line
header_loop lower_key state [] = state.1
header_loop lower_key state (line ∷ lines) = elim (header_line lower_key state (strip_cr line)) [
  | none ↦ state.1
  | some state' ↦ header_loop lower_key state' lines
]

abbrev pub strip_colon : Bytes → Bytes
strip_colon key = if back_is b':' key then pop_back key else key

-- `GetHeaderValue`
unfoldable pub get_header_value : Bytes → Bytes → Bytes
unfolding header_loop header_lines
get_header_value headers key =
    header_loop (strip_colon (to_lower key)) (false, []) (header_lines headers)

-- `find_first_of(" ;\r\n", pos)`
abbrev pub ends_value : ℕ → Bool
ends_value c = c == b' ' || c == b';' || c == b'\r' || c == b'\n'

-- The value of a parameter behind its "=": quoted, without a closing quote empty, or up to a blank or
-- a semicolon.
unfoldable pub parameter_value : Bytes → Bytes
unfolding cut_at?
parameter_value [] = []
parameter_value (c ∷ rest) =
    if c == b'"'
    then elim (cut_at? (b'"' ∷ []) rest) [ none ↦ [] | some (quoted, _) ↦ quoted ]
    else take_until ends_value (c ∷ rest)

-- The bytes of `header` behind the first occurrence of `name` in `searched`, which is as long.
unfoldable pub behind : Bytes → Bytes → Bytes → Bytes
unfolding cut_at?
behind name searched header = elim (cut_at? name searched) [
  | none ↦ []
  | some (_, after) ↦ drop (length header - length after) header
]

-- `ExtractBoundary` and `ExtractCharset` find the name in any case.
unfoldable pub extract_boundary : Bytes → Bytes
unfolding parameter_value behind trim
extract_boundary content_type_header = trim (
    parameter_value (behind (codes "boundary=") (to_lower content_type_header) content_type_header))

unfoldable pub extract_charset : Bytes → Bytes
unfolding parameter_value behind trim
extract_charset content_type_header =
    trim (
      parameter_value
        (behind (codes "charset=") (to_lower content_type_header) content_type_header))

-- `ExtractFileName`
unfoldable pub extract_file_name : Bytes → Bytes
unfolding parameter_value behind trim get_header_value decode_encoded_word
extract_file_name part_headers =
    let disp = get_header_value part_headers (codes "Content-Disposition:") in
    let ctype = get_header_value part_headers (codes "Content-Type:") in
    let given = parameter_value (behind (codes "filename=") disp disp) in
    let named =
      if is_empty given then parameter_value (behind (codes "name=") ctype ctype) else given in
    decode_encoded_word (trim (if is_empty named then codes "unnamed_file" else named))

-- `angle_depth`, `in_quotes` and `current` of `SplitAddresses`.
pub record Scan : Type 0 where
  pub angle_depth : ℕ
  pub in_quotes : Bool
  pub current : Bytes

abbrev pub new_scan : Scan
new_scan = record { angle_depth = 0; in_quotes = false; current = [] }

abbrev pub add_address : Bytes → List Bytes → List Bytes
add_address current result =
    let trimmed = trim current in if is_empty trimmed then result else trimmed ∷ result

-- A byte that is no separator.
unfoldable pub scan_byte : Scan → ℕ → Scan
scan_byte s c =
    let kept = s.current ++ c ∷ [] in
    if c == b'"' && s.angle_depth == 0
    then record s { in_quotes = not s.in_quotes; current = kept }
    else if not s.in_quotes && c == b'<'
    then record s { angle_depth = s.angle_depth + 1; current = kept }
    else if not s.in_quotes && c == b'>'
    then record s { angle_depth = s.angle_depth - 1; current = kept }
    else record s { current = kept }

abbrev pub is_separator : Scan → ℕ → Bool
is_separator s c = not s.in_quotes && s.angle_depth == 0 && c == b','

-- The loop of `SplitAddresses`.
unfoldable pub scan_addresses : Scan → Bytes → List Bytes
unfolding scan_byte trim
scan_addresses s [] = add_address s.current []
scan_addresses s (c ∷ header_value) =
    let separated = is_separator s c in
    let next_scan = if separated then record s { current = [] } else scan_byte s c in
    let rest = scan_addresses next_scan header_value in
    if separated then add_address s.current rest else rest

unfoldable pub split_addresses : Bytes → List Bytes
unfolding scan_addresses
split_addresses header_value = scan_addresses new_scan header_value
