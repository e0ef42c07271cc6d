-- ===== src/Mime/Structure.antt =====
-- mime/src/MimeParser.cpp: `ParseStructure`, and the tree of mime/include/MimePart.h. `none` is a
-- recursion that ran out of fuel.
use ua_5308_smtp.Prelude.{
  ℕ, zero, suc, Bool, true, false, Option, some, none, List, [], ◌∷◌, ◌==◌, equal, if◌then◌else◌,
  Bytes, codes, is_empty, length, take_until,
}
use ua_5308_smtp.Prelude.Search.{cut_at?, to_lower}
use ua_5308_smtp.StringUtils.{trim}
use ua_5308_smtp.Mime.Headers.{
  split_headers_and_body, get_header_value, extract_boundary, extract_charset, extract_file_name,
}
use ua_5308_smtp.Mime.Parser.{parts_of, or_seven_bit}

-- The fields of a node but its children.
pub record Node : Type 0 where
  pub part_type : Bytes
  pub subtype : Bytes
  pub charset : Bytes
  pub encoding : Bytes
  pub filename : Bytes
  pub size : ℕ
  pub lines : ℕ
  pub boundary : Bytes

mutual
  pub data MimePart : Type 0 where
    part : Node → MimeParts → MimePart

  pub data MimeParts : Type 0 where
    no_parts : MimeParts
    add_part : MimePart → MimeParts → MimeParts

abbrev pub new_node : Node
new_node = record {
  part_type = [];
  subtype = [];
  charset = [];
  encoding = [];
  filename = [];
  size = 0;
  lines = 0;
  boundary = [];
}

-- `std::count` of line feeds.
abbrev pub count_lines : Bytes → ℕ
count_lines [] = 0
count_lines (c ∷ body) = if c == b'\n' then suc (count_lines body) else count_lines body

-- The type and the subtype of a content type without its parameters.
unfoldable pub split_type : Bytes → Bytes × Bytes
unfolding cut_at?
split_type ct_no_params = elim (cut_at? (codes "/") ct_no_params) [
  | some types ↦ types
  | none ↦ if is_empty ct_no_params then (codes "text", codes "plain") else (ct_no_params, [])
]

abbrev clear_unnamed : Bytes → Bytes
clear_unnamed filename = if equal filename (codes "unnamed_file") then [] else filename

-- The fields of a part that is not a multipart.
unfoldable pub leaf : Bytes → Bytes → Bytes × Bytes → Node
unfolding get_header_value extract_charset extract_file_name
leaf headers body (part_type, subtype) = record {
  part_type = part_type;
  subtype = subtype;
  charset = extract_charset (get_header_value headers (codes "Content-Type:"));
  encoding =
      or_seven_bit (to_lower (get_header_value headers (codes "Content-Transfer-Encoding:")));
  filename = clear_unnamed (extract_file_name headers);
  size = length body;
  lines = count_lines body;
  boundary = [];
}

unfoldable pub structures : (Bytes → Option MimePart) → List Bytes → Option MimeParts
structures structure [] = some no_parts
structures structure (sub_part ∷ parts) = elim (structure sub_part) [
  | none ↦ none
  | some child ↦ elim (structures structure parts) [
    | none ↦ none
    | some children ↦ some (add_part child children)
  ]
]

-- The children of a multipart, which has none where the boundary is missing.
unfoldable pub multipart : (Bytes → Option MimePart) → Node → Bytes → Option MimePart
unfolding parts_of structures
multipart structure node body =
    if is_empty node.boundary
    then some (part node no_parts)
    else elim (parts_of body node.boundary) [
      | none ↦ none
      | some parts ↦ elim (structures structure parts) [
        | none ↦ none
        | some children ↦ some (part node children)
      ]
    ]

-- `ParsePartStructure`
unfoldable pub parse_part_structure : ℕ → Bytes → Option MimePart
unfolding split_headers_and_body get_header_value trim split_type extract_boundary multipart leaf
parse_part_structure zero raw_part = none
parse_part_structure (suc fuel) raw_part =
    let (headers, body) = split_headers_and_body raw_part in
    let content_type = get_header_value headers (codes "Content-Type:") in
    let types = split_type (trim (take_until (λ c. c == b';') (to_lower content_type))) in
    let node = record new_node {
      part_type = types.0;
      subtype = types.1;
      boundary = extract_boundary content_type;
    } in
    let children = multipart (parse_part_structure fuel) node body in
    if equal types.0 (codes "multipart")
    then children
    else some (part (leaf headers body types) no_parts)

-- `ParseStructure`: nothing is made of an empty message.
unfoldable pub parse_structure : Bytes → Option (Bool × MimePart)
unfolding parse_part_structure
parse_structure raw_mime =
    if is_empty raw_mime
    then some (false, part new_node no_parts)
    else elim (parse_part_structure (suc (length raw_mime)) raw_mime) [
      | none ↦ none
      | some root ↦ some (true, root)
    ]
