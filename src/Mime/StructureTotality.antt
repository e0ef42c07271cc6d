-- ===== src/Mime/StructureTotality.antt =====
-- mime/src/MimeParser.cpp: `ParseStructure` returns for every message.
use ua_5308_smtp.Prelude.{
  ℕ, zero, suc, ◌<◌, refl, Option, some, List, [], ◌∷◌, Bytes, codes, ◌==◌, equal, is_empty, length,
  take_until, arith, true, false, Bool-cases, inl, inr,
}
use ua_5308_smtp.Prelude.Search.{to_lower}
use ua_5308_smtp.StringUtils.{trim}
use ua_5308_smtp.Mime.Email.{Email}
use ua_5308_smtp.Mime.Headers.{split_headers_and_body, get_header_value, extract_boundary}
use ua_5308_smtp.Mime.Parser.{parse_email}
use ua_5308_smtp.Mime.Structure.{
  Node, MimePart, part, no_parts, add_part, new_node, split_type, leaf, structures, multipart,
  parse_part_structure, parse_structure,
}
use ua_5308_smtp.Mime.Totality.{
  Returns, Below, if-Returns, some-Returns, parts_of-Returns, length-split_headers_and_body,
  parse_email-Returns,
}

structures-Returns :
    (n : ℕ) (structure : Bytes → Option MimePart)
    → ((sub_part : Bytes) → length sub_part < n → Returns (structure sub_part))
    → (parts : List Bytes) → Below n parts
    → Returns (structures structure parts)
unfolding structures
structures-Returns n structure all [] h = (no_parts, refl)
structures-Returns n structure all (p ∷ parts) h =
    let (child, e) = all p h.0 in
    let (children, e2) = structures-Returns n structure all parts h.1 in
    (add_part child children, rw (structures, e, e2) refl)

multipart-Returns :
    (structure : Bytes → Option MimePart) (node : Node) (body : Bytes)
    → ((sub_part : Bytes) → length sub_part < length body → Returns (structure sub_part))
    → Returns (multipart structure node body)
unfolding multipart
multipart-Returns structure node body all = elim (Bool-cases (is_empty node.boundary)) [
  | inl missing ↦ (part node no_parts, rw (multipart, missing) refl)
  | inr given ↦
      let (parts, e, below) = parts_of-Returns body node.boundary in
      let (children, e2) = structures-Returns (length body) structure all parts below in
      (part node children, rw (multipart, given, e, e2) refl)
]

parse_part_structure-Returns :
    (fuel : ℕ) (raw_part : Bytes)
    → length raw_part < fuel
    → Returns (parse_part_structure fuel raw_part)
unfolding parse_part_structure
parse_part_structure-Returns zero raw_part h = absurd (omega arith)
parse_part_structure-Returns (suc fuel) raw_part h =
    let (headers, body) = split_headers_and_body raw_part in
    let within = length-split_headers_and_body raw_part in
    let content_type = get_header_value headers (codes "Content-Type:") in
    let types = split_type (trim (take_until (λ c. c == b';') (to_lower content_type))) in
    if-Returns (equal types.0 (codes "multipart")) _
      (some (part (leaf headers body types) no_parts))
      (multipart-Returns (parse_part_structure fuel)
        (record new_node {
          part_type = types.0;
          subtype = types.1;
          boundary = extract_boundary content_type;
        })
        body
        (λ sub_part shorter.
          parse_part_structure-Returns fuel sub_part (omega (arith, shorter, within))))
      (some-Returns (part (leaf headers body types) no_parts))

-- `ParseStructure` returns for every message.
pub parse_structure-Returns : (raw_mime : Bytes) → Returns (parse_structure raw_mime)
unfolding parse_structure
parse_structure-Returns raw_mime =
    let (root, e) = parse_part_structure-Returns (suc (length raw_mime)) raw_mime (omega arith) in
    if-Returns (is_empty raw_mime) (some (false, part new_node no_parts)) _
      (some-Returns (false, part new_node no_parts)) ((true, root), rw e refl)

-- `ParseEmail` and `ParseStructure` return for every message, however its parts are nested, and
-- whatever the email holds before.
pub parse-Returns :
    (raw_mime : Bytes) (email : Email)
    → Returns (parse_email raw_mime email) × Returns (parse_structure raw_mime)
parse-Returns raw_mime email =
    (parse_email-Returns raw_mime email, parse_structure-Returns raw_mime)
