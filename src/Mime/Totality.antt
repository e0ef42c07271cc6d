-- ===== src/Mime/Totality.antt =====
-- mime/src/MimeParser.cpp: `ParseEmail` and `ParseStructure` return for every message.
use ua_5308_smtp.Prelude.{
  ℕ, zero, suc, ◌≤◌, ◌<◌, ◌≡◌, refl, Bool, true, false, not, ◌&&◌, ◌==◌, Bool-cases, Option-cases,
  inl, inr, Option, some, none, List, [], ◌∷◌, ◌++◌, Bytes, codes, starts_with, is_empty, length,
  All, arith, if◌then◌else◌,
}
use ua_5308_smtp.Prelude.Search.{cut_at?, contains, to_lower, length-cut_at?}
use ua_5308_smtp.Mime.Decoder.{decode_quoted_printable, is_hex, is_line_end, internal_hex_to_char}
use ua_5308_smtp.Mime.Email.{Email}
use ua_5308_smtp.Mime.Headers.{
  split_headers_and_body, blank_line, bare_blank_line, get_header_value, extract_boundary,
}
use ua_5308_smtp.Mime.Parser.{
  skip_line_end, parts_behind, parts_of, process_parts, parse_multipart_body, part_body,
  process_mime_part, parse_main_headers, parse_single, set_boundary, parse_email_in, parse_email,
}

-- A text is found.
abbrev pub Returns {ℓ} : {A : Type ℓ} → Option A → Type ℓ
Returns {A = A} r = (a : A) × (r ≡ some a)

pub if-Returns {ℓ} :
    {A : Type ℓ} (b : Bool) (x y : Option A) → Returns x → Returns y → Returns (if b then x else y)
if-Returns true x y h k = h
if-Returns false x y h k = k

pub some-Returns {ℓ} : {A : Type ℓ} (a : A) → Returns (some a)
some-Returns a = (a, refl)

parsed-Returns :
    (r : Option Email)
    → Returns r
    → Returns {A = Bool × Email} (elim r [ none ↦ none | some parsed ↦ some (true, parsed) ])
parsed-Returns r (parsed, e) = rw e (some-Returns (true, parsed))

length-skip_line_end : (body : Bytes) → length (skip_line_end body) ≤ length body
length-skip_line_end [] = omega arith
length-skip_line_end (c ∷ []) = ground arith
length-skip_line_end (c ∷ d ∷ body) = ground arith

abbrev AtMost : ℕ → List Bytes → Type 0
AtMost n parts = All (λ part_raw. length part_raw ≤ n) parts

AtMost-le : (m n : ℕ) (parts : List Bytes) → m ≤ n → AtMost m parts → AtMost n parts
AtMost-le m n [] h all = tt
AtMost-le m n (p ∷ parts) h all = (omega (arith, all.0), AtMost-le m n parts h all.1)

-- With more fuel than bytes the loop ends, and gives parts within the body.
parts_behind-Returns :
    (fuel : ℕ) (delimiter body : Bytes)
    → 0 < length delimiter
    → length body < fuel
    → (parts : List Bytes) × (parts_behind fuel delimiter body ≡ some parts)
      × AtMost (length body) parts
unfolding parts_behind
parts_behind-Returns zero delimiter body pos enough = absurd (omega arith)
parts_behind-Returns (suc fuel) delimiter body pos enough =
    let start = skip_line_end body in
    elim (Bool-cases (starts_with start (codes "--"))) [
      | inl closing ↦ ([], rw closing refl, tt)
      | inr open_part ↦ elim (Option-cases (cut_at? delimiter start)) [
        | inl missing ↦ ([], rw (open_part, missing) refl, tt)
        | inr (p, found) ↦
            let shorter = length-cut_at? delimiter start p.0 p.1 found in
            let within = length-skip_line_end body in
            let (parts, e, all) =
              parts_behind-Returns fuel delimiter p.1 pos (omega (arith, shorter, within)) in
            (
              p.0 ∷ parts,
              rw (open_part, found, e) refl,
              (
                omega (arith, shorter, within),
                AtMost-le (length p.1) (length body) parts (omega (arith, shorter, within)) all,
              ),
            )
      ]
    ]

abbrev pub Below : ℕ → List Bytes → Type 0
Below n parts = All (λ part_raw. length part_raw < n) parts

AtMost-lt : (m n : ℕ) (parts : List Bytes) → m < n → AtMost m parts → Below n parts
AtMost-lt m n [] h all = tt
AtMost-lt m n (p ∷ parts) h all = (omega (arith, all.0), AtMost-lt m n parts h all.1)

-- The parts of a body are shorter than it.
pub parts_of-Returns :
    (body boundary : Bytes)
    → (parts : List Bytes) × (parts_of body boundary ≡ some parts) × Below (length body) parts
unfolding parts_of
parts_of-Returns body boundary = elim (Option-cases (cut_at? (codes "--" ++ boundary) body)) [
  | inl missing ↦ ([], rw (missing, parts_of) refl, tt)
  | inr (p, found) ↦
      let shorter = length-cut_at? (codes "--" ++ boundary) body p.0 p.1 found in
      let (parts, e, all) =
        parts_behind-Returns (suc (length p.1)) (codes "--" ++ boundary) p.1 (omega arith)
          (omega arith) in
      (
        parts,
        rw (found, parts_of, e) refl,
        AtMost-lt (length p.1) (length body) parts (omega (arith, shorter)) all,
      )
]

length-if :
    (b : Bool) (x y : Bytes) (n : ℕ) → length x ≤ n → length y ≤ n → length (if b then x else y) ≤ n
length-if true x y n h k = h
length-if false x y n h k = k

length-decode_quoted_printable : (s : Bytes) → length (decode_quoted_printable s) ≤ length s
unfolding decode_quoted_printable
length-decode_quoted_printable [] = omega arith
length-decode_quoted_printable (c ∷ []) = omega arith
length-decode_quoted_printable (c ∷ h ∷ []) = ground arith
length-decode_quoted_printable (c ∷ h ∷ l ∷ s) =
    let behind_three = length-decode_quoted_printable s in
    length-if (c == b'=' && is_line_end h) _ _ _
      (length-if (h == b'\r' && l == b'\n') (decode_quoted_printable s)
        (decode_quoted_printable (l ∷ s)) _ (omega (arith, behind_three))
        (omega (arith, length-decode_quoted_printable (l ∷ s))))
      (length-if (c == b'=' && is_hex h && is_hex l)
        (internal_hex_to_char h l ∷ decode_quoted_printable s)
        (c ∷ decode_quoted_printable (h ∷ l ∷ s)) _ (omega (arith, behind_three))
        (omega (arith, length-decode_quoted_printable (h ∷ l ∷ s))))

length-part_body : (headers body : Bytes) → length (part_body headers body) ≤ length body
unfolding part_body
length-part_body headers body = ground (arith, length-decode_quoted_printable body)

-- The body of a block is within the block.
pub length-split_headers_and_body :
    (raw_block : Bytes) → length (split_headers_and_body raw_block).1 ≤ length raw_block
unfolding split_headers_and_body
length-split_headers_and_body raw_block = elim (Option-cases (cut_at? blank_line raw_block)) [
  | inr (p, found) ↦
      rw (found, split_headers_and_body)
        (omega (arith, length-cut_at? blank_line raw_block p.0 p.1 found))
  | inl missing ↦ elim (Option-cases (cut_at? bare_blank_line raw_block)) [
    | inr (p, found) ↦
        rw (missing, split_headers_and_body, found)
          (omega (arith, length-cut_at? bare_blank_line raw_block p.0 p.1 found))
    | inl none_either ↦ rw (missing, split_headers_and_body, none_either) (omega arith)
  ]
]

process_parts-Returns :
    (n : ℕ) (process : Bytes → Email → Option Email)
    → ((part_raw : Bytes) (email : Email) → length part_raw < n → Returns (process part_raw email))
    → (parts : List Bytes) (email : Email) → Below n parts
    → Returns (process_parts process parts email)
unfolding process_parts
process_parts-Returns n process all [] email h = (email, refl)
process_parts-Returns n process all (p ∷ parts) email h =
    let (email1, e) = all p email h.0 in
    let (email2, e2) = process_parts-Returns n process all parts email1 h.1 in
    (email2, rw (e, process_parts) e2)

-- A body whose parts are processed is processed.
parse_multipart_body-Returns :
    (process : Bytes → Email → Option Email) (body boundary : Bytes) (email : Email)
    → ((part_raw : Bytes) (email : Email)
        → length part_raw < length body
        → Returns (process part_raw email))
    → Returns (parse_multipart_body process body boundary email)
unfolding parse_multipart_body
parse_multipart_body-Returns process body boundary email all =
    let (parts, e, below) = parts_of-Returns body boundary in
    rw (e, parse_multipart_body) (process_parts-Returns (length body) process all parts email below)

-- More fuel than bytes is enough for a part.
process_mime_part-Returns :
    (fuel : ℕ) (part_raw : Bytes) (email : Email)
    → length part_raw < fuel
    → Returns (process_mime_part fuel part_raw email)
unfolding process_mime_part
process_mime_part-Returns zero part_raw email h = absurd (omega arith)
process_mime_part-Returns (suc fuel) part_raw email h =
    let (headers, raw_body) = split_headers_and_body part_raw in
    let within = length-split_headers_and_body part_raw in
    let decoded = length-part_body headers raw_body in
    if-Returns _ _ _
      (if-Returns _ _ _ (some-Returns _) (
        parse_multipart_body-Returns (process_mime_part fuel) (part_body headers raw_body) _ _
          (λ sub_part email1 shorter.
            process_mime_part-Returns fuel sub_part email1
              (omega (arith, shorter, within, decoded)))))
      (some-Returns _)

parse_email_in-Returns :
    (fuel : ℕ) (raw_mime : Bytes) (email : Email)
    → length raw_mime ≤ fuel
    → Returns (parse_email_in fuel raw_mime email)
unfolding parse_email_in
parse_email_in-Returns fuel raw_mime email h =
    let (headers, body) = split_headers_and_body raw_mime in
    let within = length-split_headers_and_body raw_mime in
    let email1 = parse_main_headers headers email in
    let given = get_header_value headers (codes "Content-Type:") in
    let boundary = extract_boundary given in
    let multipart_returns =
      parse_multipart_body-Returns (process_mime_part fuel) body boundary
        (set_boundary (to_lower given) boundary email1)
        (λ part_raw email2 shorter.
          process_mime_part-Returns fuel part_raw email2 (omega (arith, shorter, within))) in
    if-Returns (is_empty raw_mime) (some (false, email)) _ (some-Returns (false, email)) (
      if-Returns (not (contains (codes "multipart") (to_lower given)))
        (some (true, parse_single headers body email1)) _
        (some-Returns (true, parse_single headers body email1))
        (if-Returns (is_empty boundary) (some (false, record email1 { plain_text = body })) _
          (some-Returns (false, record email1 { plain_text = body }))
          (parsed-Returns _ multipart_returns)))

-- `ParseEmail` returns for every message, and whatever the email holds before.
pub parse_email-Returns : (raw_mime : Bytes) (email : Email) → Returns (parse_email raw_mime email)
unfolding parse_email
parse_email-Returns raw_mime email =
    parse_email_in-Returns (length raw_mime) raw_mime email (omega arith)
