-- ===== src/Mime/Lookup.antt =====
-- mime/src/MimeParser.cpp: `SplitHeadersAndBody` and `GetHeaderValue` on a message that is written
-- as RFC 5322 says.
use ua_5308_smtp.Prelude.{
  ℕ, suc, ◌+◌, ◌-◌, ◌≡◌, refl, ap, ◌∙◌, true, false, not, ◌||◌, some, none, List, [], ◌∷◌, ◌++◌,
  append_assoc, append-nil, ◌==◌, if◌then◌else◌, Bytes, equal, All, arith, front_is, back_is,
  pop_back, starts_with, Bool-cases, inl, inr, Option-cases, find_index?, find_last_index?, substr,
  is_blank, codes,
}
use ua_5308_smtp.Prelude.Search.{cut_at?, to_lower, lower_byte}
use ua_5308_smtp.StringUtils.{trim}
use ua_5308_smtp.Mime.Headers.{
  blank_line, split_headers_and_body, header_lines, strip_colon, header_line, header_loop,
  get_header_value,
}
use ua_5308_smtp.Mime.Message.{
  Header, IsHeader, is_name_byte, is_value_byte, write_line, write_headers, write_message,
  first_value, cut_at?-skip, cut_at?-here, header_lines-write_headers, All-map, write_line-IsLine,
}

to_lower-to_lower : (s : Bytes) → to_lower (to_lower s) ≡ to_lower s
to_lower-to_lower [] = refl
to_lower-to_lower (c ∷ s) = ground (arith, to_lower-to_lower s)

-- A blank in front is trimmed.
trim-blank : (s : Bytes) → trim (b' ' ∷ s) ≡ trim s
unfolding trim
trim-blank s = elim (Option-cases (find_index? (λ c. not (is_blank c)) s)) [
  | inl missing ↦ rw (missing, trim) refl
  | inr (i, found) ↦ elim (Option-cases (find_last_index? (λ c. not (is_blank c)) s)) [
    | inl missing ↦ rw (found, trim, missing) refl
    | inr (j, last) ↦
        rw (found, trim, last)
          (ap (λ (n : ℕ). substr s i (n + 1)) (let e : suc j - suc i ≡ j - i = omega arith in e))
  ]
]

cut_at?-colon :
    (name header : Bytes)
    → All (λ c. is_name_byte c ≡ true) name
    → cut_at? (codes ":") (name ++ b':' ∷ header) ≡ some (name, header)
cut_at?-colon name header h =
    cut_at?-skip b':' [] name (b':' ∷ header) [] header
      (All-map (λ c. is_name_byte c ≡ true) (λ c. (c == b':') ≡ false) (λ c k. ground arith) name h)
      (cut_at?-here [] header b':')
    ∙ ap (λ (n : Bytes). some (n, header)) (append-nil name)

-- The line of a header, before one is found.
header_line-write_line :
    (key : Bytes) (h : Header)
    → IsHeader h
    → header_line (to_lower key) (false, []) (write_line h)
      ≡ (if equal (to_lower h.0) (to_lower key) then some (true, h.1) else some (false, []))
unfolding header_line
header_line-write_line key ([], header) h = cc
header_line-write_line key (c ∷ name, header) h =
    rw (cut_at?-colon (c ∷ name) (b' ' ∷ header) h.1, to_lower-to_lower key, trim-blank header, h.3)
      refl

name_byte-no_blank : (c : ℕ) → is_name_byte c ≡ true → (c == b' ' || c == b'\t') ≡ false
name_byte-no_blank c h = ground arith

-- The next header ends the value.
header_line-found :
    (key found : Bytes) (h : Header)
    → IsHeader h
    → header_line key (true, found) (write_line h) ≡ none
unfolding header_line
header_line-found key found ([], header) h = cc
header_line-found key found (c ∷ name, header) h = rw (name_byte-no_blank c h.1.0) refl

header_loop-found :
    (key found : Bytes) (hs : List Header)
    → All IsHeader hs
    → header_loop key (true, found) (header_lines (write_headers hs)) ≡ found
unfolding header_loop header_lines
header_loop-found key found [] h = refl
header_loop-found key found (k ∷ hs) h =
    let (line, stripped, lines) = header_lines-write_headers k hs h.0 in
    rw (lines, header_loop, stripped, header_line-found key found k h.0) refl

header_loop-write_headers :
    (key : Bytes) (hs : List Header)
    → All IsHeader hs
    → header_loop (to_lower key) (false, []) (header_lines (write_headers hs)) ≡ first_value key hs
unfolding header_loop header_lines
header_loop-write_headers key [] h = refl
header_loop-write_headers key (k ∷ hs) h =
    let (line, stripped, lines) = header_lines-write_headers k hs h.0 in
    elim (Bool-cases (equal (to_lower k.0) (to_lower key))) [
      | inl same ↦
          rw (lines, header_loop, stripped, header_line-write_line key k h.0, same)
            (header_loop-found (to_lower key) k.1 hs h.1)
      | inr other ↦
          rw (lines, header_loop, stripped, header_line-write_line key k h.0, other)
            (header_loop-write_headers key hs h.1)
    ]

-- The key is given with its colon.
strip_colon-key : (key : Bytes) → strip_colon (to_lower (key ++ b':' ∷ [])) ≡ to_lower key
strip_colon-key key = rw (back key, pop key) refl
  where
    back : (key : Bytes) → back_is b':' (to_lower (key ++ b':' ∷ [])) ≡ true
    back [] = refl
    back (c ∷ []) = refl
    back (c ∷ d ∷ key) = back (d ∷ key)

    pop : (key : Bytes) → pop_back (to_lower (key ++ b':' ∷ [])) ≡ to_lower key
    pop [] = refl
    pop (c ∷ []) = refl
    pop (c ∷ d ∷ key) = ap (◌∷◌ (lower_byte c)) (pop (d ∷ key))

get_header_value-write_headers :
    (key : Bytes) (hs : List Header)
    → All IsHeader hs
    → get_header_value (write_headers hs) (key ++ b':' ∷ []) ≡ first_value key hs
unfolding get_header_value
get_header_value-write_headers key hs h =
    rw (strip_colon-key key) (header_loop-write_headers key hs h)

cut_at?-next :
    (c : ℕ) (pattern s before after : Bytes)
    → starts_with (c ∷ s) pattern ≡ false
    → cut_at? pattern s ≡ some (before, after)
    → cut_at? pattern (c ∷ s) ≡ some (c ∷ before, after)
unfolding cut_at?
cut_at?-next c pattern s before after h found = rw (h, found) refl

-- A line end in front of another byte than a carriage return is no blank line.
cut_at?-line_end :
    (s before after : Bytes)
    → front_is b'\r' s ≡ false
    → cut_at? blank_line s ≡ some (before, after)
    → cut_at? blank_line (b'\r' ∷ b'\n' ∷ s) ≡ some (b'\r' ∷ b'\n' ∷ before, after)
cut_at?-line_end s before after h found =
    cut_at?-next b'\r' blank_line (b'\n' ∷ s) (b'\n' ∷ before) after (third s h)
      (cut_at?-next b'\n' blank_line s before after refl found)
  where
    third :
        (s : Bytes) → front_is b'\r' s ≡ false → starts_with (b'\r' ∷ b'\n' ∷ s) blank_line ≡ false
    third [] h = refl
    third (c ∷ s) h = rw h refl

front-write_headers :
    (k : Header) (hs : List Header) (rest : Bytes)
    → IsHeader k
    → front_is b'\r' (write_headers (k ∷ hs) ++ rest) ≡ false
front-write_headers ([], header) hs rest h = cc
front-write_headers (c ∷ name, header) [] rest h = ground (arith, h.1.0)
front-write_headers (c ∷ name, header) (k ∷ hs) rest h = ground (arith, h.1.0)

no_return : (h : Header) → IsHeader h → All (λ c. (c == b'\r') ≡ false) (write_line h)
no_return h ok =
    All-map (λ c. is_value_byte c ≡ true) (λ c. (c == b'\r') ≡ false) (λ c k. ground arith)
      (write_line h) (write_line-IsLine h ok)

-- The blank line ends the headers.
cut_at?-write_message :
    (hs : List Header) (body : Bytes)
    → All IsHeader hs
    → cut_at? blank_line (write_message hs body) ≡ some (write_headers hs, body)
cut_at?-write_message [] body h = cut_at?-here (b'\n' ∷ b'\r' ∷ b'\n' ∷ []) body b'\r'
cut_at?-write_message (k ∷ []) body h =
    cut_at?-skip b'\r' (b'\n' ∷ b'\r' ∷ b'\n' ∷ []) (write_line k) (blank_line ++ body) [] body
      (no_return k h.0) (cut_at?-here (b'\n' ∷ b'\r' ∷ b'\n' ∷ []) body b'\r')
    ∙ ap (λ (n : Bytes). some (n, body)) (append-nil (write_line k))
cut_at?-write_message (k ∷ j ∷ hs) body h =
    ap (cut_at? blank_line)
      (append_assoc (write_line k) (b'\r' ∷ b'\n' ∷ write_headers (j ∷ hs)) (blank_line ++ body))
    ∙ cut_at?-skip b'\r' (b'\n' ∷ b'\r' ∷ b'\n' ∷ []) (write_line k)
        (b'\r' ∷ b'\n' ∷ write_message (j ∷ hs) body) (b'\r' ∷ b'\n' ∷ write_headers (j ∷ hs)) body
        (no_return k h.0)
        (cut_at?-line_end (write_message (j ∷ hs) body) (write_headers (j ∷ hs)) body
          (front-write_headers j hs (blank_line ++ body) h.1.0)
          (cut_at?-write_message (j ∷ hs) body h.1))

-- The headers and the body of a message that is written with one line for each header, a blank line and
-- the body are found: the body as it is, and for every name the value of the first header with this
-- name in any case of letters, or nothing.
pub get_header_value-write_message :
    (key : Bytes) (hs : List Header) (body : Bytes)
    → All IsHeader hs
    → (get_header_value (split_headers_and_body (write_message hs body)).0 (key ++ b':' ∷ [])
        ≡ first_value key hs)
      × ((split_headers_and_body (write_message hs body)).1 ≡ body)
unfolding split_headers_and_body
get_header_value-write_message key hs body h =
    rw (cut_at?-write_message hs body h, split_headers_and_body)
      (get_header_value-write_headers key hs h, refl)
