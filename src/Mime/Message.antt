-- ===== src/Mime/Message.antt =====
-- mime/src/MimeParser.cpp: the headers of a message as RFC 5322 writes it, one line for each, and what
-- `SplitHeadersAndBody` and `GetHeaderValue` find of them.
use ua_5308_smtp.Prelude.{
  ℕ, ◌≡◌, refl, ap, ◌∙◌, Bool, true, false, not, ◌&&◌, some, List, [], ◌∷◌, ◌++◌, ◌==◌, leb,
  if◌then◌else◌, Bytes, equal, All, All-append, arith, is_empty, back_is, pop_back,
  starts_with-append, drop-append,
}
use ua_5308_smtp.Prelude.Search.{cut_at?, to_lower}
use ua_5308_smtp.StringUtils.{trim}
use ua_5308_smtp.Mime.Headers.{blank_line, header_lines, strip_cr}

abbrev pub Header : Type 0
Header = Bytes × Bytes

-- The bytes of a name, from 33 to 126 without the colon.
abbrev pub is_name_byte : ℕ → Bool
is_name_byte c = leb 33 c && leb c 126 && not (c == b':')

abbrev pub is_value_byte : ℕ → Bool
is_value_byte c = not (c == b'\r') && not (c == b'\n')

-- A name of one byte or more, and a value on one line, without blanks around it.
abbrev pub IsHeader : Header → Type 0
IsHeader (name, header) =
    (is_empty name ≡ false)
    × All (λ c. is_name_byte c ≡ true) name
    × All (λ c. is_value_byte c ≡ true) header
    × (trim header ≡ header)

abbrev pub write_line : Header → Bytes
write_line (name, header) = name ++ (b':' ∷ b' ' ∷ header)

abbrev pub write_headers : List Header → Bytes
write_headers [] = []
write_headers (h ∷ []) = write_line h
write_headers (h ∷ k ∷ hs) = write_line h ++ (b'\r' ∷ b'\n' ∷ write_headers (k ∷ hs))

abbrev pub write_message : List Header → Bytes → Bytes
write_message hs body = write_headers hs ++ (blank_line ++ body)

-- The value of the first header with the name, in any case of letters.
abbrev pub first_value : Bytes → List Header → Bytes
first_value key [] = []
first_value key ((name, header) ∷ hs) =
    if equal (to_lower name) (to_lower key) then header else first_value key hs

-- A text without the pattern's first byte is passed over.
pub cut_at?-skip :
    (c : ℕ) (pattern s rest before after : Bytes)
    → All (λ d. (d == c) ≡ false) s
    → cut_at? (c ∷ pattern) rest ≡ some (before, after)
    → cut_at? (c ∷ pattern) (s ++ rest) ≡ some (s ++ before, after)
unfolding cut_at?
cut_at?-skip c pattern [] rest before after h found = found
cut_at?-skip c pattern (d ∷ s) rest before after h found =
    rw (h.0, cut_at?-skip c pattern s rest before after h.1 found) refl

==_self : (c : ℕ) → (c == c) ≡ true
==_self c = ground arith

pub cut_at?-here :
    (pattern rest : Bytes) (c : ℕ) → cut_at? (c ∷ pattern) (c ∷ (pattern ++ rest)) ≡ some ([], rest)
unfolding cut_at?
cut_at?-here pattern rest c =
    rw (==_self c, starts_with-append pattern rest, drop-append pattern rest) refl

pub All-map {ℓ κ} :
    {A : Type ℓ} (P Q : A → Type κ) → ((a : A) → P a → Q a) → (xs : List A) → All P xs → All Q xs
All-map P Q f [] h = tt
All-map P Q f (x ∷ xs) h = (f x h.0, All-map P Q f xs h.1)

-- A line of a header has no carriage return and no line feed.
abbrev pub IsLine : Bytes → Type 0
IsLine line = All (λ c. is_value_byte c ≡ true) line

pub write_line-IsLine : (h : Header) → IsHeader h → IsLine (write_line h)
write_line-IsLine (name, header) h =
    All-append _ name (b':' ∷ b' ' ∷ header)
      (All-map (λ c. is_name_byte c ≡ true) (λ c. is_value_byte c ≡ true) (λ c ok. ground arith)
        name h.1)
      (refl, (refl, h.2))

header_lines-line :
    (line rest : Bytes)
    → All (λ c. (c == b'\n') ≡ false) line
    → header_lines (line ++ b'\n' ∷ rest) ≡ line ∷ header_lines rest
unfolding header_lines
header_lines-line [] rest h = refl
header_lines-line (c ∷ line) rest h = rw (h.0, header_lines-line line rest h.1) refl

header_lines-last :
    (line : Bytes)
    → All (λ c. (c == b'\n') ≡ false) line
    → is_empty line ≡ false
    → header_lines line ≡ line ∷ []
unfolding header_lines
header_lines-last [] h some_byte = cc
header_lines-last (c ∷ []) h some_byte = rw h.0 refl
header_lines-last (c ∷ d ∷ line) h some_byte = rw (h.0, header_lines-last (d ∷ line) h.1 refl) refl

strip_cr-return : (line : Bytes) → strip_cr (line ++ b'\r' ∷ []) ≡ line
strip_cr-return line = rw (back line, pop line) refl
  where
    back : (line : Bytes) → back_is b'\r' (line ++ b'\r' ∷ []) ≡ true
    back [] = refl
    back (c ∷ []) = refl
    back (c ∷ d ∷ line) = back (d ∷ line)

    pop : (line : Bytes) → pop_back (line ++ b'\r' ∷ []) ≡ line
    pop [] = refl
    pop (c ∷ []) = refl
    pop (c ∷ d ∷ line) = ap (◌∷◌ c) (pop (d ∷ line))

strip_cr-line : (line : Bytes) → IsLine line → strip_cr line ≡ line
strip_cr-line line h = rw (back line h) refl
  where
    back : (line : Bytes) → All (λ c. is_value_byte c ≡ true) line → back_is b'\r' line ≡ false
    back [] h = refl
    back (c ∷ []) h = ground (arith, h.0)
    back (c ∷ d ∷ line) h = back (d ∷ line) h.1

value_byte-no_feed : (c : ℕ) → is_value_byte c ≡ true → (c == b'\n') ≡ false
value_byte-no_feed c h = ground arith

no_feed : (line : Bytes) → IsLine line → All (λ c. (c == b'\n') ≡ false) line
no_feed line h =
    All-map (λ c. is_value_byte c ≡ true) (λ c. (c == b'\n') ≡ false) value_byte-no_feed line h

write_line-some_byte : (h : Header) → is_empty (write_line h) ≡ false
write_line-some_byte ([], header) = refl
write_line-some_byte (c ∷ name, header) = refl

-- The lines of the headers are read one after the other.
pub header_lines-write_headers :
    (h : Header) (hs : List Header)
    → IsHeader h
    → (line : Bytes) × (strip_cr line ≡ write_line h)
      × (header_lines (write_headers (h ∷ hs)) ≡ line ∷ header_lines (write_headers hs))
unfolding header_lines
header_lines-write_headers h [] ok =
    let is_line = write_line-IsLine h ok in
    (
      write_line h,
      strip_cr-line (write_line h) is_line,
      header_lines-last (write_line h) (no_feed (write_line h) is_line) (write_line-some_byte h),
    )
header_lines-write_headers h (k ∷ hs) ok = (
  write_line h ++ b'\r' ∷ [],
  strip_cr-return (write_line h),
  ap header_lines (regroup (write_line h) (write_headers (k ∷ hs)))
      ∙ header_lines-line (write_line h ++ b'\r' ∷ []) (write_headers (k ∷ hs)) (
          All-append _ (write_line h) (b'\r' ∷ []) (no_feed (write_line h) (write_line-IsLine h ok))
            (refl, tt)),
)
  where
    regroup : (a b : Bytes) → a ++ (b'\r' ∷ b'\n' ∷ b) ≡ (a ++ b'\r' ∷ []) ++ b'\n' ∷ b
    regroup [] b = refl
    regroup (c ∷ a) b = ap (◌∷◌ c) (regroup a b)
