-- ===== src/Imap/Sections.antt =====
-- imap-server/src/ImapUtils.cpp: the parts of a multipart body, as RFC 2046 writes them, that
-- `ExtractPartBySection` finds.
use ua_5308_smtp.Prelude.{
  ℕ, zero, suc, ◌≤◌, ◌≡◌, refl, ◌==◌, sym, ap, ◌∙◌, false, some, List, [], ◌∷◌, ◌++◌, Bytes, codes,
  starts_with, back_is, pop_back, length, get_elem?, All, arith, Bool-cases, Option-cases, inl, inr,
  length-append, append_assoc, if◌then◌else◌, starts_with-append, drop-append,
}
use ua_5308_smtp.Prelude.Int.{pos}
use ua_5308_smtp.Prelude.Search.{cut_at?}
use ua_5308_smtp.Imap.Bodies.{drop_line_end, part_behind, first_part, extract_part_by_section}

abbrev pub line_end : Bytes
line_end = b'\r' ∷ b'\n' ∷ []

-- What stands behind a delimiter: the parts, each on lines of its own, and the closing delimiter.
abbrev pub behind_delimiter : Bytes → List Bytes → Bytes → Bytes
behind_delimiter delimiter [] epilogue = b'-' ∷ b'-' ∷ epilogue
behind_delimiter delimiter (p ∷ parts) epilogue =
    b'\r' ∷ b'\n' ∷ (p ++ line_end) ++ (delimiter ++ behind_delimiter delimiter parts epilogue)

abbrev pub write_body : Bytes → Bytes → List Bytes → Bytes → Bytes
write_body delimiter preamble parts epilogue =
    preamble ++ (delimiter ++ behind_delimiter delimiter parts epilogue)

-- The first delimiter behind the text is the one that is put there.
abbrev pub IsFree : Bytes → Bytes → Type 0
IsFree delimiter s = cut_at? delimiter (s ++ delimiter) ≡ some (s, [])

starts_with-longer :
    (s rest p : Bytes) → length p ≤ length s → starts_with (s ++ rest) p ≡ starts_with s p
starts_with-longer s rest [] h = refl
starts_with-longer [] rest (c ∷ p) h = absurd (omega arith)
starts_with-longer (d ∷ s) rest (c ∷ p) h = ground (arith, starts_with-longer s rest p)

-- An occurrence that is not at the front.
cut_at?-later :
    (pattern : Bytes) (d : ℕ) (t before after : Bytes)
    → cut_at? pattern (d ∷ t) ≡ some (d ∷ before, after)
    → (starts_with (d ∷ t) pattern ≡ false) × (cut_at? pattern t ≡ some (before, after))
unfolding cut_at?
cut_at?-later pattern d t before after h = elim (Bool-cases (starts_with (d ∷ t) pattern)) [
  | inl here ↦ ground arith
  | inr later ↦ elim (Option-cases (cut_at? pattern t)) [
    | inl missing ↦ ground arith
    | inr (cut, found) ↦ ground arith
  ]
]

cut_at?-further :
    (pattern : Bytes) (d : ℕ) (t before after : Bytes)
    → starts_with (d ∷ t) pattern ≡ false
    → cut_at? pattern t ≡ some (before, after)
    → cut_at? pattern (d ∷ t) ≡ some (d ∷ before, after)
unfolding cut_at?
cut_at?-further pattern d t before after h found = rw (h, found) refl

cut_at?-free :
    (c : ℕ) (p s rest : Bytes)
    → IsFree (c ∷ p) s
    → cut_at? (c ∷ p) (s ++ ((c ∷ p) ++ rest)) ≡ some (s, rest)
unfolding cut_at?
cut_at?-free c p [] rest h = rw (starts_with-append (c ∷ p) rest, drop-append (c ∷ p) rest) refl
cut_at?-free c p (d ∷ s) rest h =
    let (later, found) = cut_at?-later (c ∷ p) d (s ++ c ∷ p) s [] h in
    let same =
      starts_with-longer (d ∷ s ++ c ∷ p) rest (c ∷ p)
        (omega (arith, length-append {0} s (c ∷ p))) in
    let moved = ap (λ t. starts_with (d ∷ t) (c ∷ p)) (sym (append_assoc s (c ∷ p) rest)) in
    cut_at?-further (c ∷ p) d (s ++ ((c ∷ p) ++ rest)) s rest (moved ∙ same ∙ later)
      (cut_at?-free c p s rest found)

back_is-line_end : (c d : ℕ) (s : Bytes) → back_is d (s ++ c ∷ []) ≡ (c == d)
back_is-line_end c d [] = refl
back_is-line_end c d (x ∷ []) = refl
back_is-line_end c d (x ∷ y ∷ s) = back_is-line_end c d (y ∷ s)

pop_back-line_end : (c : ℕ) (s : Bytes) → pop_back (s ++ c ∷ []) ≡ s
pop_back-line_end c [] = refl
pop_back-line_end c (x ∷ []) = refl
pop_back-line_end c (x ∷ y ∷ s) = ap (λ t. x ∷ t) (pop_back-line_end c (y ∷ s))

some_injective : {q p : Bytes} → some q ≡ some p → q ≡ p
some_injective e = cc

drop_line_feed :
    (t : Bytes) → drop_line_end (t ++ b'\n' ∷ []) ≡ (if back_is b'\r' t then pop_back t else t)
drop_line_feed t = rw (back_is-line_end b'\n' b'\n' t, pop_back-line_end b'\n' t) refl

drop_line_end-append : (p : Bytes) → drop_line_end (p ++ line_end) ≡ p
drop_line_end-append p =
    ap (λ t. drop_line_end t) (sym (append_assoc p (b'\r' ∷ []) (b'\n' ∷ [])))
    ∙ drop_line_feed (p ++ b'\r' ∷ [])
    ∙ rw (back_is-line_end b'\r' b'\r' p, pop_back-line_end b'\r' p) refl

part_behind-nth :
    (c : ℕ) (d : Bytes) (parts : List Bytes) (epilogue : Bytes) (n : ℕ) (p : Bytes)
    → All (λ q. IsFree (c ∷ d) (q ++ line_end)) parts
    → get_elem? parts n ≡ some p
    → part_behind n (c ∷ d) (behind_delimiter (c ∷ d) parts epilogue) ≡ p
unfolding part_behind
part_behind-nth c d [] epilogue n p f e = cc
part_behind-nth c d (q ∷ parts) epilogue zero p f e =
    rw (cut_at?-free c d (q ++ line_end) (behind_delimiter (c ∷ d) parts epilogue) f.0)
      (drop_line_end-append q ∙ some_injective e)
part_behind-nth c d (q ∷ parts) epilogue (suc n) p f e =
    rw (cut_at?-free c d (q ++ line_end) (behind_delimiter (c ∷ d) parts epilogue) f.0, part_behind)
      (part_behind-nth c d parts epilogue n p f.1 e)

first_part-nth :
    (c : ℕ) (d preamble : Bytes) (parts : List Bytes) (epilogue : Bytes) (n : ℕ) (p : Bytes)
    → IsFree (c ∷ d) preamble
    → All (λ q. IsFree (c ∷ d) (q ++ line_end)) parts
    → get_elem? parts n ≡ some p
    → first_part n (c ∷ d) (write_body (c ∷ d) preamble parts epilogue) ≡ p
first_part-nth c d preamble parts epilogue n p h f e =
    rw (cut_at?-free c d preamble (behind_delimiter (c ∷ d) parts epilogue) h, first_part)
      (part_behind-nth c d parts epilogue n p f e)

-- Of a body with a preamble, parts and an epilogue, in none of which the delimiter stands early,
-- ExtractPartBySection gives the part of each number.
pub extract_part_by_section-nth :
    (boundary preamble : Bytes) (parts : List Bytes) (epilogue : Bytes) (n : ℕ) (p : Bytes)
    → IsFree (codes "--" ++ boundary) preamble
    → All (λ q. IsFree (codes "--" ++ boundary) (q ++ line_end)) parts
    → get_elem? parts n ≡ some p
    → extract_part_by_section
        (write_body (codes "--" ++ boundary) preamble parts epilogue)
        boundary
        (pos (suc n))
      ≡ p
unfolding extract_part_by_section
extract_part_by_section-nth boundary preamble parts epilogue n p h f e =
    first_part-nth b'-' (b'-' ∷ boundary) preamble parts epilogue n p h f e
