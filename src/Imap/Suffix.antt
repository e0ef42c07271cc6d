-- ===== src/Imap/Suffix.antt =====
-- imap-server/src/ImapParser.cpp: the bytes that each operation leaves.
use ua_5308_smtp.Prelude.{
  ℕ, zero, suc, ◌≤◌, ◌≡◌, refl, inl, inr, Bool, true, false, not, [], ◌∷◌, ◌==◌, if◌then◌else◌,
  Bytes, arith, length, Bool-cases, All, is_empty, ◌&&◌,
}
use ua_5308_smtp.Imap.Elements.{
  Read, skip_whitespace, quoted_loop, parse_quoted, nested_loop, Brackets, group_round,
  literal_loop, ends_atom, parse_atom,
}

-- The bytes that are left are the end of those that were given.
pub data IsSuffix : Bytes → Bytes → Type 0 where
  same : {s : Bytes} → IsSuffix s s
  later : {r s : Bytes} {c : ℕ} → IsSuffix r s → IsSuffix r (c ∷ s)

pub IsSuffix-trans : {q r s : Bytes} → IsSuffix q r → IsSuffix r s → IsSuffix q s
IsSuffix-trans h same = h
IsSuffix-trans h (later k) = later (IsSuffix-trans h k)

pub length-IsSuffix : {r s : Bytes} → IsSuffix r s → length r ≤ length s
length-IsSuffix same = omega arith
length-IsSuffix (later h) = omega (arith, length-IsSuffix h)

pub All-IsSuffix : (P : ℕ → Type 0) {r s : Bytes} → IsSuffix r s → All P s → All P r
All-IsSuffix P same a = a
All-IsSuffix P (later h) a = All-IsSuffix P h a.1

-- A property of both branches of a test.
pub branches :
    {A : Type 0} (P : A → Type 0) (b : Bool) {p q : A}
    → (b ≡ true → P p)
    → (b ≡ false → P q)
    → P (if b then p else q)
branches P true h k = h refl
branches P false h k = k refl

pub skip-IsSuffix : (s : Bytes) → IsSuffix (skip_whitespace s) s
skip-IsSuffix [] = same
skip-IsSuffix (c ∷ s) = elim (Bool-cases (c == b' ')) [
  | inl e ↦ rw e (later (skip-IsSuffix s))
  | inr e ↦ rw e same
]

quoted_loop-IsSuffix : (escaped : Bool) (s : Bytes) → IsSuffix (quoted_loop escaped s).1 s
unfolding quoted_loop
quoted_loop-IsSuffix escaped [] = same
quoted_loop-IsSuffix true (c ∷ s) = later (quoted_loop-IsSuffix false s)
quoted_loop-IsSuffix false (c ∷ s) =
    branches (λ (r : Read). IsSuffix r.1 (c ∷ s)) (c == b'"') (λ e. later same)
      (λ e.
        branches (λ (r : Read). IsSuffix r.1 (c ∷ s)) escape
          (λ f. later (quoted_loop-IsSuffix escape s)) (λ f. later (quoted_loop-IsSuffix escape s)))
  where
    escape : Bool
    escape = c == b'\\' && not (is_empty s)

nested_loop-IsSuffix :
    (opening closing : ℕ) (s : Bytes) (depth : ℕ)
    → IsSuffix (nested_loop opening closing depth s).1 s
unfolding nested_loop
nested_loop-IsSuffix opening closing s zero = same
nested_loop-IsSuffix opening closing [] (suc depth) = same
nested_loop-IsSuffix opening closing (c ∷ s) (suc depth) = later (
    nested_loop-IsSuffix opening closing s
      (if c == opening then suc (suc depth) else if c == closing then depth else suc depth))

pub literal_loop-IsSuffix : (s : Bytes) → IsSuffix (literal_loop s).1 s
unfolding literal_loop
literal_loop-IsSuffix [] = same
literal_loop-IsSuffix (c ∷ s) =
    branches (λ (r : Read). IsSuffix r.1 (c ∷ s)) (c == b'}') (λ e. later same)
      (λ e. later (literal_loop-IsSuffix s))

pub parse_atom-IsSuffix : (s : Bytes) → IsSuffix (parse_atom s).1 s
unfolding parse_atom
parse_atom-IsSuffix [] = same
parse_atom-IsSuffix (c ∷ s) =
    branches (λ (r : Read). IsSuffix r.1 (c ∷ s)) (ends_atom c) (λ e. same)
      (λ e. later (parse_atom-IsSuffix s))

pub parse_quoted-IsSuffix :
    (c : ℕ) (s : Bytes) → (c == b'"') ≡ true → IsSuffix (parse_quoted (c ∷ s)).1 s
unfolding parse_quoted
parse_quoted-IsSuffix c s e = rw e (quoted_loop-IsSuffix false s)

pub group_round-IsSuffix :
    (b : Brackets) (depth c : ℕ) (s : Bytes) → IsSuffix (group_round b depth c s).0.1 s
unfolding group_round
group_round-IsSuffix b depth c s =
    branches Good (c == b.opening) (λ _. same)
      (λ _.
        branches Good (c == b.closing) (λ _. same)
          (λ _.
            branches Good (c == b.inner_opening)
              (λ _. nested_loop-IsSuffix b.inner_opening b.inner_closing s 1)
              (λ _. branches Good (c == b'"') (λ e. parse_quoted-IsSuffix c s e) (λ _. same))))
  where
    Good : Read × ℕ → Type 0
    Good r = IsSuffix r.0.1 s
