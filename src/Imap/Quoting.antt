-- ===== src/Imap/Quoting.antt =====
-- imap-server/src/ImapParser.cpp: the text of quoted arguments, and reading it.
use ua_5308_smtp.Prelude.{
  ℕ, zero, suc, ◌≤◌, ◌≡◌, refl, inl, inr, sym, ◌∙◌, ap, true, false, ◌||◌, some, List, [], ◌∷◌,
  ◌++◌, ◌==◌, ltb, if◌then◌else◌, Bytes, arith, append_assoc, append-nil, length, length-append,
  Bool-cases,
}
use ua_5308_smtp.Imap.Elements.{
  Read, prepend, add_element, skip_whitespace, quoted_loop, parse_quoted, parse_element, args_loop,
  parse_args,
}

-- The text of a quoted string: a quote and a backslash inside it are escaped.
abbrev pub escaped : Bytes → Bytes
escaped [] = []
escaped (c ∷ s) = if c == b'"' || c == b'\\' then b'\\' ∷ c ∷ escaped s else c ∷ escaped s

abbrev pub quoted : Bytes → Bytes
quoted s = b'"' ∷ (escaped s ++ b'"' ∷ [])

-- Quoted strings with a space between them.
abbrev pub quoted_args : List Bytes → Bytes
quoted_args [] = []
quoted_args (a ∷ []) = quoted a
quoted_args (a ∷ b ∷ args) = quoted a ++ (b' ' ∷ quoted_args (b ∷ args))

quoted_loop-escaped : (s rest : Bytes) → quoted_loop false (escaped s ++ b'"' ∷ rest) ≡ (s, rest)
unfolding quoted_loop
quoted_loop-escaped [] rest = refl
quoted_loop-escaped (c ∷ s) rest = elim (Bool-cases (c == b'"')) [
  | inl e ↦ rw e (ap (prepend (c ∷ [])) (quoted_loop-escaped s rest))
  | inr e ↦ elim (Bool-cases (c == b'\\')) [
    | inl f ↦ rw (e, f) (ap (prepend (c ∷ [])) (quoted_loop-escaped s rest))
    | inr f ↦ rw (e, f) (rw (e, f) (ap (prepend (c ∷ [])) (quoted_loop-escaped s rest)))
  ]
]

parse_element-quoted : (s rest : Bytes) → parse_element (quoted s ++ rest) ≡ some (s, rest)
unfolding parse_element parse_quoted
parse_element-quoted s rest = ap some (
    ap (λ t. quoted_loop false t) (append_assoc (escaped s) (b'"' ∷ []) rest)
    ∙ quoted_loop-escaped s rest)

args_loop_step :
    (fuel c : ℕ) (s : Bytes) {r : Read} {args : List Bytes}
    → parse_element (c ∷ s) ≡ some r
    → args_loop fuel (skip_whitespace r.1) ≡ some args
    → args_loop (suc fuel) (c ∷ s) ≡ some (add_element (c ∷ s) r args)
unfolding args_loop
args_loop_step fuel c s e h = rw (e, h)

skip-quoted_args : (args : List Bytes) → skip_whitespace (quoted_args args) ≡ quoted_args args
skip-quoted_args [] = refl
skip-quoted_args (a ∷ []) = refl
skip-quoted_args (a ∷ b ∷ args) = refl

args_loop-quoted :
    (fuel : ℕ) (a rest : Bytes) {args : List Bytes}
    → args_loop fuel (skip_whitespace rest) ≡ some args
    → args_loop (suc fuel) (quoted a ++ rest) ≡ some (a ∷ args)
args_loop-quoted fuel a rest {args} h =
    args_loop_step fuel b'"' ((escaped a ++ b'"' ∷ []) ++ rest) (parse_element-quoted a rest) h
    ∙ rw longer
  where
    longer : ltb (length rest) (length (quoted a ++ rest)) ≡ true
    longer = ground (arith, length-append (quoted a) rest)

args_loop-quoted_args :
    (args : List Bytes) (fuel : ℕ)
    → length args ≤ fuel
    → args_loop fuel (quoted_args args) ≡ some args
args_loop-quoted_args [] fuel h = unfold args_loop in refl
args_loop-quoted_args (a ∷ args) zero h = absurd (omega arith)
args_loop-quoted_args (a ∷ []) (suc fuel) h =
    ap (args_loop (suc fuel)) (sym (append-nil (quoted a)))
    ∙ args_loop-quoted fuel a [] (unfold args_loop in refl)
args_loop-quoted_args (a ∷ b ∷ args) (suc fuel) h =
    args_loop-quoted fuel a (b' ' ∷ quoted_args (b ∷ args))
      (skipped ∙ args_loop-quoted_args (b ∷ args) fuel (omega arith))
  where
    skipped :
        args_loop fuel (skip_whitespace (quoted_args (b ∷ args)))
        ≡ args_loop fuel (quoted_args (b ∷ args))
    skipped = ap (args_loop fuel) (skip-quoted_args (b ∷ args))

-- Quoted strings with a space between them are read back, whatever bytes they hold; a round for each
-- argument is enough.
pub parse_args-quoted_args :
    (args : List Bytes) (fuel : ℕ)
    → length args ≤ fuel
    → parse_args fuel (quoted_args args) ≡ some args
unfolding parse_args
parse_args-quoted_args args fuel h =
    ap (args_loop fuel) (skip-quoted_args args) ∙ args_loop-quoted_args args fuel h
