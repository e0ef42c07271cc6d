-- ===== src/Imap/Totality.antt =====
-- imap-server/src/ImapParser.cpp: the fuel of the loop over the arguments.
use ua_5308_smtp.Prelude.{
  ℕ, zero, suc, ◌≤◌, ◌≡◌, refl, inl, inr, ◌∙◌, ap, Bool, true, false, Option, none, some, List, [],
  ◌∷◌, ◌++◌, ◌==◌, Bytes, arith, length, Bool-cases, All,
}
use ua_5308_smtp.Imap.Elements.{
  Read, prepend, skip_whitespace, parse_quoted, Brackets, list_brackets, group_round, group_loop,
  parse_group, literal_loop, parse_literal, ends_atom, parse_atom, parse_element, add_element,
  args_loop, parse_args,
}
use ua_5308_smtp.Imap.Suffix.{
  IsSuffix, same, later, IsSuffix-trans, length-IsSuffix, All-IsSuffix, branches, skip-IsSuffix,
  literal_loop-IsSuffix, parse_atom-IsSuffix, parse_quoted-IsSuffix, group_round-IsSuffix,
}

-- An operation that ends, and leaves a suffix of its text.
abbrev Leaves : Bytes → Option Read → Type 0
Leaves s o = (r : Read) × (o ≡ some r) × IsSuffix r.1 s

group_loop-Leaves :
    (b : Brackets) (fuel depth : ℕ) (s : Bytes)
    → length s ≤ fuel
    → Leaves s (group_loop b fuel depth s)
unfolding group_loop
group_loop-Leaves b fuel zero s h = (([], s), refl, same)
group_loop-Leaves b fuel (suc depth) [] h = (([], []), refl, same)
group_loop-Leaves b zero (suc depth) (c ∷ s) h = absurd (omega arith)
group_loop-Leaves b (suc fuel) (suc depth) (c ∷ s) h =
    let round = group_round-IsSuffix b depth c s in
    let (r, e, k) =
      group_loop-Leaves b fuel (group_round b depth c s).1 (group_round b depth c s).0.1
        (omega (arith, length-IsSuffix round)) in
    (prepend (group_round b depth c s).0.0 r, rw e, later (IsSuffix-trans k round))

parse_list-Leaves :
    (c : ℕ) (s : Bytes) → (c == b'(') ≡ true → Leaves s (parse_group list_brackets (c ∷ s))
unfolding parse_group
parse_list-Leaves c s e =
    let (r, q, k) = group_loop-Leaves list_brackets (length s) 1 s (omega arith) in
    (prepend (c ∷ []) r, rw (e, q), k)

parse_literal-Leaves :
    (c : ℕ) (s : Bytes) → (c == b'{') ≡ true → Leaves s (some (parse_literal (c ∷ s)))
unfolding parse_literal
parse_literal-Leaves c s e = (prepend (c ∷ []) (literal_loop s), rw e, literal_loop-IsSuffix s)

parse_word-Leaves : (c : ℕ) (s : Bytes) → ends_atom c ≡ false → Leaves s (some (parse_atom (c ∷ s)))
unfolding parse_atom
parse_word-Leaves c s e = (prepend (c ∷ []) (parse_atom s), rw e, parse_atom-IsSuffix s)

-- An element whose first byte is neither a space nor `)` takes at least that byte.
parse_element-Leaves :
    (c : ℕ) (s : Bytes)
    → (c == b' ') ≡ false
    → (c == b')') ≡ false
    → Leaves s (parse_element (c ∷ s))
unfolding parse_element
parse_element-Leaves c s space close =
    branches (Leaves s) (c == b'"') (λ e. (parse_quoted (c ∷ s), refl, parse_quoted-IsSuffix c s e))
      (λ quote.
        branches (Leaves s) (c == b'(') (λ e. parse_list-Leaves c s e)
          (λ list.
            branches (Leaves s) (c == b'{') (λ e. parse_literal-Leaves c s e)
              (λ brace. parse_word-Leaves c s (ground arith))))

abbrev starts_with_space : Bytes → Bool
starts_with_space [] = false
starts_with_space (c ∷ s) = c == b' '

skip-no_space : (s : Bytes) → starts_with_space (skip_whitespace s) ≡ false
skip-no_space [] = refl
skip-no_space (c ∷ s) = elim (Bool-cases (c == b' ')) [
  | inl e ↦ rw e (skip-no_space s)
  | inr e ↦ rw e e
]

-- A text without a closing parenthesis.
abbrev pub HasNoClose : Bytes → Type 0
HasNoClose = All (λ c. (c == b')') ≡ false)

args_loop_total :
    (fuel : ℕ) (s : Bytes)
    → length s ≤ fuel
    → starts_with_space s ≡ false
    → HasNoClose s
    → (args : List Bytes) × (args_loop fuel s ≡ some args)
unfolding args_loop
args_loop_total fuel [] h space close = ([], refl)
args_loop_total zero (c ∷ s) h space close = absurd (omega arith)
args_loop_total (suc fuel) (c ∷ s) h space close =
    let (r, e, left) = parse_element-Leaves c s space close.0 in
    let rest = IsSuffix-trans (skip-IsSuffix r.1) left in
    let (args, k) =
      args_loop_total fuel (skip_whitespace r.1) (omega (arith, length-IsSuffix rest))
        (skip-no_space r.1) (All-IsSuffix (λ c. (c == b')') ≡ false) rest close.1) in
    (add_element (c ∷ s) r args, rw (e, k))

-- The arguments of a text without `)` are read within as much fuel as the text has bytes.
pub parse_args_total :
    (s : Bytes) → HasNoClose s → (args : List Bytes) × (parse_args (length s) s ≡ some args)
unfolding parse_args
parse_args_total s close =
    args_loop_total (length s) (skip_whitespace s) (length-IsSuffix (skip-IsSuffix s))
      (skip-no_space s) (All-IsSuffix (λ c. (c == b')') ≡ false) (skip-IsSuffix s) close)

args_loop_stuck : (fuel : ℕ) (s : Bytes) → args_loop fuel (b')' ∷ s) ≡ none
unfolding args_loop parse_element parse_atom
args_loop_stuck zero s = refl
args_loop_stuck (suc fuel) s = rw (args_loop_stuck fuel s)

-- A word, and then a `)` that no list has opened.
abbrev pub IsWord : Bytes → Type 0
IsWord = All (λ c. ends_atom c ≡ false)

parse_atom-IsWord :
    (word s : Bytes) → IsWord word → parse_atom (word ++ b')' ∷ s) ≡ (word, b')' ∷ s)
unfolding parse_atom
parse_atom-IsWord [] s h = refl
parse_atom-IsWord (c ∷ word) s h = rw (h.0, parse_atom-IsWord word s h.1)

parse_element_atom :
    (c : ℕ) (s : Bytes) → ends_atom c ≡ false → parse_element (c ∷ s) ≡ some (parse_atom (c ∷ s))
unfolding parse_element
parse_element_atom c s h = rw (quote, list, brace)
  where
    quote : (c == b'"') ≡ false
    quote = ground arith

    list : (c == b'(') ≡ false
    list = ground arith

    brace : (c == b'{') ≡ false
    brace = ground arith

parse_element-IsWord :
    (c : ℕ) (word s : Bytes)
    → IsWord (c ∷ word)
    → parse_element (c ∷ (word ++ b')' ∷ s)) ≡ some (c ∷ word, b')' ∷ s)
parse_element-IsWord c word s h =
    parse_element_atom c (word ++ b')' ∷ s) h.0 ∙ ap some (parse_atom-IsWord (c ∷ word) s h)

args_loop-none :
    (fuel c : ℕ) (s : Bytes) {r : Read}
    → parse_element (c ∷ s) ≡ some r
    → args_loop fuel (skip_whitespace r.1) ≡ none
    → args_loop (suc fuel) (c ∷ s) ≡ none
unfolding args_loop
args_loop-none fuel c s e h = rw (e, h)

args_loop-IsWord :
    (fuel c : ℕ) (word s : Bytes)
    → IsWord (c ∷ word)
    → args_loop fuel (c ∷ (word ++ b')' ∷ s)) ≡ none
args_loop-IsWord zero c word s h = unfold args_loop in refl
args_loop-IsWord (suc fuel) c word s h =
    args_loop-none fuel c (word ++ b')' ∷ s) (parse_element-IsWord c word s h)
      (args_loop_stuck fuel s)

-- The loop over the arguments does not end at a `)` that no list has opened, at the front of the text
-- or behind a word: no fuel is enough.
pub parse_args_stuck :
    (fuel : ℕ) (word s : Bytes) → IsWord word → parse_args fuel (word ++ b')' ∷ s) ≡ none
unfolding parse_args
parse_args_stuck fuel [] s h = args_loop_stuck fuel s
parse_args_stuck fuel (c ∷ word) s h = rw space (args_loop-IsWord fuel c word s h)
  where
    ends : ends_atom c ≡ false
    ends = h.0

    space : (c == b' ') ≡ false
    space = ground arith
