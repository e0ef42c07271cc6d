-- ===== src/StringUtils/WrapSound.antt =====
-- common/utils/StringUtils.cpp: what `WrapText` keeps of a text.
use ua_5308_smtp.Prelude.{
  ℕ, zero, suc, ◌≤◌, ◌<◌, ◌≡◌, refl, inl, inr, sym, ◌∙◌, ap, true, false, ◌&&◌, none, some, [], ◌∷◌,
  ◌++◌, ◌==◌, ltb, if◌then◌else◌, Bytes, arith, length, front_is, take, drop, is_blank, find_index?,
  find_last_index?, append-nil, take-append-drop, length-drop, Bool-cases, Option-cases,
}
use ua_5308_smtp.StringUtils.Wrap.{
  is_newline, is_gap, line_end, hard_split, split_of, break_line, take_newline, take_chunk,
  wrap_round, wrap_loop, clamp, wrap_text,
}

-- The bytes of a text that are not blank.
abbrev pub visible : Bytes → Bytes
visible [] = []
visible (c ∷ s) = if is_blank c then visible s else c ∷ visible s

visible-append : (s t : Bytes) → visible (s ++ t) ≡ visible s ++ visible t
visible-append [] t = refl
visible-append (c ∷ s) t = elim (Bool-cases (is_blank c)) [
  | inl e ↦ rw e (visible-append s t)
  | inr e ↦ rw e (ap (◌∷◌ c) (visible-append s t))
]

visible-line : (s : Bytes) → visible (s ++ line_end) ≡ visible s
visible-line s = visible-append s line_end ∙ append-nil (visible s)

visible-split : (n : ℕ) (s : Bytes) → visible (take n s) ++ visible (drop n s) ≡ visible s
visible-split n s = sym (visible-append (take n s) (drop n s)) ∙ ap visible (take-append-drop n s)

-- A round takes a part of the text and writes what is visible of it.
record Rounded (s : Bytes) (r : Bytes × Bytes) : Type 0 where
  shorter : length r.1 < length s
  kept : visible r.0 ++ visible r.1 ≡ visible s

visible_blank : (c : ℕ) (s : Bytes) → is_blank c ≡ true → visible (c ∷ s) ≡ visible s
visible_blank c s e = rw e

take_newline-Rounded :
    (c : ℕ) (s : Bytes) → is_newline c ≡ true → Rounded (c ∷ s) (take_newline c s)
unfolding take_newline
take_newline-Rounded c s e = elim (Bool-cases (c == b'\r' && front_is b'\n' s)) [
  | inr f ↦ rw f (record { shorter = omega arith; kept = sym (visible_blank c s blank) })
  | inl f ↦ rw f (record {
    shorter = omega (arith, length-drop 1 s);
    kept = sym (visible_blank c s blank ∙ line_feed s (ground arith));
  })
]
  where
    blank : is_blank c ≡ true
    blank = ground arith

    line_feed : (s : Bytes) → front_is b'\n' s ≡ true → visible s ≡ visible (drop 1 s)
    line_feed [] h = cc
    line_feed (d ∷ s) h = visible_blank d s (ground arith)

Gap : Bytes → Type 0
Gap s = (g : ℕ) × (t : Bytes) × (s ≡ g ∷ t) × (is_gap g ≡ true)

Gap-in_front :
    (c : ℕ) (s : Bytes) (n : ℕ)
    → (if is_gap c then some 0 else none) ≡ some n
    → Gap (drop n (c ∷ s))
unfolding Gap
Gap-in_front c s n e = elim (Bool-cases (is_gap c)) [
  | inl g ↦ let z : n ≡ 0 = cc (rw g at e) in (c, s, rw z refl, g)
  | inr g ↦ cc (rw g at e)
]

Gap-at :
    (limit : ℕ) (s : Bytes) {n : ℕ}
    → find_last_index? is_gap (take limit s) ≡ some n
    → Gap (drop n s)
unfolding Gap
Gap-at zero s e = cc
Gap-at (suc limit) [] e = cc
Gap-at (suc limit) (c ∷ s) {n} e = elim (Option-cases (find_last_index? is_gap (take limit s))) [
  | inl none_later ↦ Gap-in_front c s n (rw none_later at e)
  | inr (i, at) ↦
      let z : n ≡ suc i = cc (rw at at e) in
      let (g, t, d, k) = Gap-at limit s at in (g, t, rw z d, k)
]

hard_split-positive : (s : Bytes) (limit : ℕ) → 0 < limit → 0 < hard_split s limit
unfolding hard_split
hard_split-positive s limit h = ground arith

cut_Rounded :
    (c : ℕ) (s : Bytes) (n : ℕ)
    → 0 < n
    → Rounded (c ∷ s) (take n (c ∷ s) ++ line_end, drop n (c ∷ s))
cut_Rounded c s n h = record {
  shorter = omega (arith, length-drop n (c ∷ s));
  kept =
      ap (λ t. t ++ visible (drop n (c ∷ s))) (visible-line (take n (c ∷ s)))
      ∙ visible-split n (c ∷ s);
}

gap_Rounded :
    (s : Bytes) (n g : ℕ) (t : Bytes)
    → drop n s ≡ g ∷ t
    → is_gap g ≡ true
    → Rounded s (take n s ++ line_end, t)
gap_Rounded s n g t d k = record {
  shorter = omega (arith, ap length d, length-drop n s);
  kept =
      ap (λ x. x ++ visible t) (visible-line (take n s))
      ∙ ap (λ x. visible (take n s) ++ x) (sym (ap visible d ∙ visible_blank g t (ground arith)))
      ∙ visible-split n s;
}

break_line-Rounded :
    (c : ℕ) (s : Bytes) (limit : ℕ) → 0 < limit → Rounded (c ∷ s) (break_line (c ∷ s) limit)
unfolding break_line Gap
break_line-Rounded c s limit h =
    elim (Option-cases (find_last_index? is_gap (take limit (c ∷ s)))) [
      | inl e ↦ rw (split_of, e) hard
      | inr (n, at) ↦ elim (Bool-cases (ltb limit (length (c ∷ s)))) [
        | inl l ↦
            let (g, t, d, k) = Gap-at limit (c ∷ s) at in
            rw (split_of, at, l) (rw d (gap_Rounded (c ∷ s) n g t d k))
        | inr l ↦ rw (split_of, at, l) hard
      ]
    ]
  where
    hard : Rounded (c ∷ s) (
      take (hard_split (c ∷ s) limit) (c ∷ s) ++ line_end,
      drop (hard_split (c ∷ s) limit) (c ∷ s),
    )
    hard = cut_Rounded c s (hard_split (c ∷ s) limit) (hard_split-positive (c ∷ s) limit h)

newline_behind :
    (c : ℕ) (s : Bytes) {next : ℕ}
    → is_newline c ≡ false
    → find_index? is_newline (c ∷ s) ≡ some next
    → 0 < next
newline_behind c s {next} e h = elim (Option-cases (find_index? is_newline s)) [
  | inl f ↦ cc (rw (e, f) at h)
  | inr (i, f) ↦ let z : next ≡ suc i = cc (rw (e, f) at h) in omega (arith, z)
]

take_chunk-Rounded :
    (line_length c : ℕ) (s : Bytes)
    → 0 < line_length
    → is_newline c ≡ false
    → Rounded (c ∷ s) (take_chunk line_length (c ∷ s))
unfolding take_chunk
take_chunk-Rounded line_length c s h e = elim (Option-cases (find_index? is_newline (c ∷ s))) [
  | inl f ↦ rw (take_chunk, f) whole
  | inr (next, f) ↦ elim (Bool-cases (ltb next limit)) [
    | inl l ↦
        rw (take_chunk, f, l)
          (record {
            shorter = omega (arith, length-drop next (c ∷ s), newline_behind c s e f);
            kept = visible-split next (c ∷ s);
          })
    | inr l ↦ rw (take_chunk, f, l) whole
  ]
]
  where
    limit : ℕ
    limit = if ltb (length (c ∷ s)) line_length then length (c ∷ s) else line_length

    whole : Rounded (c ∷ s) (break_line (c ∷ s) limit)
    whole = break_line-Rounded c s limit (ground arith)

wrap_round-Rounded :
    (line_length c : ℕ) (s : Bytes) → 0 < line_length → Rounded (c ∷ s) (wrap_round line_length c s)
unfolding wrap_round
wrap_round-Rounded line_length c s h = elim (Bool-cases (is_newline c)) [
  | inl e ↦ rw (wrap_round, e) (take_newline-Rounded c s e)
  | inr e ↦ rw (wrap_round, e) (take_chunk-Rounded line_length c s h e)
]

visible-wrap_loop :
    (fuel line_length : ℕ) (s : Bytes)
    → 0 < line_length
    → length s ≤ fuel
    → (out : Bytes) × (wrap_loop fuel line_length s ≡ some out) × (visible out ≡ visible s)
unfolding wrap_loop
visible-wrap_loop fuel line_length [] h f = ([], refl, refl)
visible-wrap_loop zero line_length (c ∷ s) h f = absurd (omega arith)
visible-wrap_loop (suc fuel) line_length (c ∷ s) h f =
    let round = wrap_round-Rounded line_length c s h in
    let (more, e, same) =
      visible-wrap_loop fuel line_length (wrap_round line_length c s).1 h
        (omega (arith, round.shorter)) in
    (
      (wrap_round line_length c s).0 ++ more,
      rw e refl,
      visible-append (wrap_round line_length c s).0 more
          ∙ ap (λ t. visible (wrap_round line_length c s).0 ++ t) same
          ∙ round.kept,
    )

-- `WrapText` ends, and keeps every byte of the text but blanks, in order, and adds none.
pub visible-wrap_text :
    (line_length : ℕ) (text : Bytes)
    → (out : Bytes) × (wrap_text line_length text ≡ some out) × (visible out ≡ visible text)
unfolding wrap_text
visible-wrap_text line_length text =
    visible-wrap_loop (length text) (clamp line_length) text (ground arith) (omega arith)
