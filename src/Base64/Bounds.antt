-- ===== src/Base64/Bounds.antt =====
-- What a successful `DecodeBase64` says of its input and its output.
use ua_5308_smtp.Prelude.{
  ℕ, ◌+◌, ◌*◌, ◌/◌, ◌%◌, ◌≤◌, ◌<◌, ◌≡◌, refl, subst, true, [], ◌∷◌, ◌++◌, ◌==◌, Bytes, All,
  All-append, length, length-append, Bool-cases, inl, inr, if◌then◌else◌, arith,
}
use ua_5308_smtp.Base64.Alphabet.{Result, ok, err, ◌>>=◌, table_value, not_base64, is_valid_base64}
use ua_5308_smtp.Base64.Decoder.{
  sanitise, decode_group, decode_groups, decode_base64, bytes_of, join_values, padded_value,
}
use ua_5308_smtp.Base64.RoundTrip.{AreBytes}

bind-eq-ok :
    (first : Result Bytes) (second : Bytes → Result Bytes) {out : Bytes}
    → (first >>= second) ≡ ok out
    → (read : Bytes) × (first ≡ ok read) × (second read ≡ ok out)
bind-eq-ok (ok read) second h = (read, refl, h)
bind-eq-ok (err problem) second h = cc

abbrev pub AreValid : Bytes → Type 0
AreValid = All (λ c. is_valid_base64 c ≡ true)

sanitise-ok : (s : Bytes) {t : Bytes} → sanitise s ≡ ok t → (t ≡ s) × AreValid s
unfolding sanitise
sanitise-ok [] h = ground arith
sanitise-ok (c ∷ s) {t} h = elim (Bool-cases (is_valid_base64 c)) [
  | inl v ↦
      let (r, e, k) = bind-eq-ok (sanitise s) (λ r. ok (c ∷ r)) (rw (v, sanitise) at h) in
      let (same, all) = sanitise-ok s e in (cc, (v, all))
  | inr i ↦ cc (rw (i, sanitise) at h)
]

bytes_of_bounds :
    (block c2 c3 : ℕ) → AreBytes (bytes_of block c2 c3) × (length (bytes_of block c2 c3) ≤ 3)
bytes_of_bounds block c2 c3 = elim (Bool-cases (c2 == b'=')) [
  | inl p ↦ elim (Bool-cases (c3 == b'=')) [
    | inl q ↦ rw (p, q) (omega arith)
    | inr q ↦ rw (p, q) (omega arith)
  ]
  | inr p ↦ elim (Bool-cases (c3 == b'=')) [
    | inl q ↦ rw (p, q) (omega arith)
    | inr q ↦ rw (p, q) (omega arith)
  ]
]

decode_group-ok :
    (c0 c1 c2 c3 : ℕ) {out : Bytes}
    → decode_group c0 c1 c2 c3 ≡ ok out
    → AreBytes out × (length out ≤ 3)
unfolding decode_group
decode_group-ok c0 c1 c2 c3 {out} h =
    subst (λ t. AreBytes t × (length t ≤ 3)) same (bytes_of_bounds block c2 c3)
  where
    block : ℕ
    block = join_values (table_value c0) (table_value c1) (padded_value c2) (padded_value c3)

    same : bytes_of block c2 c3 ≡ out
    same = ground arith

abbrev IsBounded : ℕ → Bytes → Type 0
IsBounded k out = AreBytes out × (length out ≤ k)

IsBounded-nil : {k : ℕ} (out : Bytes) → ◌≡◌ {A = Result Bytes} (ok []) (ok out) → IsBounded k out
IsBounded-nil {k} out h = let e : [] ≡ out = cc in subst (IsBounded k) e (tt, omega arith)

IsBounded-append :
    {k : ℕ} (xs ys out : Bytes)
    → xs ++ ys ≡ out
    → IsBounded 3 xs
    → IsBounded k ys
    → IsBounded (3 + k) out
IsBounded-append {k} xs ys out e p q =
    subst (IsBounded (3 + k)) e
      (All-append (λ b. b < 256) xs ys p.0 q.0, omega (arith, length-append xs ys, p.1, q.1))

decode_groups-ok :
    (s : Bytes) {out : Bytes}
    → decode_groups s ≡ ok out
    → AreBytes out × (length out ≤ length s / 4 * 3)
unfolding decode_groups
decode_groups-ok [] {out} h = IsBounded-nil out h
decode_groups-ok (a ∷ []) {out} h = IsBounded-nil out h
decode_groups-ok (a ∷ b ∷ []) {out} h = IsBounded-nil out h
decode_groups-ok (a ∷ b ∷ c ∷ []) {out} h = IsBounded-nil out h
decode_groups-ok (c0 ∷ c1 ∷ c2 ∷ c3 ∷ s) {out} h =
    let (group, e, k) =
      bind-eq-ok (decode_group c0 c1 c2 c3) (λ g. decode_groups s >>= λ more. ok (g ++ more)) h in
    let (more, e', k') = bind-eq-ok (decode_groups s) (λ more. ok (group ++ more)) k in
    let (bs, l) =
      IsBounded-append group more out (cc) (decode_group-ok c0 c1 c2 c3 e)
        (decode_groups-ok s e') in
    (bs, omega arith)

decode_whole :
    (s : Bytes) {out : Bytes}
    → (if length s % 4 == 0 then decode_groups s else err not_base64) ≡ ok out
    → (length s % 4 ≡ 0) × (decode_groups s ≡ ok out)
decode_whole s h = ground arith

-- A text that is decoded holds valid characters only, in groups of four, and gives at most three
-- bytes for each group: what `DecodeBase64` reserves is enough.
pub decode_base64_bounds :
    (s : Bytes) {out : Bytes}
    → decode_base64 s ≡ ok out
    → AreValid s × (length s % 4 ≡ 0) × AreBytes out × (length out ≤ length s / 4 * 3)
unfolding decode_base64
decode_base64_bounds s {out} h =
    let (clean, e, k) =
      bind-eq-ok (sanitise s) (λ t. if length t % 4 == 0 then decode_groups t else err not_base64)
        h in
    let (same, valid) = sanitise-ok s e in
    let (whole, groups) = decode_whole s (
      subst (λ t. (if length t % 4 == 0 then decode_groups t else err not_base64) ≡ ok out) same
        k) in
    let (bs, l) = decode_groups-ok s groups in (valid, whole, bs, l)
