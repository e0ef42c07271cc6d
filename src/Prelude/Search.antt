-- ===== src/Prelude/Search.antt =====
-- `std::string::find` of a text, as the parts around its first occurrence, and letters compared
-- without their case.
use Prim.Native.Nat.{ℕ, ◌+◌}
use mathlib.Core.Path.{◌≡◌, refl, ap}
use mathlib.Core.Bool.{Bool, true, false, ◌&&◌}
use mathlib.Core.List.{[], ◌∷◌, ◌++◌, map}
use mathlib.Core.Option
use mathlib.Core.Option.{Option, none, some}
use native.Mathlib.Omega.{arith}
use mathlib.Core.Logic.{inl, inr}
use ua_5308_smtp.Prelude.Tests.{leb, if◌then◌else◌, Bool-cases, Option-cases}
use ua_5308_smtp.Prelude.Lists.{length, drop, length-append}
use ua_5308_smtp.Prelude.Text.{Bytes, starts_with}

-- The part in front of the first occurrence of `pattern`, and the part behind it. For a pattern that is
-- not empty.
unfoldable pub cut_at? : Bytes → Bytes → Option (Bytes × Bytes)
cut_at? pattern [] = none
cut_at? pattern (c ∷ s) =
    let later = Option.map (λ (p : Bytes × Bytes). (c ∷ p.0, p.1)) (cut_at? pattern s) in
    if starts_with (c ∷ s) pattern then some ([], drop (length pattern) (c ∷ s)) else later

-- `find(pattern) != npos`
unfoldable pub contains : Bytes → Bytes → Bool
unfolding cut_at?
contains pattern s = elim (cut_at? pattern s) [ none ↦ false | some _ ↦ true ]

-- `std::tolower` in the C locale.
abbrev pub lower_byte : ℕ → ℕ
lower_byte c = if leb b'A' c && leb c b'Z' then c + 32 else c

abbrev pub to_lower : Bytes → Bytes
to_lower = map lower_byte

pub starts_with-eq-append : (s p : Bytes) → starts_with s p ≡ true → s ≡ p ++ drop (length p) s
starts_with-eq-append s [] h = refl
starts_with-eq-append [] (c ∷ p) h = cc
starts_with-eq-append (d ∷ s) (c ∷ p) h = ground (arith, starts_with-eq-append s p)

-- The parts and the pattern between them are the text.
pub cut_at?-sound :
    (pattern s before after : Bytes)
    → cut_at? pattern s ≡ some (before, after)
    → s ≡ before ++ (pattern ++ after)
unfolding cut_at?
cut_at?-sound pattern [] before after h = cc
cut_at?-sound pattern (c ∷ s) before after h = elim (Bool-cases (starts_with (c ∷ s) pattern)) [
  | inl here ↦ ground (arith, starts_with-eq-append (c ∷ s) pattern)
  | inr later ↦ elim (Option-cases (cut_at? pattern s)) [
    | inl missing ↦ ground arith
    | inr (p, found) ↦ ground (arith, cut_at?-sound pattern s p.0 p.1)
  ]
]

pub length-cut_at? :
    (pattern s before after : Bytes)
    → cut_at? pattern s ≡ some (before, after)
    → length before + length pattern + length after ≡ length s
length-cut_at? pattern s before after h = omega (
  arith,
  length-append {0} before (pattern ++ after),
  length-append {0} pattern after,
  ap (λ (t : Bytes). length t) (cut_at?-sound pattern s before after h),
)
