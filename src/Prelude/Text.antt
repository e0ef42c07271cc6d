-- ===== src/Prelude/Text.antt =====
-- Byte strings (`std::string`, `std::vector<uint8_t>`): lists of byte values, and the operations
-- of the C++ standard library that the components call on them. `npos` is `none`.
use Prim.Native.Char.{code}
use Prim.Native.String.{String}
use Prim.Native.Nat.{ℕ, zero, suc, ◌+◌, ◌-◌, ◌/◌, ◌%◌}
use mathlib.Core.Path.{◌≡◌, refl, ap}
use mathlib.Core.Logic.{◌↔◌}
use mathlib.Core.Bool.{Bool, true, false, ◌&&◌, ◌||◌}
use mathlib.Core.List.{List, [], ◌∷◌, ◌++◌, map}
use mathlib.Core.Option
use mathlib.Core.Option.{Option, none, some}
use native.Mathlib.Omega.{arith}
use ua_5308_smtp.Prelude.Tests.{leb, ltb, ◌==◌, if◌then◌else◌}
use ua_5308_smtp.Prelude.Lists.{length, take, drop, All}

abbrev pub Bytes : Type 0
Bytes = List ℕ

-- The code points of a text literal: its bytes, since every literal of the program is ASCII.
abbrev pub codes : String → Bytes
codes String.[] = []
codes (String.◌∷◌ c s) = code c ∷ codes s

-- `operator==`
abbrev pub equal : Bytes → Bytes → Bool
equal [] [] = true
equal (x ∷ xs) (y ∷ ys) = x == y && equal xs ys
equal _ _ = false

pub equal_iff : (a b : Bytes) → (equal a b ≡ true) ↔ (a ≡ b)
equal_iff (x ∷ a) (y ∷ b) = ground (arith, equal_iff a b)
equal_iff _ _ = ground arith

-- `value.rfind(prefix, 0) == 0`
abbrev pub starts_with : Bytes → Bytes → Bool
starts_with value [] = true
starts_with [] (p ∷ ps) = false
starts_with (c ∷ cs) (p ∷ ps) = c == p && starts_with cs ps

-- `find(c)`: the first position of a byte.
abbrev pub find_index? : (ℕ → Bool) → Bytes → Option ℕ
find_index? p [] = none
find_index? p (x ∷ xs) = if p x then some 0 else Option.map suc (find_index? p xs)

abbrev pub find? : ℕ → Bytes → Option ℕ
find? c = find_index? (λ x. x == c)

-- `std::toupper` in the C locale.
abbrev pub upper_byte : ℕ → ℕ
upper_byte c = if leb b'a' c && leb c b'z' then c - 32 else c

abbrev pub to_upper : Bytes → Bytes
to_upper = map upper_byte

-- A byte of the set " \t\r\n".
abbrev pub is_blank : ℕ → Bool
is_blank c = c == b' ' || c == b'\t' || c == b'\r' || c == b'\n'

-- Drops the bytes in front that satisfy the test.
abbrev pub drop_while : (ℕ → Bool) → Bytes → Bytes
drop_while p [] = []
drop_while p (x ∷ xs) = if p x then drop_while p xs else x ∷ xs

-- The bytes before the first that satisfies the test.
abbrev pub take_until : (ℕ → Bool) → Bytes → Bytes
take_until p [] = []
take_until p (x ∷ xs) = if p x then [] else x ∷ take_until p xs

pub length-to_upper : (s : Bytes) → length (to_upper s) ≡ length s
length-to_upper [] = refl
length-to_upper (c ∷ s) = ap suc (length-to_upper s)

pub starts_with-append : (p s : Bytes) → starts_with (p ++ s) p ≡ true
starts_with-append [] s = refl
starts_with-append (c ∷ p) s = ground (arith, starts_with-append p s)

-- The first occurrence stands behind a part that has none.
pub find_index?-append :
    (p : ℕ → Bool) (s : Bytes) (c : ℕ) (rest : Bytes)
    → All (λ x. p x ≡ false) s
    → p c ≡ true
    → find_index? p (s ++ c ∷ rest) ≡ some (length s)
find_index?-append p [] c rest h k = ground arith
find_index?-append p (x ∷ s) c rest h k = ground (arith, find_index?-append p s c rest h.1 k)

pub find_index?-none :
    (p : ℕ → Bool) (s : Bytes) → All (λ x. p x ≡ false) s → find_index? p s ≡ none
find_index?-none p [] h = refl
find_index?-none p (x ∷ s) h = ground (arith, find_index?-none p s h.1)

-- `s.substr(pos, n)` and `s.substr(pos)`
abbrev pub substr : Bytes → ℕ → ℕ → Bytes
substr s pos n = take n (drop pos s)

-- `find_last_not_of` and its kin: the last position that satisfies the test.
abbrev pub find_last_index? : (ℕ → Bool) → Bytes → Option ℕ
find_last_index? p [] = none
find_last_index? p (x ∷ xs) = elim (find_last_index? p xs) [
  | some i ↦ some (suc i)
  | none ↦ if p x then some 0 else none
]

-- `front()` and `back()` of a string, with a byte test.
abbrev pub front_is : ℕ → Bytes → Bool
front_is c [] = false
front_is c (x ∷ xs) = x == c

abbrev pub back_is : ℕ → Bytes → Bool
back_is c [] = false
back_is c (x ∷ []) = x == c
back_is c (x ∷ y ∷ ys) = back_is c (y ∷ ys)

-- `pop_back()`
abbrev pub pop_back : Bytes → Bytes
pop_back [] = []
pop_back (x ∷ []) = []
pop_back (x ∷ y ∷ ys) = x ∷ pop_back (y ∷ ys)

-- `std::to_string` of a number that is not negative. A number has fewer digits than its successor.
decimal : ℕ → ℕ → Bytes
decimal zero n = []
decimal (suc fuel) n =
    let more = decimal fuel (n / 10) ++ (48 + n % 10) ∷ [] in
    if ltb n 10 then (48 + n) ∷ [] else more

unfoldable pub to_string : ℕ → Bytes
unfolding decimal
to_string n = decimal (suc n) n
