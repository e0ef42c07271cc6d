-- ===== src/Imap/Sequence.antt =====
-- imap-server/src/ImapUtils.cpp: `ParseSequenceSet` and `FormatFlagsResponse`. An `int64_t` is the
-- integer that it stands for.
use ua_5308_smtp.Prelude.{
  ℕ, zero, suc, ◌+◌, ◌-◌, ◌*◌, ◌^◌, Bool, true, false, not, ◌&&◌, none, some, List, [], ◌∷◌, ◌++◌,
  ◌==◌, leb, ltb, Bytes, codes, equal, length, back_is, pop_back, if◌then◌else◌,
}
use ua_5308_smtp.Prelude.Int.{ℤ, pos, negsuc}
use ua_5308_smtp.Prelude.Search.{cut_at?}
use ua_5308_smtp.Effects.{Outcome, returned, thrown, bad_alloc, invalid_argument, out_of_range}
use ua_5308_smtp.Database.Rows.{Message}
use ua_5308_smtp.Imap.Mailboxes.{split}
use ua_5308_smtp.Imap.Status.{is_space}

-- 2^63, which INT64_MAX is one below.
unfoldable pub int64_bound : ℕ
int64_bound = 2 ^ 63

-- What the source leaves to the machine that it runs on: how many elements a vector can hold, beyond
-- which `push_back` throws, and what `i` is behind `++i` at INT64_MAX, which C++ does not define.
pub record Machine : Type 0 where
  pub room : ℕ
  pub past_max : ℤ

-- `i <= j`
abbrev pub le_int : ℤ → ℤ → Bool
le_int (negsuc i) (negsuc j) = leb j i
le_int (negsuc i) (pos j) = true
le_int (pos i) (negsuc j) = false
le_int (pos i) (pos j) = leb i j

abbrev pub equal_int : ℤ → ℤ → Bool
equal_int i j = le_int i j && le_int j i

-- `++i`
abbrev pub next_int : ℕ → ℤ → ℤ → ℤ
next_int bound past_max (pos i) = if suc i == bound then past_max else pos (suc i)
next_int bound past_max (negsuc zero) = pos 0
next_int bound past_max (negsuc (suc i)) = negsuc i

abbrev pub skip_spaces : Bytes → Bytes
skip_spaces [] = []
skip_spaces (c ∷ s) = if is_space c then skip_spaces s else c ∷ s

abbrev pub is_digit : ℕ → Bool
is_digit c = leb 48 c && leb c 57

-- The value of the digits in front, from the value so far.
abbrev pub digits_value : ℕ → Bytes → ℕ
digits_value n [] = n
digits_value n (c ∷ s) = if is_digit c then digits_value (n * 10 + (c - 48)) s else n

abbrev pub starts_digit : Bytes → Bool
starts_digit [] = false
starts_digit (c ∷ s) = is_digit c

-- The sign that `strtoll` takes: whether it is a minus, and what follows.
abbrev pub sign_of : Bytes → Bool × Bytes
sign_of [] = (false, [])
sign_of (c ∷ s) = if c == b'-' then (true, s) else if c == b'+' then (false, s) else (false, c ∷ s)

abbrev pub negated : ℕ → ℤ
negated zero = pos 0
negated (suc n) = negsuc n

-- `std::stoll`, which passes over what follows the digits.
unfoldable pub stoll : ℕ → Bytes → Outcome ℤ
stoll bound s =
    let (minus, digits) = sign_of (skip_spaces s) in
    let n = digits_value 0 digits in
    if not (starts_digit digits)
    then thrown (invalid_argument (codes "stoll"))
    else if minus
    then (if leb n bound then returned (negated n) else thrown out_of_range)
    else (if ltb n bound then returned (pos n) else thrown out_of_range)

abbrev pub and_then : {A B : Type 0} → Outcome A → (A → Outcome B) → Outcome B
and_then (returned a) f = f a
and_then (thrown e) f = thrown e

-- The loop `for (i = first; i <= second; ++i)`, with room for as many elements.
unfoldable pub push_range : ℕ → ℤ → ℕ → ℤ → ℤ → Outcome (List ℤ)
push_range bound past_max zero i second = if le_int i second then thrown bad_alloc else returned []
push_range bound past_max (suc room) i second =
    let rest =
      and_then (push_range bound past_max room (next_int bound past_max i) second)
        (λ ids. returned (i ∷ ids)) in
    if le_int i second then rest else returned []

abbrev pub number_or_star : ℕ → Bytes → ℤ → Outcome ℤ
number_or_star bound s max_value = if equal s (codes "*") then returned max_value else stoll bound s

abbrev pub push_ordered : ℕ → ℤ → ℕ → ℤ → ℤ → Outcome (List ℤ)
push_ordered bound past_max room first second =
    if le_int first second
    then push_range bound past_max room first second
    else push_range bound past_max room second first

abbrev pub push_one : ℕ → ℤ → Outcome (List ℤ)
push_one zero i = thrown bad_alloc
push_one (suc room) i = returned (i ∷ [])

-- A part of the set: what it pushes.
unfoldable pub push_part : ℕ → ℤ → ℕ → Bytes → ℤ → Outcome (List ℤ)
unfolding stoll push_range
push_part bound past_max room part max_value = elim (cut_at? (codes ":") part) [
  | some (first_part, second_part) ↦ and_then (number_or_star bound first_part max_value) (λ first.
      and_then (number_or_star bound second_part max_value)
        (λ second. push_ordered bound past_max room first second))
  | none ↦ and_then (number_or_star bound part max_value) (push_one room)
]

unfoldable pub push_parts : ℕ → ℤ → ℕ → List Bytes → ℤ → Outcome (List ℤ)
unfolding push_part
push_parts bound past_max room [] max_value = returned []
push_parts bound past_max room (part ∷ parts) max_value =
    and_then (push_part bound past_max room part max_value) (λ ids.
      and_then (push_parts bound past_max (room - length ids) parts max_value)
        (λ more. returned (ids ++ more)))

-- `std::sort`, and `std::unique` with the erasure of what it leaves behind.
abbrev pub insert_id : ℤ → List ℤ → List ℤ
insert_id i [] = i ∷ []
insert_id i (j ∷ ids) = if le_int i j then i ∷ j ∷ ids else j ∷ insert_id i ids

unfoldable pub sort_ids : List ℤ → List ℤ
sort_ids [] = []
sort_ids (i ∷ ids) = insert_id i (sort_ids ids)

abbrev pub unless_first : ℤ → List ℤ → List ℤ
unless_first i [] = i ∷ []
unless_first i (j ∷ ids) = if equal_int i j then j ∷ ids else i ∷ j ∷ ids

unfoldable pub unique_ids : List ℤ → List ℤ
unique_ids [] = []
unique_ids (i ∷ ids) = unless_first i (unique_ids ids)

-- `ParseSequenceSet`
unfoldable pub parse_sequence_set : ℕ → Machine → Bytes → ℤ → Outcome (List ℤ)
unfolding push_parts sort_ids unique_ids split
parse_sequence_set bound machine sequence_set max_value =
    and_then (push_parts bound machine.past_max machine.room (split b',' sequence_set) max_value)
      (λ res. returned (unique_ids (sort_ids res)))

-- `FormatFlagsResponse`
abbrev pub word_if : Bool → Bytes → Bytes
word_if b word = if b then word else []

abbrev pub pop_space : Bytes → Bytes
pop_space f = if back_is 32 f then pop_back f else f

unfoldable pub format_flags_response : Message → Bytes
format_flags_response msg =
    pop_space (
      codes "(FLAGS ("
      ++ (word_if msg.is_seen (codes "\\Seen ")
          ++ (word_if msg.is_deleted (codes "\\Deleted ")
              ++ (word_if msg.is_draft (codes "\\Draft ")
                  ++ (word_if msg.is_answered (codes "\\Answered ")
                      ++ (word_if msg.is_flagged (codes "\\Flagged ")
                          ++ word_if msg.is_recent (codes "\\Recent ")))))))
    ++ codes "))"
