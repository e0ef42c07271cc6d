-- ===== src/Imap/UidSets.antt =====
-- imap-server/src/ImapUtils.cpp: `ParseSequenceSet` as UID STORE and UID COPY call it, with INT64_MAX
-- for "*", and what becomes of a range that ends in "*".
use ua_5308_smtp.Prelude.{
  ℕ, zero, suc, ◌+◌, ◌-◌, ◌*◌, ◌<◌, ◌≤◌, ◌≡◌, refl, ap, ◌∙◌, true, false, none, some, List, [], ◌∷◌,
  ◌++◌, append-nil, ◌==◌, ltb, Bytes, codes, equal, All, arith,
}
use ua_5308_smtp.Prelude.Int.{ℤ, pos}
use ua_5308_smtp.Prelude.Search.{cut_at?}
use ua_5308_smtp.Effects.{M, Outcome, returned, thrown, bad_alloc, caught}
use ua_5308_smtp.Mime.Message.{cut_at?-skip, cut_at?-here, All-map}
use ua_5308_smtp.Imap.Command.{ImapCommand}
use ua_5308_smtp.Imap.Session.{Server, is_selected}
use ua_5308_smtp.Imap.Mailboxes.{split}
use ua_5308_smtp.Imap.Status.{is_space, split_args, trim_parentheses}
use ua_5308_smtp.Imap.Sequence.{
  Machine, int64_bound, le_int, next_int, is_digit, digits_value, stoll, push_range, push_part,
  push_parts, parse_sequence_set,
}
use ua_5308_smtp.Imap.Store.{
  max_int64, unknown_flag, handle_uid_store, with_known_flags, uid_store_args, uid_store_body,
  invalid_sequence,
}
use ua_5308_smtp.Imap.Response

le_int-max : (m d room : ℕ) → d + room ≤ m → le_int (pos d) (pos m) ≡ true
le_int-max m d room h = ground arith

next_int-below : (m d : ℕ) (past_max : ℤ) → d < m → next_int (suc m) past_max (pos d) ≡ pos (suc d)
next_int-below m d past_max h = ground arith

-- The loop up to the greatest value from where the room ends before it: `push_back` throws.
push_range-max :
    (m : ℕ) (past_max : ℤ) (room d : ℕ)
    → d + room ≤ m
    → push_range (suc m) past_max room (pos d) (pos m) ≡ thrown bad_alloc
unfolding push_range
push_range-max m past_max zero d h = rw (le_int-max m d 0 h) refl
push_range-max m past_max (suc room) d h =
    rw
      (
        le_int-max m d (suc room) h,
        next_int-below m d past_max (omega arith),
        push_range-max m past_max room (suc d) (omega arith),
      )
      refl

digit-no_space : (c : ℕ) → is_digit c ≡ true → is_space c ≡ false
digit-no_space c h = ground arith

digit-no_sign : (c : ℕ) → is_digit c ≡ true → ((c == b'-') ≡ false) × ((c == b'+') ≡ false)
digit-no_sign c h = ground arith

digit-no_star : (c : ℕ) (n : Bytes) → is_digit c ≡ true → equal (c ∷ n) (codes "*") ≡ false
digit-no_star c n h = ground arith

lt→ltb : (m n : ℕ) → m < n → ltb m n ≡ true
lt→ltb m n h = ground arith

-- A text of digits is read as their value.
stoll-digits :
    (bound c : ℕ) (n : Bytes)
    → is_digit c ≡ true
    → digits_value 0 (c ∷ n) < bound
    → stoll bound (c ∷ n) ≡ returned (pos (digits_value 0 (c ∷ n)))
unfolding stoll
stoll-digits bound c n h small =
    rw
      (
        digit-no_space c h,
        stoll,
        (digit-no_sign c h).0,
        (digit-no_sign c h).1,
        h,
        lt→ltb (digits_value (0 * 10 + (c - 48)) n) bound (rw h at small),
      )
      refl

digit-no_colon : (c : ℕ) → is_digit c ≡ true → (c == b':') ≡ false
digit-no_colon c h = ground arith

cut_at?-star :
    (n : Bytes)
    → All (λ c. is_digit c ≡ true) n
    → cut_at? (codes ":") (n ++ codes ":*") ≡ some (n, codes "*")
cut_at?-star n h =
    cut_at?-skip b':' [] n (codes ":*") [] (codes "*")
      (All-map (λ c. is_digit c ≡ true) (λ c. (c == b':') ≡ false) digit-no_colon n h)
      (cut_at?-here [] (codes "*") b':')
    ∙ ap (λ (t : Bytes). some (t, codes "*")) (append-nil n)

push_part-star :
    (m : ℕ) (past_max : ℤ) (room c : ℕ) (n : Bytes)
    → All (λ c. is_digit c ≡ true) (c ∷ n)
    → digits_value 0 (c ∷ n) + room < suc m
    → push_part (suc m) past_max room (c ∷ n ++ codes ":*") (pos m) ≡ thrown bad_alloc
unfolding push_part
push_part-star m past_max room c n h small =
    rw
      (
        cut_at?-star (c ∷ n) h,
        push_part,
        digit-no_star c n h.0,
        stoll-digits (suc m) c n h.0 (omega arith),
        le_int-max m (digits_value 0 (c ∷ n)) room (omega arith),
      )
      (push_range-max m past_max room (digits_value 0 (c ∷ n)) (omega arith))

digit-no_comma : (c : ℕ) → is_digit c ≡ true → (c == b',') ≡ false
digit-no_comma c h = ground arith

split-star :
    (n : Bytes)
    → All (λ c. is_digit c ≡ true) n
    → split b',' (n ++ codes ":*") ≡ (n ++ codes ":*") ∷ []
unfolding split
split-star [] h = refl
split-star (c ∷ n) h = rw (digit-no_comma c h.0, split-star n h.1) refl

-- The range from a number to "*", where "*" is the greatest value: the room ends before the loop is
-- there.
parse_sequence_set-star :
    (m : ℕ) (machine : Machine) (c : ℕ) (n : Bytes)
    → All (λ d. is_digit d ≡ true) (c ∷ n)
    → digits_value 0 (c ∷ n) + machine.room < suc m
    → parse_sequence_set (suc m) machine (c ∷ n ++ codes ":*") (pos m) ≡ thrown bad_alloc
unfolding parse_sequence_set
parse_sequence_set-star m machine c n h small =
    rw
      (
        split-star (c ∷ n) h,
        parse_sequence_set,
        push_parts,
        push_part-star m machine.past_max machine.room c n h small,
      )
      refl

bound_pos : int64_bound ≡ suc (int64_bound - 1)
unfolding int64_bound
bound_pos = refl

sequence_set-star :
    (bound : ℕ) (machine : Machine) (c : ℕ) (n : Bytes)
    → bound ≡ suc (bound - 1)
    → All (λ d. is_digit d ≡ true) (c ∷ n)
    → digits_value 0 (c ∷ n) + machine.room < bound
    → parse_sequence_set bound machine (c ∷ n ++ codes ":*") (pos (bound - 1)) ≡ thrown bad_alloc
sequence_set-star zero machine c n e h small = absurd (omega arith)
sequence_set-star (suc m) machine c n e h small =
    let same : suc m - 1 ≡ m = omega arith in
    rw same (parse_sequence_set-star m machine c n h small)

known_flags_lem :
    (cmd : ImapCommand) (flags : Bytes) (body : List Bytes → M Server Bytes) (w : Server)
    → unknown_flag (split_args (trim_parentheses flags)) ≡ none
    → with_known_flags cmd flags body w ≡ body (split_args (trim_parentheses flags)) w
known_flags_lem cmd flags body w known = rw (known, with_known_flags) refl

uid_store_args-thrown :
    (machine : Machine) (cmd : ImapCommand) (set item flags : Bytes) (w : Server)
    → unknown_flag (split_args (trim_parentheses flags)) ≡ none
    → parse_sequence_set int64_bound machine set max_int64 ≡ thrown bad_alloc
    → uid_store_args machine cmd (set ∷ item ∷ flags ∷ []) w
      ≡ (returned (Response.bad cmd.tag (codes "Invalid message sequence")), w)
uid_store_args-thrown machine cmd set item flags w known e =
    ap (λ (r : Outcome Bytes × Server). caught r (invalid_sequence cmd))
      (known_flags_lem cmd flags (uid_store_body machine cmd set item) w known)
    ∙ rw e refl

-- In a selected mailbox, UID STORE of known flags to the range from a number to "*" is answered with BAD
-- and changes nothing, where a vector cannot hold the numbers from there up to INT64_MAX.
pub handle_uid_store-star :
    (machine : Machine) (cmd : ImapCommand) (w : Server) (c : ℕ) (n item flags : Bytes)
    → is_selected w.dispatcher.state ≡ true
    → All (λ d. is_digit d ≡ true) (c ∷ n)
    → digits_value 0 (c ∷ n) + machine.room < int64_bound
    → unknown_flag (split_args (trim_parentheses flags)) ≡ none
    → cmd.args ≡ (c ∷ n ++ codes ":*") ∷ item ∷ flags ∷ []
    → handle_uid_store machine cmd w
      ≡ (returned (Response.bad cmd.tag (codes "Invalid message sequence")), w)
unfolding handle_uid_store
handle_uid_store-star machine cmd w c n item flags open_mailbox digits small known args =
    let step : handle_uid_store machine cmd w ≡ uid_store_args machine cmd cmd.args w =
      rw (open_mailbox, handle_uid_store) refl in
    step
    ∙ ap (λ (given : List Bytes). uid_store_args machine cmd given w) args
    ∙ uid_store_args-thrown machine cmd (c ∷ n ++ codes ":*") item flags w known
        (sequence_set-star int64_bound machine c n bound_pos digits small)
