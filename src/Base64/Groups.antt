-- ===== src/Base64/Groups.antt =====
-- One group of three bytes through the encoder's block and back through the decoder's.
use ua_5308_smtp.Prelude.{
  ℕ, ◌%◌, ◌^◌, ◌<◌, ◌≡◌, refl, Bool, true, false, [], ◌∷◌, ◌++◌, ◌∙◌, Bytes, All, is_blank, arith,
}
use ua_5308_smtp.Prelude.Int.{pos}
use ua_5308_smtp.Prelude.Bits.{shr, low_bits}
use ua_5308_smtp.Base64.Alphabet.{ok, ◌>>=◌, is_valid_base64, letter, letter-IsLetterOf}
use ua_5308_smtp.Base64.Encoder.{block_of, block_of-sum, chars_of}
use ua_5308_smtp.Base64.Decoder.{
  sanitise, decode_group, decode_groups, join_values, join_values-sum,
}

-- The digits of a block in base 64, put together again.
digits_sum :
    (block : ℕ)
    → block < 2 ^ 24
    → join_values
        (pos (low_bits (shr block 18) 6))
        (pos (low_bits (shr block 12) 6))
        (pos (low_bits (shr block 6) 6))
        (pos (low_bits block 6))
      ≡ block
digits_sum block h =
    join_values-sum _ _ _ _ (omega arith) (omega arith) (omega arith) (omega arith) ∙ omega arith

full_group :
    (block : ℕ)
    → block < 2 ^ 24
    → decode_group
        (letter (low_bits (shr block 18) 6))
        (letter (low_bits (shr block 12) 6))
        (letter (low_bits (shr block 6) 6))
        (letter (low_bits block 6))
      ≡ ok (low_bits (shr block 16) 8 ∷ low_bits (shr block 8) 8 ∷ low_bits block 8 ∷ [])
unfolding decode_group
full_group block h = ground (
  arith,
  digits_sum block h,
  letter-IsLetterOf (low_bits (shr block 18) 6),
  letter-IsLetterOf (low_bits (shr block 12) 6),
  letter-IsLetterOf (low_bits (shr block 6) 6),
  letter-IsLetterOf (low_bits block 6),
)

two_group :
    (block : ℕ)
    → block < 2 ^ 24
    → block % 64 ≡ 0
    → decode_group
        (letter (low_bits (shr block 18) 6))
        (letter (low_bits (shr block 12) 6))
        (letter (low_bits (shr block 6) 6))
        b'='
      ≡ ok (low_bits (shr block 16) 8 ∷ low_bits (shr block 8) 8 ∷ [])
unfolding decode_group
two_group block h z = ground (
  arith,
  two_digits,
  letter-IsLetterOf (low_bits (shr block 18) 6),
  letter-IsLetterOf (low_bits (shr block 12) 6),
  letter-IsLetterOf (low_bits (shr block 6) 6),
)
  where
    two_digits :
        join_values
          (pos (low_bits (shr block 18) 6))
          (pos (low_bits (shr block 12) 6))
          (pos (low_bits (shr block 6) 6))
          (pos 0)
        ≡ block
    two_digits =
        join_values-sum _ _ _ 0 (omega arith) (omega arith) (omega arith) (omega arith)
        ∙ omega arith

one_group :
    (block : ℕ)
    → block < 2 ^ 24
    → block % 4096 ≡ 0
    → decode_group
        (letter (low_bits (shr block 18) 6))
        (letter (low_bits (shr block 12) 6))
        b'='
        b'='
      ≡ ok (low_bits (shr block 16) 8 ∷ [])
unfolding decode_group
one_group block h z = ground (
  arith,
  one_digit,
  letter-IsLetterOf (low_bits (shr block 18) 6),
  letter-IsLetterOf (low_bits (shr block 12) 6),
)
  where
    one_digit :
        join_values
          (pos (low_bits (shr block 18) 6))
          (pos (low_bits (shr block 12) 6))
          (pos 0)
          (pos 0)
        ≡ block
    one_digit =
        join_values-sum _ _ 0 0 (omega arith) (omega arith) (omega arith) (omega arith)
        ∙ omega arith

-- The groups of three, two and one bytes.
pub group_three :
    (a b c : ℕ)
    → a < 256
    → b < 256
    → c < 256
    → let block = block_of a b c in
      decode_group
        (letter (low_bits (shr block 18) 6))
        (letter (low_bits (shr block 12) 6))
        (letter (low_bits (shr block 6) 6))
        (letter (low_bits block 6))
      ≡ ok (a ∷ b ∷ c ∷ [])
group_three a b c ha hb hc = ground (arith, block_of-sum a b c, full_group (block_of a b c))

pub group_two :
    (a b : ℕ)
    → a < 256
    → b < 256
    → let block = block_of a b 0 in
      decode_group
        (letter (low_bits (shr block 18) 6))
        (letter (low_bits (shr block 12) 6))
        (letter (low_bits (shr block 6) 6))
        b'='
      ≡ ok (a ∷ b ∷ [])
group_two a b ha hb = ground (arith, block_of-sum a b 0, two_group (block_of a b 0))

pub group_one :
    (a : ℕ)
    → a < 256
    → let block = block_of a 0 0 in
      decode_group
        (letter (low_bits (shr block 18) 6))
        (letter (low_bits (shr block 12) 6))
        b'='
        b'='
      ≡ ok (a ∷ [])
group_one a ha = ground (arith, block_of-sum a 0 0, one_group (block_of a 0 0))

pub chars_of-IsBlankFree :
    (block : ℕ) (second third : Bool) → All (λ c. is_blank c ≡ false) (chars_of block second third)
unfolding chars_of
chars_of-IsBlankFree block second third = ground (
  arith,
  letter-IsLetterOf (low_bits (shr block 18) 6),
  letter-IsLetterOf (low_bits (shr block 12) 6),
  letter-IsLetterOf (low_bits (shr block 6) 6),
  letter-IsLetterOf (low_bits block 6),
)

-- A whole group, decoded in front of what follows it.
pub decode_groups-chars_of :
    (a b c : ℕ) (rest : Bytes)
    → a < 256
    → b < 256
    → c < 256
    → decode_groups (chars_of (block_of a b c) true true ++ rest)
      ≡ (decode_groups rest >>= λ more. ok (a ∷ b ∷ c ∷ more))
unfolding decode_groups chars_of
decode_groups-chars_of a b c rest ha hb hc = ground (arith, group_three a b c)

-- The last group, of two bytes.
pub decode_groups_two :
    (a b : ℕ)
    → a < 256
    → b < 256
    → decode_groups (chars_of (block_of a b 0) true false) ≡ ok (a ∷ b ∷ [])
unfolding decode_groups chars_of
decode_groups_two a b ha hb = ground (arith, group_two a b)

pub decode_groups_one :
    (a : ℕ) → a < 256 → decode_groups (chars_of (block_of a 0 0) false false) ≡ ok (a ∷ [])
unfolding decode_groups chars_of
decode_groups_one a ha = ground (arith, group_one a)

pad_valid : is_valid_base64 b'=' ≡ true
unfolding is_valid_base64
pad_valid = refl

-- The characters of a block are valid, so the sanitising loop passes over them.
pub sanitise-chars_of :
    (block : ℕ) (second third : Bool) (rest : Bytes)
    → sanitise (chars_of block second third ++ rest)
      ≡ (sanitise rest >>= λ r. ok (chars_of block second third ++ r))
unfolding sanitise chars_of
sanitise-chars_of block second third rest = ground (
  arith,
  pad_valid,
  letter-IsLetterOf (low_bits (shr block 18) 6),
  letter-IsLetterOf (low_bits (shr block 12) 6),
  letter-IsLetterOf (low_bits (shr block 6) 6),
  letter-IsLetterOf (low_bits block 6),
)
