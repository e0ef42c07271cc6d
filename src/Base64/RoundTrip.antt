-- ===== src/Base64/RoundTrip.antt =====
-- What `DecodeBase64` makes of the output of `EncodeBase64`.
use ua_5308_smtp.Prelude.{
  ℕ, ◌+◌, ◌-◌, ◌*◌, ◌/◌, ◌%◌, ◌≤◌, ◌<◌, ◌≡◌, refl, Bool, true, false, [], ◌∷◌, ◌++◌, ◌∙◌, Bytes,
  All, arith, length, dec_lt, length-append, append-nil,
}
use ua_5308_smtp.Base64.Alphabet.{ok, err, ◌>>=◌, max_file_size, is_valid_base64, invalid_symbol}
use ua_5308_smtp.Base64.Encoder.{
  block_of, chars_of, chunk_loop, encode_base64, crlf, estimated_size,
}
use ua_5308_smtp.Base64.Decoder.{sanitise, decode_groups, decode_base64}
use ua_5308_smtp.Base64.Groups.{
  decode_groups-chars_of, decode_groups_two, decode_groups_one, sanitise-chars_of,
}

-- A byte string.
abbrev pub AreBytes : Bytes → Type 0
AreBytes = All (λ b. b < 256)

-- The groups of a short text: no line break falls within it.
abbrev pub Fits : ℕ → Bytes → Type 0
Fits line_length xs = line_length + (length xs + 2) / 3 * 4 ≤ 76

length-chars_of : (block : ℕ) (second third : Bool) → length (chars_of block second third) ≡ 4
unfolding chars_of
length-chars_of block second third = refl

-- A group within a line, the last group, and a group that fills its line.
chunk_loop_within :
    (a b c : ℕ) (rest : Bytes) (n : ℕ)
    → n + 4 < 76
    → chunk_loop (a ∷ b ∷ c ∷ rest) n
      ≡ chars_of (block_of a b c) true true ++ chunk_loop rest (n + 4)
unfolding chunk_loop
chunk_loop_within a b c rest n h = ground arith

chunk_loop_last :
    (a b c n : ℕ) → chunk_loop (a ∷ b ∷ c ∷ []) n ≡ chars_of (block_of a b c) true true ++ []
unfolding chunk_loop
chunk_loop_last a b c n = ground arith

chunk_loop_full :
    (a b c d : ℕ) (rest : Bytes) (n : ℕ)
    → 76 ≤ n + 4
    → chunk_loop (a ∷ b ∷ c ∷ d ∷ rest) n
      ≡ chars_of (block_of a b c) true true ++ (crlf ++ chunk_loop (d ∷ rest) 0)
unfolding chunk_loop
chunk_loop_full a b c d rest n h = ground arith

-- A text within one line is decoded group by group.
decode-chunk_loop :
    (xs : Bytes) (n : ℕ) → AreBytes xs → Fits n xs → decode_groups (chunk_loop xs n) ≡ ok xs
decode-chunk_loop [] n bs f = unfold decode_groups chunk_loop in refl
decode-chunk_loop (a ∷ []) n bs f = unfold chunk_loop in decode_groups_one a bs.0
decode-chunk_loop (a ∷ b ∷ []) n bs f = unfold chunk_loop in decode_groups_two a b bs.0 bs.1.0
decode-chunk_loop (a ∷ b ∷ c ∷ []) n bs f =
    rw (chunk_loop_last a b c n, decode_groups-chars_of a b c [] bs.0 bs.1.0 bs.1.1.0)
      (unfold decode_groups in refl)
decode-chunk_loop (a ∷ b ∷ c ∷ d ∷ rest) n bs f = rw (
  chunk_loop_within a b c (d ∷ rest) n (omega arith),
  decode_groups-chars_of a b c (chunk_loop (d ∷ rest) (n + 4)) bs.0 bs.1.0 bs.1.1.0,
  decode-chunk_loop (d ∷ rest) (n + 4) bs.1.1.1 (omega arith),
)

-- Such a text holds valid characters only, four for each group.
sanitise-chunk_loop :
    (xs : Bytes) (n : ℕ) → Fits n xs → sanitise (chunk_loop xs n) ≡ ok (chunk_loop xs n)
sanitise-chunk_loop [] n f = unfold sanitise chunk_loop in refl
sanitise-chunk_loop (a ∷ []) n f =
    unfold chunk_loop sanitise in
    rw append-nil at (sanitise-chars_of (block_of a 0 0) false false [])
sanitise-chunk_loop (a ∷ b ∷ []) n f =
    unfold chunk_loop sanitise in
    rw append-nil at (sanitise-chars_of (block_of a b 0) true false [])
sanitise-chunk_loop (a ∷ b ∷ c ∷ []) n f =
    rw (chunk_loop_last a b c n)
      (unfold sanitise in sanitise-chars_of (block_of a b c) true true [])
sanitise-chunk_loop (a ∷ b ∷ c ∷ d ∷ rest) n f = rw (
  chunk_loop_within a b c (d ∷ rest) n (omega arith),
  sanitise-chars_of (block_of a b c) true true (chunk_loop (d ∷ rest) (n + 4)),
  sanitise-chunk_loop (d ∷ rest) (n + 4) (omega arith),
)

-- A longer text has a line break, and the first one is refused.
sanitise-chunk_loop_long :
    (xs : Bytes) (n : ℕ)
    → n % 4 ≡ 0
    → n < 76
    → 76 < n + (length xs + 2) / 3 * 4
    → sanitise (chunk_loop xs n) ≡ err (invalid_symbol b'\r')
sanitise-chunk_loop_long [] n m l h = absurd (omega arith)
sanitise-chunk_loop_long (a ∷ []) n m l h = absurd (omega arith)
sanitise-chunk_loop_long (a ∷ b ∷ []) n m l h = absurd (omega arith)
sanitise-chunk_loop_long (a ∷ b ∷ c ∷ []) n m l h = absurd (omega arith)
sanitise-chunk_loop_long (a ∷ b ∷ c ∷ d ∷ rest) n m l h = elim (dec_lt (n + 4) 76) [
  | yes within ↦ rw (
    chunk_loop_within a b c (d ∷ rest) n within,
    sanitise-chars_of (block_of a b c) true true (chunk_loop (d ∷ rest) (n + 4)),
    sanitise-chunk_loop_long (d ∷ rest) (n + 4) (omega arith) within (omega arith),
  )
  | no full ↦ rw (
    chunk_loop_full a b c d rest n (omega arith),
    sanitise-chars_of (block_of a b c) true true (crlf ++ chunk_loop (d ∷ rest) 0),
    refused,
  )
]
  where
    refused : sanitise (crlf ++ chunk_loop (d ∷ rest) 0) ≡ err (invalid_symbol b'\r')
    refused = unfold sanitise is_valid_base64 in refl

-- The output's length: four characters for each group, and two for each line break.
length-chunk_loop :
    (xs : Bytes) (n : ℕ)
    → n % 4 ≡ 0
    → n < 76
    → length (chunk_loop xs n)
      ≡ (length xs + 2) / 3 * 4 + 2 * ((n + (length xs + 2) / 3 * 4 - 1) / 76)
length-chunk_loop [] n m l = unfold chunk_loop in omega arith
length-chunk_loop (a ∷ []) n m l =
    unfold chunk_loop in omega (arith, length-chars_of (block_of a 0 0) false false)
length-chunk_loop (a ∷ b ∷ []) n m l =
    unfold chunk_loop in omega (arith, length-chars_of (block_of a b 0) true false)
length-chunk_loop (a ∷ b ∷ c ∷ []) n m l =
    rw (chunk_loop_last a b c n, length-append (chars_of (block_of a b c) true true) [])
      (omega (arith, length-chars_of (block_of a b c) true true))
length-chunk_loop (a ∷ b ∷ c ∷ d ∷ rest) n m l = elim (dec_lt (n + 4) 76) [
  | yes within ↦
      rw
        (
          chunk_loop_within a b c (d ∷ rest) n within,
          length-append (chars_of (block_of a b c) true true) (chunk_loop (d ∷ rest) (n + 4)),
        )
        (omega (
          arith,
          length-chars_of (block_of a b c) true true,
          length-chunk_loop (d ∷ rest) (n + 4) (omega arith) within,
        ))
  | no full ↦
      rw
        (
          chunk_loop_full a b c d rest n (omega arith),
          length-append (chars_of (block_of a b c) true true) (crlf ++ chunk_loop (d ∷ rest) 0),
        )
        (omega (
          arith,
          length-chars_of (block_of a b c) true true,
          length-chunk_loop (d ∷ rest) 0 refl (omega arith),
        ))
]

-- The exact length of the output, which never exceeds what `ChunkBytes` reserves.
pub length-encode_base64 :
    (xs : Bytes) {s : Bytes}
    → encode_base64 xs ≡ ok s
    → (length s ≡ (length xs + 2) / 3 * 4 + 2 * (((length xs + 2) / 3 * 4 - 1) / 76))
      × (length s ≤ estimated_size (length xs))
length-encode_base64 xs {s} e = (exact, unfold estimated_size in omega (arith, exact))
  where
    run : chunk_loop xs 0 ≡ s
    run = unfold encode_base64 in ground arith

    exact : length s ≡ (length xs + 2) / 3 * 4 + 2 * (((length xs + 2) / 3 * 4 - 1) / 76)
    exact = rw (← run) (omega (arith, length-chunk_loop xs 0 refl (omega arith)))

encode_base64_small :
    (xs : Bytes) → length xs ≤ max_file_size → encode_base64 xs ≡ ok (chunk_loop xs 0)
unfolding encode_base64
encode_base64_small xs h = ground arith

decode_base64_clean :
    (s : Bytes) → sanitise s ≡ ok s → length s % 4 ≡ 0 → decode_base64 s ≡ decode_groups s
unfolding decode_base64
decode_base64_clean s h k = ground arith

-- A text of at most 57 bytes, one line of output, is decoded to itself.
pub decode_base64-encode_base64 :
    (xs : Bytes) → AreBytes xs → length xs ≤ 57 → (encode_base64 xs >>= decode_base64) ≡ ok xs
decode_base64-encode_base64 xs bs h = rw (encode_base64_small xs (omega arith)) (
    decode_base64_clean (chunk_loop xs 0) (sanitise-chunk_loop xs 0 fits) whole
    ∙ decode-chunk_loop xs 0 bs fits)
  where
    fits : Fits 0 xs
    fits = omega arith

    whole : length (chunk_loop xs 0) % 4 ≡ 0
    whole = omega (arith, length-chunk_loop xs 0 refl (omega arith))

-- A longer text is encoded in several lines, and the decoder refuses the first line break: the two
-- one-shot functions are inverse on one line of output only.
pub decode_base64-encode_base64_long :
    (xs : Bytes)
    → 57 < length xs
    → length xs ≤ max_file_size
    → (encode_base64 xs >>= decode_base64) ≡ err (invalid_symbol b'\r')
decode_base64-encode_base64_long xs h k =
    rw (encode_base64_small xs k)
      (unfold decode_base64 in rw (sanitise-chunk_loop_long xs 0 refl (omega arith) (omega arith)))
