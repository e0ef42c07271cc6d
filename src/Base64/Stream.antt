-- ===== src/Base64/Stream.antt =====
-- The stream codecs together: what `Base64StreamDecoder` reads from `Base64StreamEncoder`.
use ua_5308_smtp.Prelude.{
  ℕ, ◌+◌, ◌≤◌, ◌<◌, ◌≡◌, refl, sym, Bool, true, false, [], ◌∷◌, ◌++◌, ◌==◌, if◌then◌else◌, ap, ◌∙◌,
  Bytes, All, arith, length, append_assoc, is_blank, fun_ext,
}
use ua_5308_smtp.Base64.Alphabet.{ok, err}
use ua_5308_smtp.Base64.Encoder.{block_of, chars_of, crlf}
use ua_5308_smtp.Base64.Decoder.{decode_group}
use ua_5308_smtp.Base64.RoundTrip.{AreBytes}
use ua_5308_smtp.Base64.Groups.{group_three, group_two, group_one, chars_of-IsBlankFree}
use ua_5308_smtp.Base64.StreamEncoder.{write_chars, encode_part}
use ua_5308_smtp.Base64.StreamDecoder.{
  Written, prepend, ◌>>=◌, decode_part, write_part, put_char, decode_stream,
}

abbrev IsBlankFree : Bytes → Type 0
IsBlankFree = All (λ c. is_blank c ≡ false)

prepend-bind :
    (out : Bytes) (m : Written) (g : Bytes → Written)
    → (prepend out m >>= g) ≡ prepend out (m >>= g)
prepend-bind out (o, err e) g = refl
prepend-bind out (o, ok b) g =
    ap (λ (t : Bytes). let w : Written = (t, (g b).1) in w) (append_assoc out o (g b).0)

bind_assoc : (m : Written) (f g : Bytes → Written) → ((m >>= f) >>= g) ≡ (m >>= λ b. f b >>= g)
bind_assoc (out, err e) f g = refl
bind_assoc (out, ok b) f g = prepend-bind out (f b) g

-- The decoder does not see how its input is cut into calls.
pub decode_stream-append :
    (buffer xs ys : Bytes)
    → decode_stream buffer (xs ++ ys) ≡ (decode_stream buffer xs >>= λ b. decode_stream b ys)
unfolding decode_stream
decode_stream-append buffer [] ys = refl
decode_stream-append buffer (c ∷ cs) ys =
    ap (λ (k : Bytes → Written). (if is_blank c then ([], ok buffer) else put_char buffer c) >>= k)
      (fun_ext λ b. decode_stream-append b cs ys)
    ∙ sym (
        bind_assoc (if is_blank c then ([], ok buffer) else put_char buffer c)
          (λ b. decode_stream b cs) (λ b. decode_stream b ys))

-- Where `DecodeBase64` accepts a group, so does `DecodePart`, with the same bytes.
decode_part-decode_group :
    (c0 c1 c2 c3 : ℕ) {out : Bytes}
    → decode_group c0 c1 c2 c3 ≡ ok out
    → decode_part c0 c1 c2 c3 ≡ ok out
unfolding decode_group decode_part
decode_part-decode_group c0 c1 c2 c3 h = ground arith

decode_break :
    (full : Bool) (buffer rest : Bytes)
    → decode_stream buffer ((if full then crlf else []) ++ rest) ≡ decode_stream buffer rest
unfolding decode_stream
decode_break true buffer rest = refl
decode_break false buffer rest = refl

decode_char :
    (buffer : Bytes) (c : ℕ) (cs : Bytes)
    → is_blank c ≡ false
    → decode_stream buffer (c ∷ cs) ≡ (put_char buffer c >>= λ b. decode_stream b cs)
unfolding decode_stream
decode_char buffer c cs h = rw h

-- The decoder takes one written character, and passes over the line break behind it.
decode_write :
    (buffer : Bytes) (c : ℕ) (cs : Bytes) (n : ℕ) (rest : Bytes)
    → is_blank c ≡ false
    → decode_stream buffer ((write_chars (c ∷ cs) n).0 ++ rest) ≡ (
        put_char buffer c >>= λ b.
        decode_stream b ((write_chars cs (if n + 1 == 76 then 0 else n + 1)).0 ++ rest))
unfolding write_chars
decode_write buffer c cs n rest h =
    decode_char buffer c ((line_end ++ later) ++ rest) h
    ∙ ap (λ (k : Bytes → Written). put_char buffer c >>= k)
        (fun_ext λ b.
          ap (decode_stream b) (append_assoc line_end later rest)
          ∙ decode_break (n + 1 == 76) b (later ++ rest))
  where
    line_end : Bytes
    line_end = if n + 1 == 76 then crlf else []

    later : Bytes
    later = (write_chars cs (if n + 1 == 76 then 0 else n + 1)).0

decode_written :
    (c0 c1 c2 c3 n : ℕ) (rest : Bytes)
    → IsBlankFree (c0 ∷ c1 ∷ c2 ∷ c3 ∷ [])
    → decode_stream [] ((write_chars (c0 ∷ c1 ∷ c2 ∷ c3 ∷ []) n).0 ++ rest)
      ≡ (write_part (decode_part c0 c1 c2 c3) >>= λ b. decode_stream b rest)
decode_written c0 c1 c2 c3 n rest h =
    decode_write [] c0 (c1 ∷ c2 ∷ c3 ∷ []) n rest h.0
    ∙ unfold put_char in
      (decode_write (c0 ∷ []) c1 (c2 ∷ c3 ∷ []) _ rest h.1.0
        ∙ decode_write (c0 ∷ c1 ∷ []) c2 (c3 ∷ []) _ rest h.1.1.0
        ∙ decode_write (c0 ∷ c1 ∷ c2 ∷ []) c3 [] _ rest h.1.1.1.0
        ∙ unfold write_chars in refl)

-- What `EncodePart` writes of one to three bytes is decoded to these bytes.
abbrev pub IsPart : Bytes → Type 0
IsPart part = (0 < length part) × (length part ≤ 3)

abbrev DecodesTo : Bytes → Bytes → Type 0
DecodesTo (c0 ∷ c1 ∷ c2 ∷ c3 ∷ []) out = decode_part c0 c1 c2 c3 ≡ ok out
DecodesTo _ out = ⊥

decode_part_written :
    (block : ℕ) (second third : Bool) (n : ℕ) (rest out : Bytes)
    → DecodesTo (chars_of block second third) out
    → decode_stream [] ((write_chars (chars_of block second third) n).0 ++ rest)
      ≡ prepend out (decode_stream [] rest)
unfolding chars_of
decode_part_written block second third n rest out h =
    decode_written _ _ _ _ n rest (chars_of-IsBlankFree block second third) ∙ rw h

pub decode_encode_part :
    (part : Bytes) (n : ℕ) (rest : Bytes)
    → IsPart part
    → AreBytes part
    → decode_stream [] ((encode_part part n).0 ++ rest) ≡ prepend part (decode_stream [] rest)
decode_encode_part [] n rest p bs = absurd (omega arith)
decode_encode_part (a ∷ []) n rest p bs =
    decode_part_written (block_of a 0 0) false false n rest (a ∷ [])
      (unfold chars_of in decode_part-decode_group _ _ _ _ (group_one a bs.0))
decode_encode_part (a ∷ b ∷ []) n rest p bs =
    decode_part_written (block_of a b 0) true false n rest (a ∷ b ∷ [])
      (unfold chars_of in decode_part-decode_group _ _ _ _ (group_two a b bs.0 bs.1.0))
decode_encode_part (a ∷ b ∷ c ∷ []) n rest p bs =
    decode_part_written (block_of a b c) true true n rest (a ∷ b ∷ c ∷ [])
      (unfold chars_of in decode_part-decode_group _ _ _ _ (group_three a b c bs.0 bs.1.0 bs.1.1.0))
decode_encode_part (a ∷ b ∷ c ∷ d ∷ more) n rest p bs = absurd (omega arith)
