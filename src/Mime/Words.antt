-- ===== src/Mime/Words.antt =====
-- mime/src/MimeEncoder.cpp and mime/src/MimeDecoder.cpp: `DecodeEncodedWord` on what `EncodeHeader`
-- writes.
use ua_5308_smtp.Prelude.{
  ℕ, zero, suc, ◌≤◌, ◌≡◌, refl, ap, ◌∙◌, Bool, true, false, not, Option, some, none, List, [], ◌∷◌,
  ◌++◌, append_assoc, append-nil, ◌==◌, if◌then◌else◌, Bytes, codes, length, All, arith, is_blank,
  find_index?-none,
}
use ua_5308_smtp.Prelude.Search.{cut_at?}
use ua_5308_smtp.Base64.Alphabet.{ok, is_valid_base64}
use ua_5308_smtp.Base64.Decoder.{decode_base64}
use ua_5308_smtp.Base64.Bounds.{decode_base64_bounds}
use ua_5308_smtp.Mime.Decoder.{gap_of, has_text, decode_word, read_word, word_loop}
use ua_5308_smtp.Mime.Encoder.{encoded_word}
use ua_5308_smtp.Mime.Message.{cut_at?-skip, cut_at?-here, All-map}

-- A part of a text with the characters that stand for it.
pub record Word : Type 0 where
  pub base64_chunk : Bytes
  pub chunk : Bytes
  pub decoded : decode_base64 base64_chunk ≡ ok chunk

-- The words behind the first, each behind the separator.
abbrev pub write_words : Bytes → List Word → Bytes
write_words separator [] = []
write_words separator (w ∷ words) =
    separator ++ (encoded_word w.base64_chunk ++ write_words separator words)

abbrev pub chunks : List Word → Bytes
chunks [] = []
chunks (w ∷ words) = w.chunk ++ chunks words

valid-no_question : (c : ℕ) → is_valid_base64 c ≡ true → (c == b'?') ≡ false
unfolding is_valid_base64
valid-no_question c h = ground arith

no_question :
    (s : Bytes) {out : Bytes} → decode_base64 s ≡ ok out → All (λ c. (c == b'?') ≡ false) s
no_question s e =
    All-map (λ c. is_valid_base64 c ≡ true) (λ c. (c == b'?') ≡ false) valid-no_question s
      (decode_base64_bounds s e).0

decode_word-base64 : (s out : Bytes) → decode_base64 s ≡ ok out → decode_word (codes "B") s ≡ out
unfolding decode_word
decode_word-base64 s out e = rw e refl

-- A word behind its "=?".
pub read_word-encoded_word :
    (w : Word) (rest : Bytes)
    → read_word (codes "UTF-8?B?" ++ (w.base64_chunk ++ (codes "?=" ++ rest)))
      ≡ some (w.chunk, rest)
unfolding read_word
read_word-encoded_word w rest =
    ap
      (λ (r : Option (Bytes × Bytes)). elim r [
        | none ↦ none
        | some (text, behind) ↦ some (decode_word (codes "B") text, behind)
      ])
      (cut_at?-skip b'?' (b'=' ∷ []) w.base64_chunk (codes "?=" ++ rest) [] rest
          (no_question w.base64_chunk w.decoded) (cut_at?-here (b'=' ∷ []) rest b'?')
        ∙ ap (λ (t : Bytes). some (t, rest)) (append-nil w.base64_chunk))
    ∙ ap (λ (t : Bytes). some (t, rest)) (decode_word-base64 w.base64_chunk w.chunk w.decoded)

cut_at?-nil : (pattern : Bytes) → cut_at? pattern [] ≡ none
unfolding cut_at?
cut_at?-nil pattern = refl

-- A round of the loop that reads a word.
pub word_loop_step :
    (fuel : ℕ) (found : Bool) (input gap word decoded_part rest : Bytes)
    → cut_at? (codes "=?") input ≡ some (gap, word)
    → read_word word ≡ some (decoded_part, rest)
    → word_loop (suc fuel) found input ≡ (
      (word_loop fuel true rest).0,
      gap_of found gap ++ (decoded_part ++ (word_loop fuel true rest).1),
    )
unfolding word_loop
word_loop_step fuel found [] gap word decoded_part rest h k = cc (cut_at?-nil (codes "=?"))
word_loop_step fuel found (c ∷ input) gap word decoded_part rest h k = rw (h, word_loop, k) refl

has_text-blank : (gap : Bytes) → All (λ c. is_blank c ≡ true) gap → has_text gap ≡ false
has_text-blank gap h =
    ap (λ (r : Option ℕ). elim r as (λ _. Bool) [ none ↦ false | some _ ↦ true ])
      (find_index?-none (λ c. not (is_blank c)) gap
        (All-map (λ c. is_blank c ≡ true) (λ c. not (is_blank c) ≡ false) (λ c k. rw k refl) gap h))

-- The word that the loop finds behind a gap without "=".
pub cut_at?-word :
    (gap : Bytes) (w : Word) (tail : Bytes)
    → All (λ c. is_blank c ≡ true) gap
    → cut_at? (codes "=?") (gap ++ (encoded_word w.base64_chunk ++ tail))
      ≡ some (gap, codes "UTF-8?B?" ++ (w.base64_chunk ++ (codes "?=" ++ tail)))
cut_at?-word gap w tail blank =
    ap (λ (t : Bytes). cut_at? (codes "=?") (gap ++ (codes "=?UTF-8?B?" ++ t)))
      (append_assoc w.base64_chunk (codes "?=") tail)
    ∙ cut_at?-skip b'=' (b'?' ∷ []) gap
        (codes "=?UTF-8?B?" ++ (w.base64_chunk ++ (codes "?=" ++ tail))) []
        (codes "UTF-8?B?" ++ (w.base64_chunk ++ (codes "?=" ++ tail)))
        (All-map (λ c. is_blank c ≡ true) (λ c. (c == b'=') ≡ false) (λ c k. ground arith) gap
          blank)
        (cut_at?-here (b'?' ∷ []) (codes "UTF-8?B?" ++ (w.base64_chunk ++ (codes "?=" ++ tail)))
          b'=')
    ∙ ap (λ (t : Bytes). some (t, codes "UTF-8?B?" ++ (w.base64_chunk ++ (codes "?=" ++ tail))))
        (append-nil gap)

-- A word behind blanks, which are left out between words.
word_loop-word :
    (fuel : ℕ) (gap : Bytes) (w : Word) (tail : Bytes)
    → All (λ c. is_blank c ≡ true) gap
    → word_loop (suc fuel) true (gap ++ (encoded_word w.base64_chunk ++ tail))
      ≡ ((word_loop fuel true tail).0, w.chunk ++ (word_loop fuel true tail).1)
word_loop-word fuel gap w tail blank =
    word_loop_step fuel true (gap ++ (encoded_word w.base64_chunk ++ tail)) gap
      (codes "UTF-8?B?" ++ (w.base64_chunk ++ (codes "?=" ++ tail))) w.chunk tail
      (cut_at?-word gap w tail blank) (read_word-encoded_word w tail)
    ∙ ap
        (λ (b : Bool). (
          (word_loop fuel true tail).0,
          (if b then gap else []) ++ (w.chunk ++ (word_loop fuel true tail).1),
        ))
        (has_text-blank gap blank)

pub word_loop-write_words :
    (fuel : ℕ) (separator : Bytes) (words : List Word)
    → All (λ c. is_blank c ≡ true) separator
    → length words ≤ fuel
    → word_loop fuel true (write_words separator words) ≡ (true, chunks words)
unfolding word_loop
word_loop-write_words zero separator [] blank enough = refl
word_loop-write_words (suc fuel) separator [] blank enough = refl
word_loop-write_words zero separator (w ∷ words) blank enough = absurd (omega arith)
word_loop-write_words (suc fuel) separator (w ∷ words) blank enough =
    word_loop-word fuel separator w (write_words separator words) blank
    ∙ ap (λ (r : Bool × Bytes). (r.0, w.chunk ++ r.1))
        (word_loop-write_words fuel separator words blank (omega arith))
