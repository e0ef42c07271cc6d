-- ===== src/Mime/HeaderTrip.antt =====
-- mime/src/MimeEncoder.cpp and mime/src/MimeDecoder.cpp: `EncodeHeader` and `DecodeEncodedWord` one
-- after the other.
use ua_5308_smtp.Prelude.{
  ℕ, zero, suc, ◌≤◌, ◌≡◌, refl, sym, ap, ◌∙◌, Bool, true, false, some, List, [], ◌∷◌, ◌++◌,
  append_assoc, append-nil, Bytes, codes, length, All, arith, is_empty, is_blank, take, drop,
  length-append, length-take, length-drop, take-append-drop,
}
use ua_5308_smtp.Base64.Alphabet.{Result, ok, err, ◌>>=◌}
use ua_5308_smtp.Base64.Encoder.{encode_base64}
use ua_5308_smtp.Base64.Decoder.{decode_base64}
use ua_5308_smtp.Base64.RoundTrip.{AreBytes, decode_base64-encode_base64}
use ua_5308_smtp.StringUtils.Wrap.{find_utf8_safe_end}
use ua_5308_smtp.Mime.Decoder.{word_loop, decode_encoded_word}
use ua_5308_smtp.Mime.Encoder.{
  encoded_word, append_word, encode_loop, encode_header, needs_encoding,
}
use ua_5308_smtp.Mime.Utf8.{HasNoRun, HasNoRun-drop, find_utf8_safe_end_bounds}
use ua_5308_smtp.Mime.Words.{
  Word, write_words, chunks, word_loop-write_words, word_loop_step, cut_at?-word,
  read_word-encoded_word,
}

abbrev append_words : Bytes → Bytes → List Word → Bytes
append_words separator result [] = result
append_words separator result (w ∷ words) =
    append_words separator (append_word separator result w.base64_chunk) words

append_words-write_words :
    (separator result : Bytes) (words : List Word)
    → is_empty result ≡ false
    → append_words separator result words ≡ result ++ write_words separator words
append_words-write_words separator result [] h = sym (append-nil result)
append_words-write_words separator [] (w ∷ words) h = cc
append_words-write_words separator (c ∷ result) (w ∷ words) h =
    append_words-write_words separator (append_word separator (c ∷ result) w.base64_chunk) words
      refl
    ∙ append_assoc ((c ∷ result) ++ separator) (encoded_word w.base64_chunk)
        (write_words separator words)
    ∙ append_assoc (c ∷ result) separator
        (encoded_word w.base64_chunk ++ write_words separator words)

AreBytes-take : (n : ℕ) (s : Bytes) → AreBytes s → AreBytes (take n s)
AreBytes-take zero s h = tt
AreBytes-take (suc n) [] h = h
AreBytes-take (suc n) (c ∷ s) h = (h.0, AreBytes-take n s h.1)

AreBytes-drop : (n : ℕ) (s : Bytes) → AreBytes s → AreBytes (drop n s)
AreBytes-drop zero s h = h
AreBytes-drop (suc n) [] h = h
AreBytes-drop (suc n) (c ∷ s) h = AreBytes-drop n s h.1

-- A text of at most 57 bytes has a word.
encoded :
    (m : Result Bytes) (s : Bytes)
    → (m >>= decode_base64) ≡ ok s
    → (b : Bytes) × (m ≡ ok b) × (decode_base64 b ≡ ok s)
encoded (ok b) s h = (b, refl, h)
encoded (err e) s h = cc

word_of :
    (s : Bytes)
    → AreBytes s
    → length s ≤ 57
    → (w : Word) × (w.chunk ≡ s) × (encode_base64 s ≡ ok w.base64_chunk)
word_of s bytes short =
    let (b, e, d) = encoded (encode_base64 s) s (decode_base64-encode_base64 s bytes short) in
    (record { base64_chunk = b; chunk = s; decoded = d }, refl, e)

module _ (chunk_size : ℕ) (separator : Bytes) (large : 4 ≤ chunk_size)
    (small : chunk_size ≤ 57) where
  -- The loop ends, and writes words for the parts of the text.
  encode_loop-words :
      (fuel : ℕ) (result text : Bytes)
      → HasNoRun text
      → AreBytes text
      → length text ≤ fuel
      → (words : List Word) × (encode_loop fuel chunk_size separator result text
          ≡ some (ok (append_words separator result words)))
        × (chunks words ≡ text)
  unfolding encode_loop
  encode_loop-words zero result [] runs bytes enough = ([], refl, refl)
  encode_loop-words (suc fuel) result [] runs bytes enough = ([], refl, refl)
  encode_loop-words zero result (c ∷ text) runs bytes enough = absurd (omega arith)
  encode_loop-words (suc fuel) result (c ∷ text) runs bytes enough =
      let whole = c ∷ text in
      let n = find_utf8_safe_end whole 0 chunk_size in
      let bounds = find_utf8_safe_end_bounds whole chunk_size runs (omega arith) large in
      let (w, same, e) =
        word_of (take n whole) (AreBytes-take n whole bytes)
          (omega (arith, length-take {0} n whole, bounds.1)) in
      let (words, run, joined) =
        encode_loop-words fuel (append_word separator result w.base64_chunk) (drop n whole)
          (HasNoRun-drop n whole runs) (AreBytes-drop n whole bytes)
          (omega (arith, length-drop {0} n whole, bounds.0)) in
      (w ∷ words, rw (encode_loop, e) run, rw (same, joined) (take-append-drop n whole))

length-write_words :
    (separator : Bytes) (words : List Word) → length words ≤ length (write_words separator words)
length-write_words separator [] = omega arith
length-write_words separator (w ∷ words) = omega (
  arith,
  length-append {0} separator (encoded_word w.base64_chunk ++ write_words separator words),
  length-append {0} (w.base64_chunk ++ codes "?=") (write_words separator words),
  length-write_words separator words,
)

decode_encoded_word-found :
    (input out : Bytes)
    → word_loop (length input) false input ≡ (true, out)
    → decode_encoded_word input ≡ out
unfolding decode_encoded_word
decode_encoded_word-found input out e = rw e refl

-- Words one after the other are read as their texts.
decode_encoded_word-words :
    (separator : Bytes) (w : Word) (words : List Word)
    → All (λ c. is_blank c ≡ true) separator
    → decode_encoded_word (encoded_word w.base64_chunk ++ write_words separator words)
      ≡ w.chunk ++ chunks words
decode_encoded_word-words separator w words blank =
    let tail = write_words separator words in
    let fuel = length (codes "?UTF-8?B?" ++ ((w.base64_chunk ++ codes "?=") ++ tail)) in
    decode_encoded_word-found (encoded_word w.base64_chunk ++ tail) (w.chunk ++ chunks words) (
      word_loop_step fuel false (encoded_word w.base64_chunk ++ tail) []
        (codes "UTF-8?B?" ++ (w.base64_chunk ++ (codes "?=" ++ tail))) w.chunk tail
        (cut_at?-word [] w tail tt) (read_word-encoded_word w tail)
      ∙ ap (λ (r : Bool × Bytes). (r.0, w.chunk ++ r.1))
          (word_loop-write_words fuel separator words blank (
            omega (
              arith,
              length-append {0} (w.base64_chunk ++ codes "?=") tail,
              length-write_words separator words,
            ))))

-- Where the text has bytes only and no four continuation bytes in a row, the parts are of 4 to 57 bytes,
-- and the separator is blank: EncodeHeader, of a text that needs encoding, returns words that
-- DecodeEncodedWord reads as the text.
pub decode_encoded_word-encode_header :
    (chunk_size : ℕ) (separator text : Bytes)
    → 4 ≤ chunk_size
    → chunk_size ≤ 57
    → All (λ c. is_blank c ≡ true) separator
    → HasNoRun text
    → AreBytes text
    → needs_encoding text ≡ true
    → (s : Bytes) × (encode_header chunk_size text separator ≡ some (ok s))
      × (decode_encoded_word s ≡ text)
unfolding encode_header
decode_encoded_word-encode_header chunk_size separator text large small blank runs bytes needed =
    let (words, run, joined) =
      encode_loop-words chunk_size separator large small (length text) [] text runs bytes
        (omega arith) in
    (
      append_words separator [] words,
      rw (encode_header, needed) run,
      read_words words text joined needed,
    )
  where
    read_words :
        (words : List Word) (text : Bytes)
        → chunks words ≡ text
        → needs_encoding text ≡ true
        → decode_encoded_word (append_words separator [] words) ≡ text
    read_words [] [] joined needed = cc
    read_words [] (c ∷ text) joined needed = cc
    read_words (w ∷ words) text joined needed =
        ap decode_encoded_word
          (append_words-write_words separator (encoded_word w.base64_chunk) words refl)
        ∙ decode_encoded_word-words separator w words blank
        ∙ joined
