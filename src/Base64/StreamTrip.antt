-- ===== src/Base64/StreamTrip.antt =====
-- Whole streams: what the encoder's operations write, and what the decoder makes of it.
use ua_5308_smtp.Prelude.{
  ℕ, ◌+◌, ◌%◌, ◌≤◌, ◌<◌, ◌≡◌, refl, sym, true, [], ◌∷◌, ◌++◌, if◌then◌else◌, ap, ◌∙◌, Bytes, arith,
  length, ltb, length-append, append-nil, append_assoc, suc, Bool-cases, inl, inr,
}
use ua_5308_smtp.Base64.Alphabet.{ok, max_file_size}
use ua_5308_smtp.Base64.Encoder.{crlf}
use ua_5308_smtp.Base64.RoundTrip.{AreBytes}
use ua_5308_smtp.Base64.StreamEncoder.{
  StreamEncoder, encode_part, encode_whole, keep_left, encode_stream, finalize_encoder,
}
use ua_5308_smtp.Base64.StreamDecoder.{Written, prepend, decode_stream}
use ua_5308_smtp.Base64.Stream.{decode_encode_part}

-- `out` carries all of `input` but the last bytes `left`, whatever follows it in the stream.
pub record Carries (input out left : Bytes) : Type 0 where
  pub whole : Bytes
  pub splits : input ≡ whole ++ left
  pub short : length left < 3
  pub aligned : length whole % 3 ≡ 0
  pub left_bytes : AreBytes left
  pub reads :
      (rest : Bytes) → decode_stream [] (out ++ rest) ≡ prepend whole (decode_stream [] rest)

pub Carries-nothing : (xs : Bytes) → AreBytes xs → length xs < 3 → Carries xs [] xs
Carries-nothing xs bs h = record {
  whole = [];
  splits = refl;
  short = h;
  aligned = refl;
  left_bytes = bs;
  reads = λ rest. refl;
}

Carries-group :
    (a b c n : ℕ) {xs out left : Bytes}
    → AreBytes (a ∷ b ∷ c ∷ [])
    → Carries xs out left
    → Carries (a ∷ b ∷ c ∷ xs) ((encode_part (a ∷ b ∷ c ∷ []) n).0 ++ out) left
Carries-group a b c n {out = out} bs later = record {
  whole = a ∷ b ∷ c ∷ later.whole;
  splits = ap (λ (t : Bytes). a ∷ b ∷ c ∷ t) later.splits;
  short = later.short;
  aligned = omega (arith, later.aligned);
  left_bytes = later.left_bytes;
  reads = λ rest.
      ap (decode_stream []) (append_assoc (encode_part (a ∷ b ∷ c ∷ []) n).0 out rest)
      ∙ decode_encode_part (a ∷ b ∷ c ∷ []) n (out ++ rest) (omega arith) bs
      ∙ ap (prepend (a ∷ b ∷ c ∷ [])) (later.reads rest);
}

encode_whole-Carries :
    (xs : Bytes) (n : ℕ) → AreBytes xs → Carries xs (encode_whole xs n).0 (encode_whole xs n).1
unfolding encode_whole
encode_whole-Carries [] n bs = Carries-nothing [] bs (omega arith)
encode_whole-Carries (a ∷ []) n bs = Carries-nothing (a ∷ []) bs (omega arith)
encode_whole-Carries (a ∷ b ∷ []) n bs = Carries-nothing (a ∷ b ∷ []) bs (omega arith)
encode_whole-Carries (a ∷ b ∷ c ∷ xs) n bs =
    Carries-group a b c n (bs.0, (bs.1.0, (bs.1.1.0, tt)))
      (encode_whole-Carries xs (encode_part (a ∷ b ∷ c ∷ []) n).1 bs.1.1.1)

keep_left_short : (xs : Bytes) → length xs < 3 → keep_left [] xs ≡ xs
unfolding keep_left
keep_left_short [] h = refl
keep_left_short (a ∷ []) h = refl
keep_left_short (a ∷ b ∷ []) h = refl
keep_left_short (a ∷ b ∷ c ∷ xs) h = absurd (omega arith)

-- A call that finds nothing left over from the last one.
pub encode_stream_empty :
    (e : StreamEncoder) (input : Bytes)
    → e.left ≡ []
    → AreBytes input
    → e.total_encoded + length input ≤ max_file_size
    → (out : Bytes) × (e' : StreamEncoder) × (encode_stream e input ≡ ok (out, e'))
      × Carries input out e'.left
      × (e'.total_encoded ≡ e.total_encoded + length input)
encode_stream_empty e input h bs small = (
  whole.0,
  record { left = whole.1; line_length = whole.2; total_encoded = e.total_encoded + length input },
  unfold encode_stream in ground (arith, keep_left_short whole.1 carried.short),
  carried,
  refl,
)
  where
    whole : Bytes × Bytes × ℕ
    whole = encode_whole input e.line_length

    carried : Carries input whole.0 whole.1
    carried = encode_whole-Carries input e.line_length bs

-- After the last call, `Finalize` writes the rest.
line_end : (n : ℕ) → decode_stream [] (if ltb 0 n then crlf else []) ≡ ([], ok [])
unfolding decode_stream
line_end n = elim (Bool-cases (ltb 0 n)) [ inl e ↦ rw e | inr e ↦ rw e ]

last_part :
    (xs : Bytes) (n : ℕ)
    → (0 < length xs) × (length xs ≤ 3)
    → AreBytes xs
    → decode_stream [] ((encode_part xs n).0 ++ (if ltb 0 (encode_part xs n).1 then crlf else []))
      ≡ (xs, ok [])
last_part xs n p bs =
    decode_encode_part xs n _ p bs
    ∙ ap (prepend xs) (line_end (encode_part xs n).1)
    ∙ ap (λ (t : Bytes). let w : Written = (t, ok []) in w) (append-nil xs)

finalize-reads :
    (xs : Bytes) (n total : ℕ)
    → length xs < 3
    → AreBytes xs
    → decode_stream []
        (finalize_encoder (record { left = xs; line_length = n; total_encoded = total })).0
      ≡ (xs, ok [])
unfolding finalize_encoder
finalize-reads [] n total h bs = line_end n
finalize-reads (a ∷ xs) n total h bs =
    let some_left : ltb 0 (suc (length xs)) ≡ true = ground arith in
    rw some_left (last_part (a ∷ xs) n (omega arith) bs)

pub Carries-append :
    {xs ys out more left : Bytes}
    → Carries xs out []
    → Carries ys more left
    → Carries (xs ++ ys) (out ++ more) left
Carries-append {xs} {ys} {out} {more} {left} f g = record {
  whole = xs ++ g.whole;
  splits = ap (◌++◌ xs) g.splits ∙ sym (append_assoc xs g.whole left);
  short = g.short;
  aligned = omega (arith, length-append xs g.whole, f.aligned, g.aligned, ap length all);
  left_bytes = g.left_bytes;
  reads = λ rest.
      ap (decode_stream []) (append_assoc out more rest)
      ∙ f.reads (more ++ rest)
      ∙ rw (← all, g.reads rest)
          (ap (λ (t : Bytes). let w : Written = (t, (decode_stream [] rest).1) in w)
            (sym (append_assoc xs g.whole (decode_stream [] rest).0)));
}
  where
    all : xs ≡ f.whole
    all = f.splits ∙ append-nil f.whole

-- What was carried, and what `Finalize` adds, is all of the input.
pub Carries-finalize :
    {input out : Bytes} (e : StreamEncoder)
    → Carries input out e.left
    → decode_stream [] (out ++ (finalize_encoder e).0) ≡ (input, ok [])
Carries-finalize e c =
    c.reads (finalize_encoder e).0
    ∙ ap (prepend c.whole)
        (finalize-reads e.left e.line_length e.total_encoded c.short c.left_bytes)
    ∙ ap (λ (t : Bytes). let w : Written = (t, ok []) in w) (sym c.splits)
