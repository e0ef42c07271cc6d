-- ===== src/Base64/Attachment.antt =====
-- base64/src/AttachmentHandler.cpp: `EncodeFile`. A file is `none` where it cannot be opened, and
-- otherwise its contents. The read loop takes fuel: one round for each chunk, and one to see the end.
use ua_5308_smtp.Prelude.{
  ℕ, zero, suc, ◌+◌, ◌*◌, ◌%◌, ◌≤◌, ◌<◌, ◌≡◌, refl, ap, subst, [], ◌∷◌, ◌++◌, Option, none, some,
  Bytes, arith, length, take, drop, length-take, length-drop, length-append, take-append-drop,
  append-nil, dec_le,
}
use ua_5308_smtp.Base64.Alphabet.{Result, ok, err, cannot_open, max_file_size}
use ua_5308_smtp.Base64.RoundTrip.{AreBytes}
use ua_5308_smtp.Base64.StreamEncoder.{StreamEncoder, fresh, encode_stream, finalize_encoder}
use ua_5308_smtp.Base64.StreamDecoder.{decode_stream}
use ua_5308_smtp.Base64.StreamTrip.{
  Carries, Carries-nothing, Carries-append, Carries-finalize, encode_stream_empty,
}

abbrev pub chunk_size : ℕ
chunk_size = 3 * 1024

abbrev Encoded : Type 0
Encoded = Result (Bytes × StreamEncoder)

-- What a later round writes stands behind what this one wrote.
abbrev behind : Bytes → Option Encoded → Option Encoded
behind out none = none
behind out (some (err x)) = some (err x)
behind out (some (ok (more, e))) = some (ok (out ++ more, e))

-- The `while` loop over `file.read`. `none` means that the fuel ran out.
unfoldable pub read_loop : ℕ → Bytes → StreamEncoder → Option Encoded
read_loop zero rest e = none
read_loop (suc fuel) [] e = some (ok ([], e))
read_loop (suc fuel) (c ∷ cs) e = elim (encode_stream e (take chunk_size (c ∷ cs))) [
  | err x ↦ some (err x)
  | ok (out, e') ↦ behind out (read_loop fuel (drop chunk_size (c ∷ cs)) e')
]

abbrev finish : Option Encoded → Option (Result Bytes)
finish none = none
finish (some (err x)) = some (err x)
finish (some (ok (out, e))) = some (ok (out ++ (finalize_encoder e).0))

-- `EncodeFile`
unfoldable pub encode_file : Option Bytes → Option (Result Bytes)
unfolding read_loop
encode_file none = some (err cannot_open)
encode_file (some contents) = finish (read_loop (suc (length contents)) contents fresh)

-- The loop ends within its fuel, and what it wrote carries the contents.
record Done (contents : Bytes) (r : Option Encoded) : Type 0 where
  out : Bytes
  last : StreamEncoder
  returns : r ≡ some (ok (out, last))
  carried : Carries contents out last.left

All-take : (n : ℕ) (xs : Bytes) → AreBytes xs → AreBytes (take n xs)
All-take zero xs h = tt
All-take (suc n) [] h = tt
All-take (suc n) (x ∷ xs) h = (h.0, All-take n xs h.1)

All-drop : (n : ℕ) (xs : Bytes) → AreBytes xs → AreBytes (drop n xs)
All-drop zero xs h = h
All-drop (suc n) [] h = tt
All-drop (suc n) (x ∷ xs) h = All-drop n xs h.1

take_all : (n : ℕ) (xs : Bytes) → length xs ≤ n → (take n xs ≡ xs) × (drop n xs ≡ [])
take_all zero [] h = (refl, refl)
take_all zero (x ∷ xs) h = absurd (omega arith)
take_all (suc n) [] h = (refl, refl)
take_all (suc n) (x ∷ xs) h = let (t, d) = take_all n xs (omega arith) in (ap (◌∷◌ x) t, d)

eq-nil : (xs : Bytes) → length xs ≡ 0 → xs ≡ []
eq-nil [] h = refl
eq-nil (x ∷ xs) h = absurd (omega arith)

read_loop_end : (fuel : ℕ) (e : StreamEncoder) → 0 < fuel → read_loop fuel [] e ≡ some (ok ([], e))
unfolding read_loop
read_loop_end zero e h = absurd (omega arith)
read_loop_end (suc fuel) e h = refl

-- A chunk that is not the last leaves nothing in `m_left`.
chunk_left : {chunk out left : Bytes} → Carries chunk out left → length chunk % 3 ≡ 0 → left ≡ []
chunk_left {left = left} c h =
    eq-nil left (omega (arith, c.short, c.aligned, ap length c.splits, length-append c.whole left))

-- One round: what it wrote, and what the later rounds write.
read_loop_round :
    (fuel c : ℕ) (cs : Bytes) (e : StreamEncoder) {out more : Bytes} {e' last : StreamEncoder}
    → encode_stream e (take chunk_size (c ∷ cs)) ≡ ok (out, e')
    → read_loop fuel (drop chunk_size (c ∷ cs)) e' ≡ some (ok (more, last))
    → read_loop (suc fuel) (c ∷ cs) e ≡ some (ok (out ++ more, last))
unfolding read_loop
read_loop_round fuel c cs e h k = rw (h, read_loop) (rw k)

Carries-chunks :
    (n : ℕ) (xs : Bytes) {out more left left' : Bytes}
    → left ≡ []
    → Carries (take n xs) out left
    → Carries (drop n xs) more left'
    → Carries xs (out ++ more) left'
Carries-chunks n xs {out} {more} {left} {left'} l f g =
    subst (λ t. Carries t (out ++ more) left') (take-append-drop n xs)
      (Carries-append (subst (λ t. Carries (take n xs) out t) l f) g)

read_loop-Done :
    (fuel : ℕ) (xs : Bytes) (e : StreamEncoder)
    → length xs < fuel
    → e.left ≡ []
    → AreBytes xs
    → e.total_encoded + length xs ≤ max_file_size
    → Done xs (read_loop fuel xs e)
read_loop-Done zero xs e f l bs small = absurd (omega arith)
read_loop-Done (suc fuel) [] e f l bs small = record {
  out = [];
  last = e;
  returns = read_loop_end (suc fuel) e f;
  carried = rw l (Carries-nothing [] tt (omega arith));
}
read_loop-Done (suc fuel) (c ∷ cs) e f l bs small =
    let (out, e', wrote, carried, total) =
      encode_stream_empty e (take chunk_size (c ∷ cs)) l (All-take chunk_size (c ∷ cs) bs)
        (omega (arith, length-take chunk_size (c ∷ cs))) in
    elim (dec_le (length (c ∷ cs)) chunk_size) [
      | yes last_chunk ↦
          let (whole, nothing) = take_all chunk_size (c ∷ cs) last_chunk in
          record {
            out = out ++ [];
            last = e';
            returns =
                read_loop_round fuel c cs e wrote
                  (rw nothing (read_loop_end fuel e' (omega arith)));
            carried = rw append-nil (subst (λ t. Carries t out e'.left) whole carried);
          }
      | no more ↦
          let aligned : e'.left ≡ [] =
            chunk_left carried (omega (arith, length-take chunk_size (c ∷ cs))) in
          let later =
            read_loop-Done fuel (drop chunk_size (c ∷ cs)) e'
              (omega (arith, length-drop chunk_size (c ∷ cs))) aligned
              (All-drop chunk_size (c ∷ cs) bs)
              (omega (arith, length-drop chunk_size (c ∷ cs), length-take chunk_size (c ∷ cs))) in
          record {
            out = out ++ later.out;
            last = later.last;
            returns = read_loop_round fuel c cs e wrote later.returns;
            carried = Carries-chunks chunk_size (c ∷ cs) aligned carried later.carried;
          }
    ]

-- Every file within the limit is encoded, and the stream decoder reads its contents back.
pub encode_file-round_trip :
    (contents : Bytes)
    → AreBytes contents
    → length contents ≤ max_file_size
    → (s : Bytes) × (encode_file (some contents) ≡ some (ok s))
      × (decode_stream [] s ≡ (contents, ok []))
unfolding encode_file
encode_file-round_trip contents bs small = (
  done.out ++ (finalize_encoder done.last).0,
  rw done.returns,
  Carries-finalize done.last done.carried,
)
  where
    done : Done contents (read_loop (suc (length contents)) contents fresh)
    done = read_loop-Done (suc (length contents)) contents fresh (omega arith) refl bs (omega arith)
