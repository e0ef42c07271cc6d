-- ===== src/Mime/QuotedPrintable.antt =====
-- The quoted-printable encoding of RFC 2045 as a list of pieces, which `DecodeQuotedPrintable` of
-- mime/src/MimeDecoder.cpp reads back.
use ua_5308_smtp.Prelude.{
  ℕ, ◌+◌, ◌/◌, ◌%◌, ◌<◌, ◌≡◌, ◌≢◌, refl, ap, ◌∙◌, ◌*◌, true, false, List, [], ◌∷◌, ◌++◌, ltb,
  if◌then◌else◌, Bytes, All, arith,
}
use ua_5308_smtp.Mime.Decoder.{is_hex, hex_value, is_line_end, decode_quoted_printable}

-- A byte that stands for itself, a byte as two digits, or a line break that is no part of the text.
pub data Piece : Type 0 where
  literal escaped : ℕ → Piece
  soft_break : Piece

abbrev pub hex_digit : ℕ → ℕ
hex_digit n = if ltb n 10 then 48 + n else 55 + n

abbrev pub write_piece : Piece → Bytes
write_piece (literal c) = c ∷ []
write_piece (escaped byte) = b'=' ∷ hex_digit (byte / 16) ∷ hex_digit (byte % 16) ∷ []
write_piece soft_break = b'=' ∷ b'\r' ∷ b'\n' ∷ []

abbrev pub write_pieces : List Piece → Bytes
write_pieces [] = []
write_pieces (p ∷ pieces) = write_piece p ++ write_pieces pieces

abbrev pub decoded : List Piece → Bytes
decoded [] = []
decoded (literal c ∷ pieces) = c ∷ decoded pieces
decoded (escaped byte ∷ pieces) = byte ∷ decoded pieces
decoded (soft_break ∷ pieces) = decoded pieces

abbrev pub IsPiece : Piece → Type 0
IsPiece (literal c) = c ≢ b'='
IsPiece (escaped byte) = byte < 256
IsPiece soft_break = Unit {0}

hex_digit-is_hex : (n : ℕ) → n < 16 → is_hex (hex_digit n) ≡ true
hex_digit-is_hex n h = ground arith

hex_value-hex_digit : (n : ℕ) → n < 16 → hex_value (hex_digit n) ≡ n
hex_value-hex_digit n h = ground arith

decode-literal :
    (c : ℕ) (s : Bytes) → c ≢ b'=' → decode_quoted_printable (c ∷ s) ≡ c ∷ decode_quoted_printable s
unfolding decode_quoted_printable
decode-literal c [] h = refl
decode-literal c (d ∷ []) h = ground arith
decode-literal c (d ∷ e ∷ s) h = ground arith

decode-soft_break :
    (s : Bytes) → decode_quoted_printable (b'=' ∷ b'\r' ∷ b'\n' ∷ s) ≡ decode_quoted_printable s
unfolding decode_quoted_printable
decode-soft_break s = refl

not_line_end : (h : ℕ) → is_hex h ≡ true → is_line_end h ≡ false
not_line_end h hh = ground arith

decode-digits :
    (h l : ℕ) (s : Bytes)
    → is_hex h ≡ true
    → is_hex l ≡ true
    → decode_quoted_printable (b'=' ∷ h ∷ l ∷ s)
      ≡ (hex_value h * 16 + hex_value l) ∷ decode_quoted_printable s
unfolding decode_quoted_printable
decode-digits h l s hh hl = rw (not_line_end h hh, hh, hl) refl

joined_digits :
    (byte : ℕ)
    → byte < 256
    → hex_value (hex_digit (byte / 16)) * 16 + hex_value (hex_digit (byte % 16)) ≡ byte
joined_digits byte h =
    rw
      (hex_value-hex_digit (byte / 16) (omega arith), hex_value-hex_digit (byte % 16) (omega arith))
      (omega arith)

-- Every sequence of bytes without "=", bytes as two digits and soft line breaks is decoded to its
-- bytes, in order.
pub decode_quoted_printable-write_pieces :
    (pieces : List Piece)
    → All IsPiece pieces
    → decode_quoted_printable (write_pieces pieces) ≡ decoded pieces
unfolding decode_quoted_printable
decode_quoted_printable-write_pieces [] h = refl
decode_quoted_printable-write_pieces (literal c ∷ pieces) h =
    decode-literal c (write_pieces pieces) h.0
    ∙ ap (◌∷◌ c) (decode_quoted_printable-write_pieces pieces h.1)
decode_quoted_printable-write_pieces (escaped byte ∷ pieces) h =
    decode-digits (hex_digit (byte / 16)) (hex_digit (byte % 16)) (write_pieces pieces)
      (hex_digit-is_hex (byte / 16) (omega arith)) (hex_digit-is_hex (byte % 16) (omega arith))
    ∙ ap (λ (b : ℕ). b ∷ decode_quoted_printable (write_pieces pieces)) (joined_digits byte h.0)
    ∙ ap (◌∷◌ byte) (decode_quoted_printable-write_pieces pieces h.1)
decode_quoted_printable-write_pieces (soft_break ∷ pieces) h =
    decode-soft_break (write_pieces pieces) ∙ decode_quoted_printable-write_pieces pieces h.1
