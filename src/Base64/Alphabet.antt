-- ===== src/Base64/Alphabet.antt =====
-- base64/include/Base64Common.hpp and AttachmentConfig.hpp: the alphabet, the decode table, the
-- limits, and the errors that the codecs throw.
use ua_5308_smtp.Prelude.{
  ℕ, suc, ◌*◌, ◌<◌, ◌≡◌, refl, Bool, true, false, ◌&&◌, ◌||◌, List, [], ◌∷◌, ◌==◌, leb, not,
  is_blank, Bytes, codes, get_or, set, replicate, arith,
}
use ua_5308_smtp.Prelude.Int.{ℤ, pos, negsuc}
use ua_5308_smtp.Prelude.Bits.{holds_below, holds_below_lem}

-- The exceptions that the codecs throw.
pub data Error : Type 0 where
  file_too_large not_base64 invalid_character invalid_stream cannot_open : Error
  invalid_symbol : ℕ → Error

pub data Result {ℓ} (A : Type ℓ) : Type ℓ where
  err : Error → Result A
  ok : A → Result A

infixl 5 ◌>>=◌
abbrev pub ◌>>=◌ {ℓ κ} : {A : Type ℓ} {B : Type κ} → Result A → (A → Result B) → Result B
err problem >>= next = err problem
ok value >>= next = next value

abbrev pub max_file_size : ℕ
max_file_size = 15 * 1024 * 1024

abbrev pub alphabet : Bytes
alphabet = codes "ABCDEFGHIJKLMNOPQRSTUVWXYZabcdefghijklmnopqrstuvwxyz0123456789+/"

-- `alphabet[i]`, at an index below 64.
unfoldable pub letter : ℕ → ℕ
letter i = get_or alphabet i 0

-- The loop that enters the index of each letter.
enter : Bytes → ℕ → List ℤ → List ℤ
enter [] i t = t
enter (c ∷ cs) i t = enter cs (suc i) (set t c (pos i))

pub decode_table : List ℤ
unfolding enter
decode_table = set (enter alphabet 0 (replicate 256 (negsuc 0))) b'=' (negsuc 1)

-- `decode_table[(unsigned char) c]`
unfoldable pub table_value : ℕ → ℤ
unfolding decode_table
table_value c = get_or decode_table c (negsuc 0)

-- The test of the sanitising loop of `DecodeBase64`.
unfoldable pub is_valid_base64 : ℕ → Bool
is_valid_base64 c =
    (leb b'A' c && leb c b'Z')
    || (leb b'a' c && leb c b'z')
    || (leb b'0' c && leb c b'9')
    || (c == b'+' || c == b'/' || c == b'=')

abbrev int_eq : ℤ → ℤ → Bool
int_eq (pos m) (pos n) = m == n
int_eq (negsuc m) (negsuc n) = m == n
int_eq _ _ = false

int_eq-eq : (x y : ℤ) → int_eq x y ≡ true → x ≡ y
int_eq-eq (pos m) (pos n) h = ground arith
int_eq-eq (negsuc m) (negsuc n) h = ground arith
int_eq-eq _ _ h = ground arith

abbrev is_letter_of : ℕ → Bool
is_letter_of i =
    int_eq (table_value (letter i)) (pos i)
    && is_valid_base64 (letter i)
    && not (letter i == b'=')
    && not (is_blank (letter i))

letter_table : holds_below is_letter_of 64 ≡ true
unfolding holds_below table_value letter is_valid_base64
letter_table = refl

-- What the codecs know of a letter of the alphabet.
pub record IsLetterOf (i : ℕ) : Type 0 where
  pub value : table_value (letter i) ≡ pos i
  pub valid : is_valid_base64 (letter i) ≡ true
  pub not_pad : (letter i == b'=') ≡ false
  pub not_blank : is_blank (letter i) ≡ false

pub letter-IsLetterOf : (i : ℕ) → i < 64 → IsLetterOf i
letter-IsLetterOf i h = record {
  value = int_eq-eq _ _ (ground (arith, all));
  valid = ground (arith, all);
  not_pad = ground (arith, all);
  not_blank = ground (arith, all);
}
  where
    all : is_letter_of i ≡ true
    all = holds_below_lem is_letter_of 64 i h letter_table
