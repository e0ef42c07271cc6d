-- ===== src/Effects.antt =====
-- Code that reads and changes the world outside the session, and that may throw.
pub mod Ensures
use ua_5308_smtp.Prelude.{Bytes, Option, none, some}
use ua_5308_smtp.Base64.Alphabet.{Error, Result}
use ua_5308_smtp.Base64.Alphabet

pub data Exception : Type 0 where
  base64 : Error → Exception
  bad_optional_access out_of_range bad_alloc : Exception
  invalid_argument runtime_error : Bytes → Exception

pub data Outcome (A : Type 0) : Type 0 where
  returned : A → Outcome A
  thrown : Exception → Outcome A

abbrev pub M : Type 0 → Type 0 → Type 0
M W A = W → Outcome A × W

abbrev pub next : {W A B : Type 0} → Outcome A × W → (A → M W B) → Outcome B × W
next (returned a, w) f = f a w
next (thrown e, w) f = (thrown e, w)

infixl 5 ◌>>=◌ ◌>>◌
abbrev pub ◌>>=◌ : {W A B : Type 0} → M W A → (A → M W B) → M W B
◌>>=◌ m f w = next (m w) f

abbrev pub ◌>>◌ : {W A B : Type 0} → M W A → M W B → M W B
m >> k = m >>= λ _. k

abbrev pub return : {W A : Type 0} → A → M W A
return a w = (returned a, w)

-- An operation of the world that does not throw.
abbrev pub call : {W A : Type 0} → (W → A × W) → M W A
call f w = (returned (f w).0, (f w).1)

-- `DecodeBase64` and `EncodeBase64` throw their error.
abbrev pub lift : {W A : Type 0} → Result A → M W A
lift (Alphabet.ok a) w = (returned a, w)
lift (Alphabet.err e) w = (thrown (base64 e), w)

-- `optional::value()`
abbrev pub value : {W A : Type 0} → Option A → M W A
value none w = (thrown bad_optional_access, w)
value (some a) w = (returned a, w)

-- `try` and `catch (const std::exception&)`: every exception of the model is one.
abbrev pub caught : {W A : Type 0} → Outcome A × W → M W A → Outcome A × W
caught (returned a, w) handler = (returned a, w)
caught (thrown e, w) handler = handler w

abbrev pub catching : {W A : Type 0} → M W A → M W A → M W A
catching m handler w = caught (m w) handler

abbrev pub outcome : {W A : Type 0} → Outcome A → M W A
outcome r w = (r, w)

-- A handler that sees the exception.
abbrev pub caught_by : {W A : Type 0} → Outcome A × W → (Exception → M W A) → Outcome A × W
caught_by (returned a, w) handler = (returned a, w)
caught_by (thrown e, w) handler = handler e w

abbrev pub catching_by : {W A : Type 0} → M W A → (Exception → M W A) → M W A
catching_by m handler w = caught_by (m w) handler

abbrev pub throw : {W A : Type 0} → Exception → M W A
throw e w = (thrown e, w)
