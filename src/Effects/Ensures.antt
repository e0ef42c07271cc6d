-- ===== src/Effects/Ensures.antt =====
-- Postconditions of code that may throw: `Q` of a returned value and the world then, `E` of the
-- world after a throw. One rule for each construct of the handlers.
use ua_5308_smtp.Prelude.{Bool, true, false, ◌≡◌, refl, if◌then◌else◌, Option, none, some}
use ua_5308_smtp.Base64.Alphabet.{Result}
use ua_5308_smtp.Base64.Alphabet
use ua_5308_smtp.Effects.{M, Outcome, returned, thrown, ◌>>=◌, next, lift}

abbrev pub Ensures : {W A : Type 0} → (A → W → Type 0) → (W → Type 0) → Outcome A × W → Type 0
Ensures Q E (returned a, w) = Q a w
Ensures Q E (thrown e, w) = E w

module _ {W A : Type 0} (Q : A → W → Type 0) (E : W → Type 0) where
  pub Ensures-if :
      (b : Bool) (m k : M W A) (w : W)
      → (b ≡ true → Ensures Q E (m w))
      → (b ≡ false → Ensures Q E (k w))
      → Ensures Q E ((if b then m else k) w)
  Ensures-if true m k w yes_case no_case = yes_case refl
  Ensures-if false m k w yes_case no_case = no_case refl

  next-Ensures :
      {B : Type 0} (R : B → W → Type 0) (r : Outcome B × W) (f : B → M W A)
      → Ensures R E r
      → ((b : B) (w : W) → R b w → Ensures Q E (f b w))
      → Ensures Q E (next r f)
  next-Ensures R (returned b, w) f h k = k b w h
  next-Ensures R (thrown e, w) f h k = h

  pub Ensures-bind :
      {B : Type 0} (R : B → W → Type 0) (m : M W B) (f : B → M W A) (w : W)
      → Ensures R E (m w)
      → ((b : B) (w' : W) → R b w' → Ensures Q E (f b w'))
      → Ensures Q E ((m >>= f) w)
  Ensures-bind R m f w = next-Ensures R (m w) f

  -- A step that throws or hands over a value, and leaves the world alone.
  pub Ensures-lift :
      {B : Type 0} (r : Result B) (f : B → M W A) (w : W)
      → E w
      → ((b : B) → r ≡ Alphabet.ok b → Ensures Q E (f b w))
      → Ensures Q E ((lift r >>= f) w)
  Ensures-lift (Alphabet.ok b) f w h k = k b refl
  Ensures-lift (Alphabet.err e) f w h k = h

  pub Ensures-option :
      {B : Type 0} (o : Option B) (m : M W A) (f : B → M W A) (w : W)
      → (o ≡ none → Ensures Q E (m w))
      → ((b : B) → o ≡ some b → Ensures Q E (f b w))
      → Ensures Q E ((let k : M W A = elim o [ none ↦ m | some b ↦ f b ] in k) w)
  Ensures-option none m f w n s = n refl
  Ensures-option (some b) m f w n s = s b refl

-- A weaker postcondition.
pub Ensures-weaken :
    {W A : Type 0} (Q Q' : A → W → Type 0) (E E' : W → Type 0) (r : Outcome A × W)
    → ((a : A) (w : W) → Q a w → Q' a w)
    → ((w : W) → E w → E' w)
    → Ensures Q E r
    → Ensures Q' E' r
Ensures-weaken Q Q' E E' (returned a, w) q e h = q a w h
Ensures-weaken Q Q' E E' (thrown x, w) q e h = e w h

pub Ensures-any :
    {W A : Type 0} (Q : A → W → Type 0) (r : Outcome A × W)
    → ((a : A) (w : W) → Q a w)
    → Ensures Q (λ _. Unit) r
Ensures-any Q (returned a, w) q = q a w
Ensures-any Q (thrown x, w) q = tt
