-- ===== src/Smtp/Rounds.antt =====
-- server/SmtpSession.cpp: what the loop of `SaveMessage` does with its list of recipients.
use ua_5308_smtp.Prelude.{◌≡◌, refl, Bool, ◌||◌, Option, List, [], ◌∷◌, Bytes}
use ua_5308_smtp.Effects.{Outcome, returned, thrown}
use ua_5308_smtp.Effects.Ensures.{Ensures, Ensures-bind, Ensures-weaken}
use ua_5308_smtp.Smtp.Services.{Services, Email}
use ua_5308_smtp.Smtp.State.{Session}
use ua_5308_smtp.Smtp.Save.{save_recipient, save_loop}

abbrev pub any_of : Bool → List Bool → Bool
any_of b [] = b
any_of b (r ∷ rs) = any_of (r || b) rs

module _ (v : Services) (s : Session) (parsed : Option Email) where
  open v use {World}

  -- A round for each recipient, in order, with its answer.
  pub data Rounds : List Bytes → World → List Bool → World → Type 0 where
    none_left : {w : World} → Rounds [] w [] w
    round :
        {addr : Bytes} {addrs : List Bytes} {w w' w'' : World} {b : Bool} {bs : List Bool}
        → save_recipient v s parsed addr w ≡ (returned b, w')
        → Rounds addrs w' bs w''
        → Rounds (addr ∷ addrs) w (b ∷ bs) w''

  abbrev pub Tried : Bool → List Bytes → World → Bool → World → Type 0
  Tried any_saved addrs w r w' = (bs : List Bool) × Rounds addrs w bs w' × (r ≡ any_of any_saved bs)

  returns_itself : (r : Outcome Bool × World) → Ensures (λ b w'. r ≡ (returned b, w')) (λ _. Unit) r
  returns_itself (returned b, w) = refl
  returns_itself (thrown e, w) = tt

  -- The loop of `SaveMessage`: where it returns, it made a round for every recipient, one after the
  -- other and whatever the earlier rounds answered, and it returns whether any of them saved.
  pub save_loop-Rounds :
      (any_saved : Bool) (addrs : List Bytes) (w : World)
      → Ensures (Tried any_saved addrs w) (λ _. Unit) (save_loop v s parsed any_saved addrs w)
  unfolding save_loop
  save_loop-Rounds any_saved [] w = ([], none_left, refl)
  save_loop-Rounds any_saved (addr ∷ addrs) w =
      Ensures-bind (Tried any_saved (addr ∷ addrs) w) (λ _. Unit)
        (λ b w'. save_recipient v s parsed addr w ≡ (returned b, w'))
        (save_recipient v s parsed addr) _ w (returns_itself (save_recipient v s parsed addr w))
        (λ b w' e.
          Ensures-weaken (Tried (b || any_saved) addrs w') (Tried any_saved (addr ∷ addrs) w)
            (λ _. Unit) (λ _. Unit) (save_loop v s parsed (b || any_saved) addrs w')
            (λ r w'' (bs, rounds, any). (b ∷ bs, round e rounds, any)) (λ _ u. u)
            (save_loop-Rounds (b || any_saved) addrs w'))
