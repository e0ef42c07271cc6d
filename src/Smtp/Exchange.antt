-- ===== src/Smtp/Exchange.antt =====
-- server/SmtpSession.cpp: the exchange of AUTH LOGIN, the user name on one line and the password on
-- the next.
use ua_5308_smtp.Prelude.{
  ◌≤◌, ◌≡◌, refl, ◌∙◌, ap, true, false, not, ◌&&◌, [], ◌∷◌, Bytes, arith, length, is_empty,
}
use ua_5308_smtp.Base64.Alphabet.{ok}
use ua_5308_smtp.Base64.Encoder.{encode_base64}
use ua_5308_smtp.Base64.RoundTrip.{AreBytes}
use ua_5308_smtp.Effects.{returned, next, ◌>>=◌}
use ua_5308_smtp.Smtp.Services.{Services}
use ua_5308_smtp.Smtp.State.{
  State, auth_wait_user, auth_wait_pass, wait_mail, Session, extract_username,
}
use ua_5308_smtp.Smtp.Session.{
  Step, check_credentials, auth_user, auth_pass, auth_step, handle_auth_line, process_in,
  process_line,
}
use ua_5308_smtp.Smtp.Invariant.{in_auth}
use ua_5308_smtp.Smtp.Login.{decoded, short}

-- What a client answers to a challenge: a text of at most 57 bytes, in base64.
pub record IsAnswer (text line : Bytes) : Type 0 where
  pub bytes : AreBytes text
  pub fits : length text ≤ 57
  pub encoded : encode_base64 text ≡ ok line

not_refused :
    (text line : Bytes)
    → encode_base64 text ≡ ok line
    → (is_empty text && not (is_empty line)) ≡ false
unfolding encode_base64
not_refused [] line e = ground arith
not_refused (c ∷ text) line e = refl

module _ (v : Services) where
  open v use {World}

  handle_auth_line-IsAnswer :
      (s : Session) (text line : Bytes) (w : World)
      → IsAnswer text line
      → handle_auth_line v s line w ≡ auth_step v s.state s text w
  unfolding handle_auth_line
  handle_auth_line-IsAnswer s text line w a =
      rw (decoded text a.bytes a.fits a.encoded, not_refused text line a.encoded) refl

  process_in_auth :
      (st : State) (s : Session) (line : Bytes) (w : World)
      → in_auth st ≡ true
      → process_in v st s line w ≡ handle_auth_line v s line w
  unfolding process_in
  process_in_auth auth_wait_user s line w h = refl
  process_in_auth auth_wait_pass s line w h = refl
  process_in_auth _ s line w h = cc

  process_line-IsAnswer :
      (s : Session) (text line : Bytes) (w : World)
      → in_auth s.state ≡ true
      → IsAnswer text line
      → process_line v s line w ≡ auth_step v s.state s text w
  unfolding process_line
  process_line-IsAnswer s text line w at a =
      rw (short text a.fits a.encoded)
        (process_in_auth s.state s line w at ∙ handle_auth_line-IsAnswer s text line w a)

  abbrev named : Session → Bytes → Session
  named s user = record s { auth_username = extract_username user; state = auth_wait_pass }

  auth_user_asks :
      (s : Session) (user : Bytes) (w : World)
      → (reply : Bytes) × (auth_user v s user w ≡ (returned (named s user, reply), w))
  unfolding auth_user encode_base64
  auth_user_asks s user w = (_, refl)

  auth_step_user :
      (st : State) (s : Session) (user : Bytes) (w : World)
      → st ≡ auth_wait_user
      → (reply : Bytes) × (auth_step v st s user w ≡ (returned (named s user, reply), w))
  unfolding auth_step
  auth_step_user st s user w at = rw at (auth_user_asks s user w)

  auth_pass-named :
      (s : Session) (user password : Bytes) (w : World)
      → is_empty (extract_username user) ≡ false
      → auth_pass v (named s user) password w
        ≡ check_credentials v
            (record s { state = wait_mail; auth_username = [] })
            (extract_username user)
            password
            w
  unfolding auth_pass
  auth_pass-named s user password w h = rw h refl

  -- The two answers of AUTH LOGIN: what the client sends as user, without a domain, and as password is
  -- what is checked, once, in a session where no exchange is under way. The user name is not empty.
  pub process_line-login :
      (s : Session) (user password : Bytes) {first second : Bytes} (w : World)
      → s.state ≡ auth_wait_user
      → is_empty (extract_username user) ≡ false
      → IsAnswer user first
      → IsAnswer password second
      → (process_line v s first >>= λ p. process_line v p.0 second) w
        ≡ check_credentials v
            (record s { state = wait_mail; auth_username = [] })
            (extract_username user)
            password
            w
  process_line-login s user password {first} {second} w at h a b =
      let (reply, e) = auth_step_user s.state s user w at in
      ap (λ r. next r (λ (p : Step). process_line v p.0 second))
        (process_line-IsAnswer s user first w (rw at refl) a ∙ e)
      ∙ process_line-IsAnswer (named s user) password second w refl b
      ∙ unfold auth_step in auth_pass-named s user password w h
