-- ===== src/Smtp/Channel.antt =====
-- server/SmtpSession.cpp and server/server_main.cpp: `m_secure`, which says that the connection is
-- encrypted.
use ua_5308_smtp.Prelude.{
  ◌≡◌, refl, Bool, not, ◌&&◌, Bytes, codes, arith, is_empty, equal, ltb, length,
}
use ua_5308_smtp.Base64.Encoder.{encode_base64}
use ua_5308_smtp.Base64.Decoder.{decode_base64}
use ua_5308_smtp.Effects.{Outcome}
use ua_5308_smtp.Effects.Ensures.{
  Ensures, Ensures-if, Ensures-lift, Ensures-bind, Ensures-option, Ensures-any,
}
use ua_5308_smtp.Smtp.Command.{
  Command, CommandType, helo, ehlo, mail, rcpt, data_cmd, rset, noop, quit, unknown, auth,
}
use ua_5308_smtp.Smtp.Command
use ua_5308_smtp.Smtp.Parser.{parse}
use ua_5308_smtp.Smtp.Services.{Services}
use ua_5308_smtp.Smtp.Save.{save_message}
use ua_5308_smtp.Smtp.State.{State, auth_wait_user, auth_wait_pass, receiving_data, Session}
use ua_5308_smtp.Smtp.Session.{
  Step, handle_helo, handle_mail, handle_rcpt, handle_data, handle_rset, handle_quit, handle_noop,
  handle_starttls, receive_line, split_credentials, split_argument, is_wait_mail, check_credentials,
  plain_auth, auth_login, auth_plain, auth_mechanism, handle_auth, auth_user, auth_pass, auth_step,
  handle_auth_line, receive_data, dispatch, process_in, process_line, max_smtp_line,
}

module _ (v : Services) where
  open v use {World, authorize}

  -- Where the code returns, `m_secure` is as it was in the session.
  abbrev Same : Bool → Outcome Step × World → Type 0
  Same b = Ensures (λ r _. r.0.secure ≡ b) (λ _. Unit)

  check_credentials-Same :
      (s : Session) (username password : Bytes) (w : World)
      → Same s.secure (check_credentials v s username password w)
  unfolding check_credentials
  check_credentials-Same s username password w = ground arith

  plain_auth-Same :
      (s : Session) (decoded : Bytes) (w : World) → Same s.secure (plain_auth v s decoded w)
  unfolding plain_auth
  plain_auth-Same s decoded w =
      Ensures-option (λ r _. r.0.secure ≡ s.secure) (λ _. Unit) (split_credentials decoded) _ _ w
        (λ e. refl) (λ c e. check_credentials-Same s c.0 c.1 w)

  auth_mechanism-Same :
      (s : Session) (m : Bytes × Bytes) (w : World) → Same s.secure (auth_mechanism v s m w)
  unfolding auth_mechanism auth_login auth_plain
  auth_mechanism-Same s (mechanism, initial_response) w =
      Ensures-if Q E (equal mechanism (codes "LOGIN")) _ _ w
        (λ login. Ensures-lift Q E (encode_base64 (codes "Username:")) _ w tt (λ label e. refl))
        (λ other.
          Ensures-if Q E (equal mechanism (codes "PLAIN")) _ _ w
            (λ plain.
              Ensures-if Q E (is_empty initial_response) _ _ w (λ nothing. refl)
                (λ response. Ensures-lift Q E (decode_base64 initial_response) _ w tt (λ decoded e.
                  Ensures-if Q E (is_empty decoded) _ _ w (λ nothing. refl)
                    (λ bytes. plain_auth-Same s decoded w))))
            (λ none_of_them. refl))
    where
      Q : Step → World → Type 0
      Q r w = r.0.secure ≡ s.secure

      E : World → Type 0
      E w = Unit

  module _ (s : Session) where
    Q : Step → World → Type 0
    Q r w = r.0.secure ≡ s.secure

    E : World → Type 0
    E w = Unit

    handle_auth-Same : (c : Command) (w : World) → Same s.secure (handle_auth v s c w)
    unfolding handle_auth Q E
    handle_auth-Same c w =
        Ensures-if Q E (not (is_wait_mail s.state)) _ _ w (λ early. refl)
          (λ waits.
            Ensures-if Q E s.authenticated _ _ w (λ again. refl)
              (λ first.
                Ensures-if Q E (not s.secure) _ _ w (λ plain. refl)
                  (λ tls. auth_mechanism-Same s (split_argument c.argument) w)))

    auth_pass-Same : (decoded : Bytes) (w : World) → Same s.secure (auth_pass v s decoded w)
    unfolding auth_pass Q E
    auth_pass-Same decoded w =
        Ensures-if Q E (is_empty s.auth_username) _ _ w (λ plain. plain_auth-Same _ decoded w)
          (λ login. check_credentials-Same _ s.auth_username decoded w)

    auth_step-Same :
        (st : State) (decoded : Bytes) (w : World) → Same s.secure (auth_step v st s decoded w)
    unfolding auth_step auth_user Q E
    auth_step-Same auth_wait_user decoded w =
        Ensures-lift Q E (encode_base64 (codes "Password:")) _ w tt (λ label e. refl)
    auth_step-Same auth_wait_pass decoded w = auth_pass-Same decoded w
    auth_step-Same _ decoded w = refl

    handle_auth_line-Same : (line : Bytes) (w : World) → Same s.secure (handle_auth_line v s line w)
    unfolding handle_auth_line Q E
    handle_auth_line-Same line w = Ensures-lift Q E (decode_base64 line) _ w tt (λ decoded e.
        Ensures-if Q E (is_empty decoded && not (is_empty line)) _ (auth_step v s.state s decoded) w
          (λ nothing. refl) (λ bytes. auth_step-Same s.state decoded w))

    receive_line-same : (line : Bytes) → (receive_line s line).0.secure ≡ s.secure
    unfolding receive_line
    receive_line-same line = ground arith

    receive_data-Same : (line : Bytes) (w : World) → Same s.secure (receive_data v s line w)
    unfolding receive_data Q E
    receive_data-Same line w =
        Ensures-if Q E (equal line (codes ".")) _ _ w
          (λ dot.
            Ensures-bind Q E (λ _ _. Unit {0}) (save_message v s) _ w
              (Ensures-any (λ _ _. Unit) (save_message v s w) (λ _ _. tt)) (λ saved w' _. refl))
          (λ more. receive_line-same line)

    dispatch-Same : (c : Command) (t : CommandType) (w : World) → Same s.secure (dispatch v s c t w)
    unfolding dispatch handle_helo handle_mail handle_rcpt handle_data handle_rset handle_quit
        handle_noop handle_starttls
    dispatch-Same c auth w = handle_auth-Same c w
    dispatch-Same c helo w = refl
    dispatch-Same c ehlo w = refl
    dispatch-Same c mail w = ground arith
    dispatch-Same c rcpt w = ground arith
    dispatch-Same c data_cmd w = ground arith
    dispatch-Same c rset w = refl
    dispatch-Same c noop w = refl
    dispatch-Same c quit w = refl
    dispatch-Same c unknown w = refl
    dispatch-Same c Command.starttls w = ground arith

    process_in-Same :
        (st : State) (line : Bytes) (w : World) → Same s.secure (process_in v st s line w)
    unfolding process_in
    process_in-Same auth_wait_user line w = handle_auth_line-Same line w
    process_in-Same auth_wait_pass line w = handle_auth_line-Same line w
    process_in-Same receiving_data line w = receive_data-Same line w
    process_in-Same _ line w = dispatch-Same (parse line) (parse line).type w

    -- No line changes `m_secure`.
    pub process_line-Same : (line : Bytes) (w : World) → Same s.secure (process_line v s line w)
    unfolding process_line Q E
    process_line-Same line w =
        Ensures-if Q E (ltb max_smtp_line (length line)) _ _ w (λ long. refl)
          (λ short. process_in-Same s.state line w)
