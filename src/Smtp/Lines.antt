-- ===== src/Smtp/Lines.antt =====
-- `ProcessLine` as a whole: every line, in every state.
use ua_5308_smtp.Prelude.{
  ◌≡◌, refl, true, false, not, ◌&&◌, [], Bytes, codes, arith, length, is_empty, equal, ltb,
}
use ua_5308_smtp.Base64.Encoder.{encode_base64}
use ua_5308_smtp.Base64.Decoder.{decode_base64}
use ua_5308_smtp.Smtp.Command.{
  Command, CommandType, helo, ehlo, mail, rcpt, data_cmd, rset, noop, quit, unknown, auth,
}
use ua_5308_smtp.Smtp.Command
use ua_5308_smtp.Smtp.Parser.{parse}
use ua_5308_smtp.Effects.{return}
use ua_5308_smtp.Effects.Ensures.{Ensures-if, Ensures-lift}
use ua_5308_smtp.Smtp.Services.{Services}
use ua_5308_smtp.Smtp.Response
use ua_5308_smtp.Smtp.State.{
  State, wait_mail, receiving_data, auth_wait_user, auth_wait_pass, Session,
}
use ua_5308_smtp.Smtp.Session.{
  Step, auth_user, auth_pass, auth_step, receive_line, handle_auth_line, receive_data, dispatch,
  process_in, process_line, max_smtp_line,
}
use ua_5308_smtp.Smtp.Invariant.{
  Inv, in_auth, is_receiving, handle_helo-Inv, handle_mail-Inv, handle_rcpt-Inv, handle_data-Inv,
  handle_rset-Inv, handle_quit-Inv, handle_starttls-Inv,
}
use ua_5308_smtp.Smtp.Audit.{
  Audited, Accounted, quiet, plain_auth-Accounted, check_credentials-Accounted,
  handle_auth-Accounted,
}

module _ (v : Services) where
  open v use {World, authorize}

  module _ (s : Session) (h : Inv s) where
    auth_user-Accounted :
        s.state ≡ auth_wait_user
        → (decoded : Bytes) (w : World) → Accounted v s w (auth_user v s decoded w)
    unfolding auth_user
    auth_user-Accounted at decoded w =
        Ensures-lift (Audited v s w) (λ w'. w' ≡ w) (encode_base64 (codes "Password:")) _ w refl
          (λ label e. quiet v s w _ (ground arith) (λ a. a))

    auth_pass-Accounted :
        s.state ≡ auth_wait_pass
        → (decoded : Bytes) (w : World) → Accounted v s w (auth_pass v s decoded w)
    unfolding auth_pass
    auth_pass-Accounted at decoded w =
        Ensures-if (Audited v s w) (λ w'. w' ≡ w) (is_empty s.auth_username) _ _ w
          (λ plain. plain_auth-Accounted v s _ decoded w (ground arith))
          (λ login. check_credentials-Accounted v s _ s.auth_username decoded w (ground arith))

    auth_step-Accounted :
        (st : State)
        → s.state ≡ st
        → (decoded : Bytes) (w : World) → Accounted v s w (auth_step v st s decoded w)
    unfolding auth_step
    auth_step-Accounted auth_wait_user at decoded w = auth_user-Accounted at decoded w
    auth_step-Accounted auth_wait_pass at decoded w = auth_pass-Accounted at decoded w
    auth_step-Accounted _ at decoded w = quiet v s w _ h (λ a. a)

    -- The states of an AUTH exchange.
    handle_auth_line-Accounted :
        in_auth s.state ≡ true
        → (line : Bytes) (w : World) → Accounted v s w (handle_auth_line v s line w)
    unfolding handle_auth_line
    handle_auth_line-Accounted at line w =
        Ensures-lift (Audited v s w) (λ w'. w' ≡ w) (decode_base64 line) _ w refl
          (λ decoded e.
            Ensures-if (Audited v s w) (λ w'. w' ≡ w) (is_empty decoded && not (is_empty line))
              (return abandoned) (auth_step v s.state s decoded) w
              (λ nothing. quiet v s w abandoned (ground arith) (λ a. a))
              (λ bytes. auth_step-Accounted s.state refl decoded w))
      where
        abandoned : Step
        abandoned = (record s { state = wait_mail; auth_username = [] }, Response.auth_failed)

    receive_line-Inv : is_receiving s.state ≡ true → (line : Bytes) → Inv (receive_line s line).0
    unfolding receive_line
    receive_line-Inv at line = ground arith

    receive_data-Accounted :
        is_receiving s.state ≡ true
        → (line : Bytes) → equal line (codes ".") ≡ false
        → (w : World) → Accounted v s w (receive_data v s line w)
    unfolding receive_data
    receive_data-Accounted at line more w =
        rw more (quiet v s w (receive_line s line) (receive_line-Inv at line) (same line))
      where
        same :
            (line : Bytes) → (receive_line s line).0.authenticated ≡ true → s.authenticated ≡ true
        same line e = unfold receive_line in ground arith

    dispatch-Accounted :
        is_receiving s.state ≡ false
        → in_auth s.state ≡ false
        → (c : Command) (t : CommandType) (w : World) → Accounted v s w (dispatch v s c t w)
    unfolding dispatch
    dispatch-Accounted r a c helo w = quiet v s w _ (handle_helo-Inv s c) (λ e. cc)
    dispatch-Accounted r a c ehlo w = quiet v s w _ (handle_helo-Inv s c) (λ e. cc)
    dispatch-Accounted r a c auth w = handle_auth-Accounted v s c h w
    dispatch-Accounted r a c mail w = quiet v s w _ (handle_mail-Inv s c h) (λ e. ground arith)
    dispatch-Accounted r a c rcpt w = quiet v s w _ (handle_rcpt-Inv s c h) (λ e. ground arith)
    dispatch-Accounted r a c data_cmd w = quiet v s w _ (handle_data-Inv s h) (λ e. ground arith)
    dispatch-Accounted r a c rset w = quiet v s w _ (handle_rset-Inv s a h) (λ e. e)
    dispatch-Accounted r a c noop w = quiet v s w _ h (λ e. e)
    dispatch-Accounted r a c quit w = quiet v s w _ (handle_quit-Inv s r a h) (λ e. e)
    dispatch-Accounted r a c unknown w = quiet v s w _ h (λ e. e)
    dispatch-Accounted r a c Command.starttls w =
        quiet v s w _ (handle_starttls-Inv s h) (λ e. ground arith)

    process_in-Accounted :
        (st : State)
        → s.state ≡ st
        → (line : Bytes) → (is_receiving st && equal line (codes ".")) ≡ false
        → (w : World) → Accounted v s w (process_in v st s line w)
    unfolding process_in
    process_in-Accounted auth_wait_user at line e w = handle_auth_line-Accounted (rw at refl) line w
    process_in-Accounted auth_wait_pass at line e w = handle_auth_line-Accounted (rw at refl) line w
    process_in-Accounted receiving_data at line e w = receive_data-Accounted (rw at refl) line e w
    process_in-Accounted _ at line e w =
        dispatch-Accounted (rw at refl) (rw at refl) (parse line) (parse line).type w

  -- Every line but the one that ends a message.
  pub process_line-Accounted :
      (s : Session) (line : Bytes) (w : World)
      → Inv s
      → (is_receiving s.state && equal line (codes ".")) ≡ false
      → Accounted v s w (process_line v s line w)
  unfolding process_line
  process_line-Accounted s line w h e =
      Ensures-if (Audited v s w) (λ w'. w' ≡ w) (ltb max_smtp_line (length line)) _ _ w
        (λ long. quiet v s w _ h (λ a. a)) (λ short. process_in-Accounted s h s.state refl line e w)
