-- ===== src/Smtp/Audit.antt =====
-- server/SmtpSession.cpp: what a line does to the invariant, to the authentication of the client and to
-- the world outside the session. The AUTH command.
use ua_5308_smtp.Prelude.{
  ◌≡◌, ◌⊎◌, inl, inr, refl, sym, ◌∙◌, true, false, not, Bytes, codes, arith, is_empty, equal,
  Bool-cases,
}
use ua_5308_smtp.Base64.Encoder.{encode_base64}
use ua_5308_smtp.Base64.Decoder.{decode_base64}
use ua_5308_smtp.Smtp.Command.{Command}
use ua_5308_smtp.Effects.{Outcome}
use ua_5308_smtp.Effects.Ensures.{Ensures, Ensures-if, Ensures-lift, Ensures-option}
use ua_5308_smtp.Smtp.Services.{Services}
use ua_5308_smtp.Smtp.Response
use ua_5308_smtp.Smtp.State.{State, wait_mail, Session}
use ua_5308_smtp.Smtp.Session.{
  Step, check_credentials, plain_auth, auth_login, auth_plain, auth_mechanism, is_wait_mail,
  handle_auth, split_credentials, split_argument,
}
use ua_5308_smtp.Smtp.Invariant.{Inv, in_transaction, in_auth}

is_wait_mail-eq : (st : State) → is_wait_mail st ≡ true → st ≡ wait_mail
is_wait_mail-eq st h = ground arith

-- A session that may be authenticated next.
pub record IsReady (s : Session) : Type 0 where
  pub not_yet : s.authenticated ≡ false
  pub encrypted_now : s.secure ≡ true
  pub no_transaction : in_transaction s.state ≡ false
  pub no_exchange : in_auth s.state ≡ false
  pub invariant : Inv s

grant : (s : Session) → IsReady s → Inv (record s { authenticated = true })
grant s h = ground (arith, h.invariant)

module _ (v : Services) where
  open v use {World, authorize}

  -- Nothing outside the session changed, and nobody became authenticated; or the credentials were
  -- checked, once, and the client is authenticated exactly if the repository said so.
  abbrev pub Quiet : Session → World → Step → World → Type 0
  Quiet s w r w' = (w' ≡ w) × (r.0.authenticated ≡ true → s.authenticated ≡ true)

  abbrev pub Checked : World → Step → World → Type 0
  Checked w r w' =
      (username : Bytes) × (password : Bytes) × (w' ≡ (authorize username password w).1)
      × (r.0.authenticated ≡ (authorize username password w).0)

  pub record Audited (s : Session) (w : World) (r : Step) (w' : World) : Type 0 where
    pub keeps : Inv r.0
    pub audit : Quiet s w r w' ⊎ Checked w r w'

  -- A throw leaves the world as it was.
  abbrev pub Accounted : Session → World → Outcome Step × World → Type 0
  Accounted s w = Ensures (Audited s w) (λ w'. w' ≡ w)

  pub quiet :
      (s : Session) (w : World) (r : Step)
      → Inv r.0
      → (r.0.authenticated ≡ true → s.authenticated ≡ true)
      → Audited s w r w
  quiet s w r i a = record { keeps = i; audit = inl (refl, a) }

  -- `t` is the session that `s` has become when the exchange ends.
  pub check_credentials-Accounted :
      (s t : Session) (username password : Bytes) (w : World)
      → IsReady t
      → Accounted s w (check_credentials v t username password w)
  unfolding check_credentials
  check_credentials-Accounted s t username password w h =
      elim (Bool-cases (authorize username password w).0) [
        | inl granted ↦
            rw granted
              (record { keeps = grant t h; audit = inr (username, password, refl, sym granted) })
        | inr refused ↦ rw refused (record {
          keeps = h.invariant;
          audit = inr (username, password, refl, h.not_yet ∙ sym refused);
        })
      ]

  pub plain_auth-Accounted :
      (s t : Session) (decoded : Bytes) (w : World)
      → IsReady t
      → Accounted s w (plain_auth v t decoded w)
  unfolding plain_auth
  plain_auth-Accounted s t decoded w h =
      Ensures-option (Audited s w) (λ w'. w' ≡ w) (split_credentials decoded) _
        (λ p. check_credentials v t p.0 p.1) w
        (λ n. quiet s w (t, Response.auth_failed) h.invariant (λ yes_now. cc (h.not_yet)))
        (λ p e. check_credentials-Accounted s t p.0 p.1 w h)

  -- What the handlers of AUTH rely on.
  module _ (s : Session) (at : s.state ≡ wait_mail) (fresh : s.authenticated ≡ false)
      (tls : s.secure ≡ true) (h : Inv s) where
    auth_login-Accounted : (w : World) → Accounted s w (auth_login v s w)
    unfolding auth_login
    auth_login-Accounted w =
        Ensures-lift (Audited s w) (λ w'. w' ≡ w) (encode_base64 (codes "Username:")) _ w refl
          (λ label e. quiet s w _ (ground arith) (λ a. a))

    ready : IsReady s
    ready = record {
      not_yet = fresh;
      encrypted_now = tls;
      no_transaction = ground arith;
      no_exchange = ground arith;
      invariant = h;
    }

    auth_plain-Accounted :
        (response : Bytes) (w : World) → Accounted s w (auth_plain v s response w)
    unfolding auth_plain
    auth_plain-Accounted response w =
        Ensures-if (Audited s w) (λ w'. w' ≡ w) (is_empty response) _ _ w
          (λ later. quiet s w _ (ground arith) (λ a. a))
          (λ now.
            Ensures-lift (Audited s w) (λ w'. w' ≡ w) (decode_base64 response) _ w refl
              (λ decoded e.
                Ensures-if (Audited s w) (λ w'. w' ≡ w) (is_empty decoded) _ _ w
                  (λ nothing. quiet s w _ h (λ a. a))
                  (λ bytes. plain_auth-Accounted s s decoded w ready)))

    auth_mechanism-Accounted :
        (a : Bytes × Bytes) (w : World) → Accounted s w (auth_mechanism v s a w)
    unfolding auth_mechanism
    auth_mechanism-Accounted (mechanism, response) w =
        Ensures-if (Audited s w) (λ w'. w' ≡ w) (equal mechanism (codes "LOGIN")) _ _ w
          (λ login. auth_login-Accounted w)
          (λ other.
            Ensures-if (Audited s w) (λ w'. w' ≡ w) (equal mechanism (codes "PLAIN")) _ _ w
              (λ plain. auth_plain-Accounted response w) (λ neither. quiet s w _ h (λ a. a)))

  pub handle_auth-Accounted :
      (s : Session) (c : Command) → Inv s → (w : World) → Accounted s w (handle_auth v s c w)
  unfolding handle_auth
  handle_auth-Accounted s c h w =
      Ensures-if (Audited s w) (λ w'. w' ≡ w) (not (is_wait_mail s.state)) _ _ w
        (λ elsewhere. quiet s w _ h (λ a. a))
        (λ at.
          Ensures-if (Audited s w) (λ w'. w' ≡ w) s.authenticated _ _ w
            (λ already. quiet s w _ h (λ a. a))
            (λ fresh.
              Ensures-if (Audited s w) (λ w'. w' ≡ w) (not s.secure) _ _ w
                (λ plain. quiet s w _ h (λ a. a))
                (λ tls.
                  auth_mechanism-Accounted s (ground arith) fresh (ground arith) h
                    (split_argument c.argument) w)))
