-- ===== src/Smtp/Login.antt =====
-- server/SmtpSession.cpp: an AUTH exchange of a client that keeps to RFC 4954.
use ua_5308_smtp.Prelude.{
  ℕ, suc, ◌+◌, ◌≤◌, ◌≡◌, refl, ◌∙◌, ap, true, false, some, [], ◌∷◌, ◌++◌, ◌==◌, ltb, Bytes, arith,
  length, is_empty, drop, take-append, All, find_index?-append,
}
use ua_5308_smtp.Base64.Alphabet.{ok}
use ua_5308_smtp.Base64.Encoder.{encode_base64}
use ua_5308_smtp.Base64.Decoder.{decode_base64}
use ua_5308_smtp.Base64.RoundTrip.{AreBytes, decode_base64-encode_base64, length-encode_base64}
use ua_5308_smtp.Smtp.Services.{Services}
use ua_5308_smtp.Smtp.State.{auth_wait_pass, wait_mail, Session, extract_username}
use ua_5308_smtp.Smtp.Session.{
  check_credentials, plain_auth, split_credentials, auth_pass, auth_step, handle_auth_line,
  process_in, process_line, max_smtp_line,
}

-- "\0user\0password"
abbrev pub credentials : Bytes → Bytes → Bytes
credentials user password = 0 ∷ (user ++ 0 ∷ password)

-- No byte of the text is NUL.
abbrev pub HasNoNul : Bytes → Type 0
HasNoNul = All (λ c. (c == 0) ≡ false)

drop_past : (user password : Bytes) → drop (suc (length user)) (user ++ 0 ∷ password) ≡ password
drop_past [] password = refl
drop_past (c ∷ user) password = drop_past user password

drop-credentials :
    (user password : Bytes) (n : ℕ)
    → n ≡ suc (suc (length user))
    → drop n (credentials user password) ≡ password
drop-credentials user password n e = rw e (drop_past user password)

split_credentials_lem :
    (user password : Bytes)
    → HasNoNul user
    → split_credentials (credentials user password) ≡ some (extract_username user, password)
unfolding split_credentials
split_credentials_lem user password h =
    rw (split_credentials, find_index?-append (λ c. c == 0) user 0 password h refl)
      (simp (take-append, drop-credentials user password (0 + 1 + length user + 1) (omega arith)))

pub decoded :
    (xs : Bytes) {enc : Bytes}
    → AreBytes xs
    → length xs ≤ 57
    → encode_base64 xs ≡ ok enc
    → decode_base64 enc ≡ ok xs
decoded xs bs h e = rw e at (decode_base64-encode_base64 xs bs h)

pub short :
    (xs : Bytes) {enc : Bytes}
    → length xs ≤ 57
    → encode_base64 xs ≡ ok enc
    → ltb max_smtp_line (length enc) ≡ false
short xs h e = ground (arith, (length-encode_base64 xs e).0)

module _ (v : Services) where
  open v use {World}

  auth_pass_plain :
      (s : Session) (user password : Bytes) (w : World)
      → is_empty s.auth_username ≡ true
      → HasNoNul user
      → auth_pass v s (credentials user password) w
        ≡ check_credentials v (record s { state = wait_mail }) (extract_username user) password w
  unfolding auth_pass plain_auth
  auth_pass_plain s user password w none_yet h =
      rw (none_yet, plain_auth, split_credentials_lem user password h)

  handle_auth_line_pass :
      (s : Session) (line : Bytes) {c : ℕ} {cs : Bytes} (w : World)
      → s.state ≡ auth_wait_pass
      → decode_base64 line ≡ ok (c ∷ cs)
      → handle_auth_line v s line w ≡ auth_pass v s (c ∷ cs) w
  unfolding handle_auth_line auth_step
  handle_auth_line_pass s line w at d = simp (at, d)

  process_line_auth :
      (s : Session) (line : Bytes) (w : World)
      → s.state ≡ auth_wait_pass
      → ltb max_smtp_line (length line) ≡ false
      → process_line v s line w ≡ handle_auth_line v s line w
  unfolding process_line process_in
  process_line_auth s line w at fits = simp (at, fits)

  -- The line that follows AUTH PLAIN, in AUTH_WAIT_PASS with no user name stored: what the client sends
  -- as user and password is what is checked, once, the user without a domain. The user has no NUL, and
  -- NUL, user, NUL and password are at most 57 bytes.
  pub process_line-plain :
      (s : Session) (user password : Bytes) {line : Bytes}
      → s.state ≡ auth_wait_pass
      → s.auth_username ≡ []
      → HasNoNul user
      → AreBytes (credentials user password)
      → length (credentials user password) ≤ 57
      → encode_base64 (credentials user password) ≡ ok line
      → (w : World)
      → process_line v s line w
        ≡ check_credentials v (record s { state = wait_mail }) (extract_username user) password w
  process_line-plain s user password {line} at none_yet h bs fits e w =
      process_line_auth s line w at (short (credentials user password) fits e)
      ∙ handle_auth_line_pass s line w at (decoded (credentials user password) bs fits e)
      ∙ auth_pass_plain s user password w (ap is_empty none_yet) h
