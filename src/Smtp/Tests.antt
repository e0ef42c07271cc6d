-- ===== src/Smtp/Tests.antt =====
-- Runs of the SMTP session on concrete services: one user, whose mailbox counts its messages.
use ua_5308_smtp.Prelude.{
  ℕ, ◌+◌, ◌≡◌, ◌⊎◌, refl, true, false, ◌&&◌, none, some, List, [], ◌∷◌, ◌++◌, Bytes, codes, equal,
  arith, All, if◌then◌else◌,
}
use ua_5308_smtp.Base64.Encoder.{encode_base64, chars_of, block_of}
use ua_5308_smtp.Base64.Alphabet.{ok, letter}
use ua_5308_smtp.StringUtils
use ua_5308_smtp.Smtp.Parser.{parse, parse_clean, trim}
use ua_5308_smtp.Smtp.Response.{hello}
use ua_5308_smtp.Effects.{return, ◌>>=◌, returned}
use ua_5308_smtp.Effects.Ensures.{Ensures}
use ua_5308_smtp.Smtp.Services.{Services}
use ua_5308_smtp.Database.Rows.{User}
use ua_5308_smtp.Smtp.State.{
  auth_wait_user, wait_mail, receiving_data, auth_wait_pass, Session, initial, extract_username,
}
use ua_5308_smtp.Smtp.Session.{process_line, process_in, dispatch, handle_helo, check_credentials}
use ua_5308_smtp.Smtp.Invariant.{Inv}
use ua_5308_smtp.Smtp.Audit.{Audited}
use ua_5308_smtp.Smtp.Delivery.{Delivers, process_line_cases}
use ua_5308_smtp.Smtp.State.{reset_to_helo, set_secure, starttls}
use ua_5308_smtp.Smtp.Session.{handle_starttls}
use ua_5308_smtp.Smtp.Response.{start_tls}
use ua_5308_smtp.Smtp.Connection.{
  Round, Reaches, after_reply, accepted, round, Reaches-Inv, upgraded, Reaches-secure,
}
use ua_5308_smtp.Smtp.Command.{mail, rcpt}
use ua_5308_smtp.Smtp.Envelope.{bracketed, parse-bracketed}
use ua_5308_smtp.Smtp.Exchange.{IsAnswer, process_line-login}
use ua_5308_smtp.Smtp.Login.{credentials, process_line-plain}
use ua_5308_smtp.Smtp.Transfer.{IsBodyLine, process_lines, process_lines-body}
use ua_5308_smtp.Smtp.Rounds.{Tried, save_loop-Rounds}
use ua_5308_smtp.Smtp.Save.{save_loop}

abbrev bob : User
bob = record {
  id = some 1;
  username = codes "bob";
  password_hash = codes "hash";
  first_name = none;
  last_name = none;
  birthdate = none;
  avatar_b64 = none;
}

-- The number of messages in the mailbox.
abbrev services : Services
services = record {
  World = ℕ;
  find_by_username = λ name. return (if equal name (codes "bob") then some bob else none);
  register_user = λ user password. return false;
  authorize = λ name password w. (equal name (codes "bob") && equal password (codes "pw"), w);
  find_folder_by_name = λ id name. return (
      some (record {
        id = some 7;
        user_id = id;
        parent_id = none;
        name = name;
        next_uid = 1;
        is_subscribed = true;
      }));
  deliver = λ message folder w. (returned (true, record message { id = some w }), w + 1);
  add_recipient = λ recipient. return true;
  parse_email = λ body. none;
  create_directories = λ dir w. (true, w);
  write_file = λ path body w. (true, w);
  milliseconds = λ w. (1000 + w, w);
  random_digits = λ w. (1 ∷ 2 ∷ [], w);
  utc_timestamp = λ w. (codes "2026-01-01 00:00:00", w);
}

-- A session over TLS that waits for the credentials of AUTH PLAIN, and one that receives a message.
abbrev waiting : Session
waiting = record (initial (codes "example.org") false) { state = auth_wait_pass; secure = true }

abbrev receiving : Session
receiving = record (initial (codes "example.org") false) {
  state = receiving_data;
  secure = true;
  authenticated = true;
  sender = codes "bob";
  recipients = codes "bob" ∷ [];
}

receiving-Inv : Inv receiving
receiving-Inv = ground arith

process_line_cases_example :
    Ensures
      (Audited services receiving 0)
      (λ w'. w' ≡ 0)
      (process_line services receiving (codes ".") 0)
    ⊎ Delivers services receiving (codes ".") 0
process_line_cases_example = process_line_cases services receiving (codes ".") 0 receiving-Inv

abbrev greeted : Session
greeted = record (initial (codes "example.org") false) { state = wait_mail }

abbrev helo_round : Round
helo_round = record { line = codes "HELO x"; sent = true; handshake = true }

greeted-Reaches : Reaches services (codes "example.org") false greeted 0
unfolding process_line process_in dispatch handle_helo parse parse_clean trim StringUtils.trim
    after_reply hello
greeted-Reaches = round helo_round (accepted 0) refl refl

Reaches-Inv_example : Inv greeted
Reaches-Inv_example = Reaches-Inv services greeted-Reaches

abbrev starttls_round : Round
starttls_round = record { line = codes "STARTTLS"; sent = true; handshake = true }

abbrev encrypted : Session
encrypted = reset_to_helo (set_secure true (record greeted { state = starttls }))

encrypted-Reaches : Reaches services (codes "example.org") false encrypted 0
unfolding process_line process_in dispatch handle_starttls parse parse_clean trim StringUtils.trim
    after_reply start_tls
encrypted-Reaches = round starttls_round greeted-Reaches refl refl

Reaches-secure_example : encrypted.secure ≡ upgraded services encrypted-Reaches
Reaches-secure_example = Reaches-secure services encrypted-Reaches

encoded_credentials :
    encode_base64 (credentials (codes "bob@x") (codes "pw")) ≡ ok (codes "AGJvYkB4AHB3")
unfolding encode_base64 chars_of block_of letter
encoded_credentials = refl

process_line-plain_example :
    process_line services waiting (codes "AGJvYkB4AHB3") 0
    ≡ check_credentials services
        (record waiting { state = wait_mail })
        (extract_username (codes "bob@x"))
        (codes "pw")
        0
process_line-plain_example =
    process_line-plain services waiting (codes "bob@x") (codes "pw") refl refl (ground arith)
      (ground arith) (ground arith) encoded_credentials 0

abbrev two_lines : List Bytes
two_lines = codes "Hello" ∷ codes ".." ∷ []

two_lines-IsBodyLine : All IsBodyLine two_lines
two_lines-IsBodyLine = (
  record { not_dot = refl; fits = ground arith },
  (record { not_dot = refl; fits = ground arith }, tt),
)

process_lines-body_example :
    process_lines services receiving two_lines 0
    ≡ (returned (record receiving { body = codes "Hello\n..\n" }), 0)
process_lines-body_example =
    process_lines-body services receiving two_lines 0 refl two_lines-IsBodyLine (ground arith)

save_loop-Rounds_example :
    Ensures
      (Tried services receiving none false (codes "eve" ∷ codes "bob" ∷ []) 0)
      (λ _. Unit)
      (save_loop services receiving none false (codes "eve" ∷ codes "bob" ∷ []) 0)
save_loop-Rounds_example =
    save_loop-Rounds services receiving none false (codes "eve" ∷ codes "bob" ∷ []) 0

parse-bracketed_example :
    (parse (codes "Mail From:" ++ bracketed (codes "Bob@x"))
      ≡ record { type = mail; argument = codes "Bob@x" })
    × (parse (codes "rcpt to:" ++ bracketed (codes "Bob@x"))
        ≡ record { type = rcpt; argument = codes "Bob@x" })
parse-bracketed_example =
    parse-bracketed (codes "Mail From:") (codes "rcpt to:") (codes "Bob@x") refl refl

abbrev asked : Session
asked = record (initial (codes "example.org") false) { state = auth_wait_user; secure = true }

user-IsAnswer : IsAnswer (codes "bob@x") (codes "Ym9iQHg=")
unfolding encode_base64 chars_of block_of letter
user-IsAnswer = record { bytes = ground arith; fits = ground arith; encoded = refl }

password-IsAnswer : IsAnswer (codes "pw") (codes "cHc=")
unfolding encode_base64 chars_of block_of letter
password-IsAnswer = record { bytes = ground arith; fits = ground arith; encoded = refl }

process_line-login_example :
    (process_line services asked (codes "Ym9iQHg=") >>= λ p.
    process_line services p.0 (codes "cHc="))
      0
    ≡ check_credentials services
        (record asked { state = wait_mail; auth_username = [] })
        (extract_username (codes "bob@x"))
        (codes "pw")
        0
process_line-login_example =
    process_line-login services asked (codes "bob@x") (codes "pw") 0 refl
      (unfold extract_username in refl) user-IsAnswer password-IsAnswer
