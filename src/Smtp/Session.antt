-- ===== src/Smtp/Session.antt =====
-- server/SmtpSession.cpp: `ProcessLine` and the command handlers. Each returns the new session and
-- the reply. Where a handler throws, the session is as it was: nothing is assigned before a throw.
use ua_5308_smtp.Prelude.{
  ℕ, ◌+◌, Bool, true, false, not, ◌&&◌, ◌||◌, Option, none, some, [], ◌∷◌, ◌++◌, ltb, if◌then◌else◌,
  Bytes, codes, equal, is_empty, length, find?, take, drop, substr,
}
use ua_5308_smtp.Base64.Encoder.{encode_base64}
use ua_5308_smtp.Base64.Decoder.{decode_base64}
use ua_5308_smtp.Smtp.Command.{
  Command, CommandType, helo, ehlo, mail, rcpt, data_cmd, rset, noop, quit, unknown, auth,
}
use ua_5308_smtp.Smtp.Command
use ua_5308_smtp.Smtp.Parser.{parse}
use ua_5308_smtp.Smtp.Response
use ua_5308_smtp.Effects.{M, ◌>>=◌, return, call, lift}
use ua_5308_smtp.Smtp.Services.{Services}
use ua_5308_smtp.Smtp.Save.{save_message}
use ua_5308_smtp.Smtp.State.{
  State, wait_mail, wait_rcpt, receiving_data, closed, starttls, auth_wait_user, auth_wait_pass,
  Session, max_message_size, extract_username, reset_message, reset_to_helo,
}

abbrev pub max_smtp_line : ℕ
max_smtp_line = 512

abbrev pub is_wait_mail : State → Bool
is_wait_mail wait_mail = true
is_wait_mail _ = false

abbrev pub is_wait_rcpt : State → Bool
is_wait_rcpt wait_rcpt = true
is_wait_rcpt _ = false

abbrev is_ehlo : CommandType → Bool
is_ehlo ehlo = true
is_ehlo _ = false

abbrev pub Step : Type 0
Step = Session × Bytes

-- The handlers that call nothing outside the session.
unfoldable pub handle_helo : Session → Command → Step
handle_helo s command = (
  record (reset_to_helo s) { state = wait_mail },
  if is_ehlo command.type then Response.ehlo_reply s.domain s.secure else Response.hello s.domain,
)

unfoldable pub handle_mail : Session → Command → Step
handle_mail s command =
    if not (is_wait_mail s.state)
    then (s, Response.bad_sequence)
    else if not s.authenticated
    then (s, Response.auth_required)
    else (
      record s { sender = extract_username command.argument; state = wait_rcpt },
      Response.ok_reply,
    )

unfoldable pub handle_rcpt : Session → Command → Step
handle_rcpt s command = if not (is_wait_rcpt s.state) then (s, Response.bad_sequence) else (
  record s { recipients = s.recipients ++ extract_username command.argument ∷ [] },
  Response.ok_reply,
)

unfoldable pub handle_data : Session → Step
handle_data s =
    if not (is_wait_rcpt s.state) || is_empty s.recipients
    then (s, Response.bad_sequence)
    else (record s { state = receiving_data }, Response.start_mail_input)

unfoldable pub handle_rset : Session → Step
handle_rset s = (record (reset_message s) { state = wait_mail }, Response.ok_reply)

unfoldable pub handle_noop : Session → Step
handle_noop s = (s, Response.ok_reply)

unfoldable pub handle_quit : Session → Step
handle_quit s = (record s { state = closed }, Response.closing)

unfoldable pub handle_starttls : Session → Step
handle_starttls s =
    if not (is_wait_mail s.state)
    then (s, Response.bad_sequence)
    else (record s { state = starttls }, Response.start_tls)

-- A line of the message, other than the last.
unfoldable pub receive_line : Session → Bytes → Step
receive_line s line =
    let body = s.body ++ (line ++ b'\n' ∷ []) in
    if ltb max_message_size (length body)
    then (record (reset_message s) { state = wait_mail }, Response.message_too_large)
    else (record s { body = body }, [])

-- The credentials "\0user\0password": the user name without its domain, and the password.
unfoldable pub split_credentials : Bytes → Option (Bytes × Bytes)
unfolding extract_username
split_credentials blob = elim (find? 0 blob) [
  | none ↦ none
  | some first_nul ↦ elim (find? 0 (drop (first_nul + 1) blob)) [
    | none ↦ none
    | some width ↦ some (
      extract_username (substr blob (first_nul + 1) width),
      drop (first_nul + 1 + width + 1) blob,
    )
  ]
]

-- The mechanism, and what follows the first space.
unfoldable pub split_argument : Bytes → Bytes × Bytes
split_argument argument = elim (find? b' ' argument) [
  | none ↦ (argument, [])
  | some sp ↦ (take sp argument, drop (sp + 1) argument)
]

module _ (v : Services) where
  open v use {World, authorize}

  -- The end of an exchange, in a session whose state is set back already.
  unfoldable pub check_credentials : Session → Bytes → Bytes → M World Step
  check_credentials s username password = do
    authorized ← call (authorize username password)
    return (
        if authorized
        then (record s { authenticated = true }, Response.auth_succeeded)
        else (s, Response.auth_failed))

  -- PLAIN credentials, decoded; `s` is the session that a failure leaves.
  unfoldable pub plain_auth : Session → Bytes → M World Step
  unfolding check_credentials split_credentials
  plain_auth s decoded = elim (split_credentials decoded) [
    | none ↦ return (s, Response.auth_failed)
    | some (username, password) ↦ check_credentials s username password
  ]

  -- AUTH LOGIN: the user name is asked for.
  unfoldable pub auth_login : Session → M World Step
  auth_login s = do
    label ← lift (encode_base64 (codes "Username:"))
    return (record s { state = auth_wait_user }, Response.auth_challenge label)

  -- AUTH PLAIN: the credentials come with the command or on the next line.
  unfoldable pub auth_plain : Session → Bytes → M World Step
  unfolding plain_auth
  auth_plain s initial_response =
      if is_empty initial_response
      then return (record s { state = auth_wait_pass }, Response.auth_challenge [])
      else (do
        decoded ← lift (decode_base64 initial_response)
        if is_empty decoded then return (s, Response.auth_failed) else plain_auth s decoded)

  unfoldable pub auth_mechanism : Session → Bytes × Bytes → M World Step
  unfolding auth_login auth_plain
  auth_mechanism s (mechanism, initial_response) =
      if equal mechanism (codes "LOGIN")
      then auth_login s
      else if equal mechanism (codes "PLAIN")
      then auth_plain s initial_response
      else return (s, Response.unrecognized_auth_mech)

  -- `HandleAuth`
  unfoldable pub handle_auth : Session → Command → M World Step
  unfolding auth_mechanism split_argument
  handle_auth s command =
      if not (is_wait_mail s.state)
      then return (s, Response.bad_sequence)
      else if s.authenticated
      then return (s, Response.bad_sequence)
      else if not s.secure
      then return (s, Response.encryption_required)
      else auth_mechanism s (split_argument command.argument)

  -- `HandleAuthLine` in the state AUTH_WAIT_USER, and in AUTH_WAIT_PASS: with a user name from the
  -- line before (LOGIN), or without one (PLAIN).
  unfoldable pub auth_user : Session → Bytes → M World Step
  unfolding extract_username
  auth_user s decoded = do
    label ← lift (encode_base64 (codes "Password:"))
    return (
      record s { auth_username = extract_username decoded; state = auth_wait_pass },
      Response.auth_challenge label,
    )

  unfoldable pub auth_pass : Session → Bytes → M World Step
  unfolding plain_auth check_credentials
  auth_pass s decoded =
      if is_empty s.auth_username
      then plain_auth (record s { state = wait_mail }) decoded
      else check_credentials (record s { state = wait_mail; auth_username = [] }) s.auth_username
          decoded

  unfoldable pub auth_step : State → Session → Bytes → M World Step
  unfolding auth_user auth_pass
  auth_step auth_wait_user s decoded = auth_user s decoded
  auth_step auth_wait_pass s decoded = auth_pass s decoded
  auth_step _ s decoded = return (s, Response.syntax_error)

  -- `HandleAuthLine`
  unfoldable pub handle_auth_line : Session → Bytes → M World Step
  unfolding auth_step
  handle_auth_line s line = do
    decoded ← lift (decode_base64 line)
    if is_empty decoded && not (is_empty line)
        then return (record s { state = wait_mail; auth_username = [] }, Response.auth_failed)
        else auth_step s.state s decoded

  -- A line of the message, or the "." that ends it.
  unfoldable pub receive_data : Session → Bytes → M World Step
  unfolding save_message receive_line
  receive_data s line =
      if equal line (codes ".")
      then (do
        saved ← save_message v s
        return (
          record (reset_message s) { state = wait_mail },
          if saved then Response.ok_reply else Response.message_storage_failed,
        ))
      else return (receive_line s line)

  -- The switch over the commands.
  unfoldable pub dispatch : Session → Command → CommandType → M World Step
  unfolding handle_helo handle_auth handle_mail handle_rcpt handle_data handle_rset handle_noop
      handle_quit handle_starttls
  dispatch s command helo = return (handle_helo s command)
  dispatch s command ehlo = return (handle_helo s command)
  dispatch s command auth = handle_auth s command
  dispatch s command mail = return (handle_mail s command)
  dispatch s command rcpt = return (handle_rcpt s command)
  dispatch s command data_cmd = return (handle_data s)
  dispatch s command rset = return (handle_rset s)
  dispatch s command noop = return (handle_noop s)
  dispatch s command quit = return (handle_quit s)
  dispatch s command unknown = return (s, Response.not_implemented)
  dispatch s command Command.starttls = return (handle_starttls s)

  abbrev parse_dispatch : Session → Bytes → M World Step
  parse_dispatch s line = let command = parse line in dispatch s command command.type

  -- `ProcessLine`, by the state of the session.
  unfoldable pub process_in : State → Session → Bytes → M World Step
  unfolding handle_auth_line receive_data dispatch
  process_in auth_wait_user s line = handle_auth_line s line
  process_in auth_wait_pass s line = handle_auth_line s line
  process_in receiving_data s line = receive_data s line
  process_in _ s line = parse_dispatch s line

  unfoldable pub process_line : Session → Bytes → M World Step
  unfolding process_in
  process_line s line =
      if ltb max_smtp_line (length line)
      then return (s, Response.syntax_error)
      else process_in s.state s line
