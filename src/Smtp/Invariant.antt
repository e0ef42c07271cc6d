-- ===== src/Smtp/Invariant.antt =====
-- What a session satisfies between two lines, and the handlers that call nothing outside it.
use ua_5308_smtp.Prelude.{◌≤◌, ◌≡◌, ◌≢◌, ◌⊎◌, Bool, true, false, [], Bytes, arith, length, is_empty}
use ua_5308_smtp.Smtp.Command.{Command}
use ua_5308_smtp.Smtp.State.{
  State, wait_rcpt, wait_data, receiving_data, closed, auth_wait_user, auth_wait_pass, Session,
  max_message_size, initial, reset_to_helo, set_secure,
}
use ua_5308_smtp.Smtp.Session.{
  handle_helo, handle_mail, handle_rcpt, handle_data, handle_rset, handle_quit, handle_starttls,
}

-- The states of a mail transaction, of a message being received, of an AUTH exchange and of its
-- last line, and those in which a sender or recipients may be set.
abbrev pub in_transaction : State → Bool
in_transaction wait_rcpt = true
in_transaction receiving_data = true
in_transaction _ = false

abbrev pub is_receiving : State → Bool
is_receiving receiving_data = true
is_receiving _ = false

abbrev pub in_auth : State → Bool
in_auth auth_wait_user = true
in_auth auth_wait_pass = true
in_auth _ = false

abbrev pub awaits_pass : State → Bool
awaits_pass auth_wait_pass = true
awaits_pass _ = false

abbrev pub may_hold : State → Bool
may_hold wait_rcpt = true
may_hold receiving_data = true
may_hold closed = true
may_hold _ = false

-- A client is authenticated over an encrypted connection only, a transaction is that of an
-- authenticated client, and what belongs to a message or an exchange is empty outside it.
pub record Inv (s : Session) : Type 0 where
  pub encrypted : (s.authenticated ≡ false) ⊎ (s.secure ≡ true)
  pub reachable : s.state ≢ wait_data
  pub transaction : (in_transaction s.state ≡ false) ⊎ (s.authenticated ≡ true)
  pub exchange : (in_auth s.state ≡ false) ⊎ ((s.authenticated ≡ false) × (s.secure ≡ true))
  pub has_recipient : (is_receiving s.state ≡ false) ⊎ (is_empty s.recipients ≡ false)
  pub no_message : (may_hold s.state ≡ true) ⊎ ((s.sender ≡ []) × (s.recipients ≡ []))
  pub no_body : (is_receiving s.state ≡ true) ⊎ (s.body ≡ [])
  pub body_bound : length s.body ≤ max_message_size
  pub no_username : (awaits_pass s.state ≡ true) ⊎ (s.auth_username ≡ [])

pub initial-Inv : (domain : Bytes) (has_logger : Bool) → Inv (initial domain has_logger)
initial-Inv domain has_logger = ground arith

pub handle_helo-Inv : (s : Session) (c : Command) → Inv (handle_helo s c).0
unfolding handle_helo
handle_helo-Inv s c = ground arith

pub handle_mail-Inv : (s : Session) (c : Command) → Inv s → Inv (handle_mail s c).0
unfolding handle_mail
handle_mail-Inv s c h = ground arith

pub handle_rcpt-Inv : (s : Session) (c : Command) → Inv s → Inv (handle_rcpt s c).0
unfolding handle_rcpt
handle_rcpt-Inv s c h = ground arith

pub handle_data-Inv : (s : Session) → Inv s → Inv (handle_data s).0
unfolding handle_data
handle_data-Inv s h = ground arith

pub handle_rset-Inv : (s : Session) → in_auth s.state ≡ false → Inv s → Inv (handle_rset s).0
unfolding handle_rset
handle_rset-Inv s a h = ground arith

pub handle_quit-Inv :
    (s : Session)
    → is_receiving s.state ≡ false
    → in_auth s.state ≡ false
    → Inv s
    → Inv (handle_quit s).0
unfolding handle_quit
handle_quit-Inv s r a h = ground arith

pub handle_starttls-Inv : (s : Session) → Inv s → Inv (handle_starttls s).0
unfolding handle_starttls
handle_starttls-Inv s h = ground arith

-- The upgrade of the connection: `SetSecure(true)` and `ResetToHelo`.
pub upgrade-Inv : (s : Session) → Inv s → Inv (reset_to_helo (set_secure true s))
upgrade-Inv s h = ground arith
