-- ===== src/Smtp/State.antt =====
-- proto/SmtpSession.hpp: the state of a session, and the operations on it that read no input.
use ua_5308_smtp.Prelude.{ℕ, ◌*◌, Bool, true, false, none, some, List, [], Bytes, find?, take}

pub data State : Type 0 where
  wait_helo wait_mail wait_rcpt wait_data receiving_data closed starttls auth_wait_user : State
  auth_wait_pass : State

-- `has_logger` tells whether the session was given a logger.
pub record Session : Type 0 where
  pub state : State
  pub domain : Bytes
  pub sender : Bytes
  pub recipients : List Bytes
  pub body : Bytes
  pub authenticated : Bool
  pub secure : Bool
  pub auth_username : Bytes
  pub has_logger : Bool

abbrev pub max_message_size : ℕ
max_message_size = 10 * 1024 * 1024

-- The constructor.
abbrev pub initial : Bytes → Bool → Session
initial domain has_logger = record {
  state = wait_helo;
  domain = domain;
  sender = [];
  recipients = [];
  body = [];
  authenticated = false;
  secure = false;
  auth_username = [];
  has_logger = has_logger;
}

-- `ExtractUsername`
unfoldable pub extract_username : Bytes → Bytes
extract_username email = elim (find? b'@' email) [ none ↦ email | some pos ↦ take pos email ]

-- `IsClosed`
abbrev pub is_closed : Session → Bool
is_closed s = elim s.state [ closed ↦ true | _ ↦ false ]

-- `ResetMessage`
abbrev pub reset_message : Session → Session
reset_message s = record s { sender = []; recipients = []; body = [] }

-- `ResetToHelo`
abbrev pub reset_to_helo : Session → Session
reset_to_helo s =
    reset_message (record s { state = wait_helo; authenticated = false; auth_username = [] })

-- `SetSecure`
abbrev pub set_secure : Bool → Session → Session
set_secure secure s = record s { secure = secure }
