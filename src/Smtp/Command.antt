-- ===== src/Smtp/Command.antt =====
-- proto/SmtpCommand.hpp.
use ua_5308_smtp.Prelude.{Bytes}

pub data CommandType : Type 0 where
  helo ehlo mail rcpt data_cmd rset noop quit unknown starttls auth : CommandType

pub record Command : Type 0 where
  pub type : CommandType
  pub argument : Bytes
