-- ===== src/Smtp.antt =====
-- The SMTP server: proto/Smtp*.hpp and server/Smtp*.cpp.
pub mod Command
pub mod Parser
pub mod Response
pub mod Services
pub mod State
pub mod Save
pub mod Session
pub mod Invariant
pub mod Audit
pub mod Lines
pub mod Delivery
pub mod Channel
pub mod Connection
pub mod Login
pub mod Transfer
pub mod Rounds
mod Tests
pub mod Envelope
pub mod Exchange
