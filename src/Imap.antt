-- ===== src/Imap.antt =====
-- The IMAP server: proto/ImapCommand.hpp and imap-server/src/ImapParser.cpp, imap-server/src/ImapUtils.cpp,
-- the handlers of imap-server/src/ImapCommandDispatcher.cpp, and `HandleCommand` of
-- imap-server/src/ImapSession.cpp.
pub mod Command
pub mod Elements
pub mod Parser
pub mod Quoting
pub mod Suffix
pub mod Totality
pub mod Commands
pub mod Response
pub mod Session
pub mod Mailboxes
pub mod Status
pub mod Sequence
pub mod Store
pub mod Copy
pub mod Guards
pub mod MailboxesServe
pub mod StoreServes
pub mod UidSets
pub mod Dates
pub mod Weekdays
pub mod Bodies
mod Sections
pub mod Envelope
pub mod BodyStructure
pub mod Items
pub mod Fetch
pub mod Dispatch
pub mod FetchServes
pub mod Serving
pub mod Unauthenticated
pub mod Access
mod Tests
mod SessionTests
