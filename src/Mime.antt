-- ===== src/Mime.antt =====
-- The MIME library, mime/src: the decoder of header words and bodies, and the parser of messages.
pub mod Decoder
pub mod Utf8
pub mod Encoder
pub mod Headers
pub mod Email
pub mod Parser
pub mod Structure
pub mod QuotedPrintable
pub mod Totality
pub mod StructureTotality
mod Tests
pub mod Message
pub mod Lookup
pub mod Words
pub mod HeaderTrip
