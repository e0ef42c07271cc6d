-- ===== src/Base64.antt =====
-- base64/: the codecs.
pub mod Alphabet
pub mod Encoder
pub mod Decoder
pub mod Groups
pub mod RoundTrip
pub mod StreamEncoder
pub mod StreamDecoder
pub mod Stream
pub mod StreamTrip
pub mod Attachment
pub mod Faults
pub mod Bounds
mod Tests
mod StreamTests
