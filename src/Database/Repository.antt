-- ===== src/Database/Repository.antt =====
-- database/Repository: MessageRepository.cpp in four parts, and UserRepository.cpp.
pub mod Messages
pub mod Flagging
pub mod Folders
pub mod Recipients
pub mod Users
