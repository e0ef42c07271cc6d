-- ===== src/Database.antt =====
-- database/: the tables, the data access layer and the repositories.
pub mod Rows
pub mod Engine
pub mod Queries
pub mod FolderDal
pub mod MessageDal
pub mod RecipientDal
pub mod UserDal
pub mod Repository
pub mod Rules
pub mod Selection
pub mod Counters
pub mod Storing
pub mod Keeping
pub mod Cascade
pub mod Operations
pub mod Moving
pub mod Expunging
pub mod Copying
pub mod Accounts
pub mod Invariant
pub mod Delivery
pub mod FlagChanges
pub mod ExpungeSound
mod Tests
