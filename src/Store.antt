-- ===== src/Store.antt =====
-- The crate store/: the encrypted local database of a client and what it keeps there.
pub mod Errors
pub mod Db
pub mod Records
pub mod Scan
pub mod Contacts
pub mod Messages
pub mod Gate
pub mod Verification
pub mod Peers
pub mod Sessions
pub mod Notices
mod Tests
