-- ===== src/Server.antt =====
-- The crate server/: the signaling and presence service.
pub mod Errors
pub mod Abuse
pub mod State
pub mod Mailbox
pub mod Directory
pub mod Presence
pub mod Pruning
pub mod Storage
pub mod MailStore
pub mod Flush
pub mod Address
mod Tests
