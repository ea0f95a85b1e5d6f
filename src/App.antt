-- ===== src/App.antt =====
-- The crate app/: what a client does with its database, its sessions and the service.
pub mod Errors
pub mod Client
pub mod Wipes
pub mod Receive
pub mod Send
pub mod FirstContact
pub mod Upkeep
pub mod Profiles
pub mod Announce
mod Tests
