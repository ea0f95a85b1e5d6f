-- ===== src/Core.antt =====
-- The crate core/: the wire envelope, payload padding and the Double Ratchet engine.
pub mod Errors
pub mod Words
pub mod Envelope
pub mod Payload
pub mod Identity
pub mod Prekey
pub mod Account
pub mod Username
pub mod Conversation
pub mod Exports
pub mod X3dh
pub mod FirstContact
pub mod Ratchet
mod Tests
