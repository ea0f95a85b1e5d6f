-- ===== src/Core/Ratchet.antt =====
-- core/src/ratchet.rs: the Double Ratchet engine. `Keys` has the key derivations, `State` the
-- session and its bookkeeping, `Engine` encryption and decryption, `Export` the exported form;
-- the other children prove what these keep.
pub mod Export
pub mod Keys
pub mod Tracker
pub mod State
pub mod Monad
pub mod Engine
pub mod Rejection
pub mod Chain
pub mod Agreement
pub mod Delivery
pub mod Turn
pub mod OutOfOrder
pub mod Conversation
pub mod Outcome
pub mod Cache
