-- ===== src/Store/Records.antt =====
-- The records that the store keeps (store/src/contacts.rs, messages.rs, profile.rs, verification.rs).
use dratchet.Base.{ℕ, Bool, Option, Bytes}

pub data VerificationState : Type 0 where
  pending verified mismatch : VerificationState

pub record Contact : Type 0 where
  pub fingerprint : Bytes
  pub username : Option Bytes
  pub discriminator : Option ℕ
  pub verification_state : VerificationState
  pub mailbox_id : Bytes
  pub created_at : ℕ
  pub local_routing_id : Bytes
  pub peer_routing_id : Option Bytes
  pub wipe_ask_before_delete : Bool
  pub peer_wipe_ask_before_delete : Option Bool
  pub wipe_include_session : Bool
  pub peer_wipe_include_session : Option Bool
  pub wipe_request_pending : Bool
  pub wipe_boundary_timestamp : Option ℕ
  pub wipe_boundary_sequence : Option ℕ
  pub peer_wipe_boundary_timestamp : Option ℕ
  pub peer_wipe_boundary_sequence : Option ℕ
  pub routing_confirmed : Bool
  pub routing_announce : Bytes

pub data RetryReason : Type 0 where
  send_failed expired server_restarted : RetryReason

pub record Message : Type 0 where
  pub id : Bytes
  pub sender_is_local : Bool
  pub content : Bytes
  pub timestamp : ℕ
  pub sequence : ℕ
  pub send_n : Option ℕ
  pub send_dh_pub : Option Bytes
  pub recv_n : Option ℕ
  pub recv_dh_pub : Option Bytes
  pub delivered : Bool
  pub uncertain : Bool
  pub retry_reason : Option RetryReason
  pub peer_message_id : Option Bytes
  pub last_sent_at : Option ℕ

pub record OwnProfile : Type 0 where
  pub username : Bytes
  pub discriminator : ℕ
  pub signed_prekey_id : ℕ
