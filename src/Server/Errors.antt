-- ===== src/Server/Errors.antt =====
-- server/src/error.rs: the errors of the service, by their variants.
use Prim.Native.String.{String}
use dratchet.Base.{Result}

pub data Error : Type 0 where
  malformed_frame invalid_bundle : String → Error
  auth_required auth_failed already_authenticated username_taken proof_of_work_required : Error
  rate_limited not_found not_mailbox_owner envelope_too_large mailbox_full : Error
  writer_quota_exceeded new_mailbox_rate_limited write_refused too_many_one_time_prekeys : Error
  username_too_long username_invalid_characters sdp_too_large ice_candidates_invalid : Error

abbrev pub ServerResult {ℓ} : Type ℓ → Type ℓ
ServerResult A = Result Error A
